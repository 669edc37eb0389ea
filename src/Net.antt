-- ===== src/Net.antt =====
-- Addresses, URLs and response bodies, which both crates read.
pub mod Ip
pub mod IpText
pub mod Url
pub mod Body
