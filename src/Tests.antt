-- ===== src/Tests.antt =====
-- Runs of the theorems at concrete inputs.
mod Samples
mod Queues
mod Workers
mod Addresses
mod Fetches
mod Pages
mod Documents
mod Stored
mod Crawls
