-- ===== src/Net/Ip.antt =====
-- Which addresses count as public: `is_public_ip` of src/ingestion/network/safety.rs and
-- `is_non_public_ip` of runtime-worker/src/types.rs, with the tests of std::net that they call.
-- A mask is written as the quotient that keeps the same bits: x & 0xe000 == 0x2000 is x / 2^13 == 1.
pub mod Blocks
pub mod Compare
use eal_sync.Prelude.{
  ℕ, ◌+◌, ◌*◌, ◌/◌, ◌%◌, ◌^◌, Bool, true, false, not, ◌&&◌, ◌||◌, ◌==◌, leb, within, if◌then◌else◌,
}

pub record Ipv4Addr : Type 0 where
  pub a : ℕ
  pub b : ℕ
  pub c : ℕ
  pub d : ℕ

-- `segments()`: eight words of 16 bits
pub record Ipv6Addr : Type 0 where
  pub s0 : ℕ
  pub s1 : ℕ
  pub s2 : ℕ
  pub s3 : ℕ
  pub s4 : ℕ
  pub s5 : ℕ
  pub s6 : ℕ
  pub s7 : ℕ

pub data IpAddr : Type 0 where
  v4 : Ipv4Addr → IpAddr
  v6 : Ipv6Addr → IpAddr

unfoldable pub is_public_ipv4 : Ipv4Addr → Bool
is_public_ipv4 address = not (
    (a == 0 || a == 10 || a == 127)
    || (a == 100 && within 64 127 b)
    || (a == 169 && b == 254)
    || (a == 172 && within 16 31 b)
    || (a == 192 && b == 0 && c == 0)
    || (a == 192 && b == 0 && c == 2)
    || (a == 192 && b == 88 && c == 99)
    || (a == 192 && b == 168)
    || (a == 198 && (b == 18 || b == 19))
    || (a == 198 && b == 51 && c == 100)
    || (a == 203 && b == 0 && c == 113)
    || leb 224 a)
  where
    open address use {a, b, c}

-- `to_ipv4_mapped`: ::ffff:a.b.c.d
unfoldable pub is_ipv4_mapped : Ipv6Addr → Bool
is_ipv4_mapped x = x.s0 == 0 && x.s1 == 0 && x.s2 == 0 && x.s3 == 0 && x.s4 == 0 && x.s5 == 0xffff

abbrev pub low_ipv4 : Ipv6Addr → Ipv4Addr
low_ipv4 x = record { a = x.s6 / 2 ^ 8; b = x.s6 % 2 ^ 8; c = x.s7 / 2 ^ 8; d = x.s7 % 2 ^ 8 }

unfoldable pub is_public_ipv6 : Ipv6Addr → Bool
is_public_ipv6 address =
    if is_ipv4_mapped address
    then is_public_ipv4 (low_ipv4 address)
    else let is_global_unicast = address.s0 / 2 ^ 13 == 1 in
      let is_documentation = address.s0 == 0x2001 && address.s1 == 0x0db8 in
      is_global_unicast && not is_documentation

unfoldable pub is_public_ip : IpAddr → Bool
is_public_ip (v4 address) = is_public_ipv4 address
is_public_ip (v6 address) = is_public_ipv6 address

-- The tests of `std::net::Ipv4Addr`.
unfoldable pub is_private : Ipv4Addr → Bool
is_private x = x.a == 10 || (x.a == 172 && within 16 31 x.b) || (x.a == 192 && x.b == 168)

unfoldable pub is_loopback_v4 : Ipv4Addr → Bool
is_loopback_v4 x = x.a == 127

unfoldable pub is_link_local : Ipv4Addr → Bool
is_link_local x = x.a == 169 && x.b == 254

unfoldable pub is_broadcast : Ipv4Addr → Bool
is_broadcast x = x.a == 255 && x.b == 255 && x.c == 255 && x.d == 255

unfoldable pub is_documentation : Ipv4Addr → Bool
is_documentation x =
    (x.a == 192 && x.b == 0 && x.c == 2)
    || (x.a == 198 && x.b == 51 && x.c == 100)
    || (x.a == 203 && x.b == 0 && x.c == 113)

unfoldable pub is_unspecified_v4 : Ipv4Addr → Bool
is_unspecified_v4 x = x.a == 0 && x.b == 0 && x.c == 0 && x.d == 0

abbrev high_words_zero : Ipv6Addr → Bool
high_words_zero x =
    x.s0 == 0 && x.s1 == 0 && x.s2 == 0 && x.s3 == 0 && x.s4 == 0 && x.s5 == 0 && x.s6 == 0

-- The tests of `std::net::Ipv6Addr`.
unfoldable pub is_loopback_v6 : Ipv6Addr → Bool
is_loopback_v6 x = high_words_zero x && x.s7 == 1

unfoldable pub is_unspecified_v6 : Ipv6Addr → Bool
is_unspecified_v6 x = high_words_zero x && x.s7 == 0

unfoldable pub is_unique_local : Ipv6Addr → Bool
is_unique_local x = x.s0 / 2 ^ 9 == 0x7e

unfoldable pub is_unicast_link_local : Ipv6Addr → Bool
is_unicast_link_local x = x.s0 / 2 ^ 6 == 0x3fa

unfoldable pub is_non_public_ip : IpAddr → Bool
unfolding is_private is_loopback_v4 is_link_local is_broadcast is_documentation is_unspecified_v4
    is_loopback_v6 is_unspecified_v6 is_unique_local is_unicast_link_local
is_non_public_ip (v4 address) =
    is_private address
    || is_loopback_v4 address
    || is_link_local address
    || is_broadcast address
    || is_documentation address
    || is_unspecified_v4 address
    || address.a == 0
    || leb 224 address.a
is_non_public_ip (v6 address) =
    is_loopback_v6 address
    || is_unspecified_v6 address
    || is_unique_local address
    || is_unicast_link_local address
    || address.s0 / 2 ^ 6 == 0x3fb
    || address.s0 / 2 ^ 8 == 0xff
    || (address.s0 == 0x2001 && address.s1 == 0x0db8)
