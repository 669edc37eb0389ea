-- ===== src/Net/Ip/Compare.antt =====
-- The two address tests of the repository against each other.
use eal_sync.Prelude.{◌/◌, ◌^◌, ◌≡◌, true, false, arith, ◌==◌, leb, ◌&&◌, Bool-cases, inl, inr}
use eal_sync.Net.Ip.{
  Ipv4Addr, IpAddr, v4, v6, is_public_ipv4, is_public_ip, is_public_ipv6, is_non_public_ip,
  is_private, is_documentation, is_loopback_v4, is_link_local, is_broadcast, is_unspecified_v4,
  is_ipv4_mapped, Ipv6Addr,
}

module _ (x : Ipv4Addr) (h : is_public_ipv4 x ≡ true) where
  not_private : is_private x ≡ false
  unfolding is_public_ipv4 is_private
  not_private = ground arith

  not_documentation : is_documentation x ≡ false
  unfolding is_public_ipv4 is_documentation
  not_documentation = ground arith

  not_loopback : is_loopback_v4 x ≡ false
  unfolding is_public_ipv4 is_loopback_v4
  not_loopback = ground arith

  not_link_local : is_link_local x ≡ false
  unfolding is_public_ipv4 is_link_local
  not_link_local = ground arith

  not_broadcast : is_broadcast x ≡ false
  unfolding is_public_ipv4 is_broadcast
  not_broadcast = ground arith

  not_unspecified : is_unspecified_v4 x ≡ false
  unfolding is_public_ipv4 is_unspecified_v4
  not_unspecified = ground arith

  not_zero : (x.a == 0) ≡ false
  unfolding is_public_ipv4
  not_zero = ground arith

  not_multicast : leb 224 x.a ≡ false
  unfolding is_public_ipv4
  not_multicast = ground arith

module _ (x : Ipv6Addr) where
  -- A global unicast address that is not for documentation.
  abbrev IsGlobal : Type 0
  IsGlobal = (x.s0 / 2 ^ 13 ≡ 1) × ((x.s0 == 0x2001 && x.s1 == 0x0db8) ≡ false)

  mapped-passes_worker : is_ipv4_mapped x ≡ true → is_non_public_ip (v6 x) ≡ false
  unfolding is_non_public_ip is_ipv4_mapped
  mapped-passes_worker h = ground arith

  global-passes_worker : IsGlobal → is_non_public_ip (v6 x) ≡ false
  unfolding is_non_public_ip
  global-passes_worker h = ground arith

-- Each address that ingestion fetches passes the worker's test as well.
pub public-passes_worker : (x : IpAddr) → is_public_ip x ≡ true → is_non_public_ip x ≡ false
unfolding is_public_ip is_public_ipv6 is_non_public_ip
public-passes_worker (v4 x) h = rw (
  not_private x h,
  not_loopback x h,
  not_link_local x h,
  not_broadcast x h,
  not_documentation x h,
  not_unspecified x h,
  not_zero x h,
  not_multicast x h,
)
public-passes_worker (v6 x) h = elim (Bool-cases (is_ipv4_mapped x)) [
  | inl mapped ↦ mapped-passes_worker x mapped
  | inr other ↦ global-passes_worker x (ground arith)
]
