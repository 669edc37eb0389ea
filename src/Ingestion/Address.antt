-- ===== src/Ingestion/Address.antt =====
-- `resolve_public_addresses` of src/ingestion/network/safety.rs and the choice of an address in
-- `pinned_client`. All addresses of one lookup have the port that was asked for, so a socket address
-- is its IP address here.
pub mod Laws
use eal_sync.Prelude.{
  ℕ, ◌+◌, ◌*◌, ◌^◌, Bool, true, false, List, [], ◌∷◌, Option, none, some, ◌==◌, ltb, find, keep,
  if◌then◌else◌,
}
use eal_sync.Prelude.Result.{Result, ok, err, guard, or_fail, ◌>>=◌, ◌>>◌}
use eal_sync.Net.Ip.{Ipv4Addr, Ipv6Addr, IpAddr, v4, v6, is_public_ip}
use eal_sync.Ingestion.Error.{IngestionError, error}

abbrev is_ipv4 : IpAddr → Bool
is_ipv4 (v4 a) = true
is_ipv4 (v6 a) = false

-- the order of `IpAddr`: every IPv4 address first, then by octets or segments
abbrev bits_v4 : Ipv4Addr → ℕ
bits_v4 x = x.a * 2 ^ 24 + x.b * 2 ^ 16 + x.c * 2 ^ 8 + x.d

abbrev bits_v6 : Ipv6Addr → ℕ
bits_v6 x =
    x.s0 * 2 ^ 112
    + x.s1 * 2 ^ 96
    + x.s2 * 2 ^ 80
    + x.s3 * 2 ^ 64
    + x.s4 * 2 ^ 48
    + x.s5 * 2 ^ 32
    + x.s6 * 2 ^ 16
    + x.s7

abbrev order_key : IpAddr → ℕ
order_key (v4 x) = bits_v4 x
order_key (v6 x) = 2 ^ 32 + bits_v6 x

-- `collect::<BTreeSet<_>>` as a sorted list without duplicates
unfoldable pub insert_address : IpAddr → List IpAddr → List IpAddr
insert_address a [] = a ∷ []
insert_address a (b ∷ bs) =
    let rest = insert_address a bs in
    if ltb (order_key a) (order_key b)
    then a ∷ b ∷ bs
    else if order_key a == order_key b
    then b ∷ bs
    else b ∷ rest

unfoldable pub collect_addresses : List IpAddr → List IpAddr
collect_addresses [] = []
collect_addresses (a ∷ as_) = insert_address a (collect_addresses as_)

abbrev first : List IpAddr → Option IpAddr
first [] = none
first (a ∷ rest) = some a

unfoldable pub public_addresses : List IpAddr → List IpAddr
public_addresses resolved = collect_addresses (keep is_public_ip resolved)

-- `none` is a lookup that fails
unfoldable pub resolve_public_addresses : Option (List IpAddr) → Result IngestionError (List IpAddr)
resolve_public_addresses lookup = do
  resolved ← or_fail lookup (error "dns_failed")
  _ ← or_fail (first (public_addresses resolved)) (error "dns_no_public_address")
  ok (public_addresses resolved)

-- `find(is_ipv4).or_else(first)`
unfoldable pub select_address : List IpAddr → Option IpAddr
select_address addresses = elim (find is_ipv4 addresses) [
  | some a ↦ some a
  | none ↦ first addresses
]
