-- ===== src/Ingestion/Address/Laws.antt =====
-- The address that `pinned_client` of src/ingestion/network/fetcher.rs dials.
use eal_sync.Prelude.{
  ◌≡◌, true, List, [], ◌∷◌, Option, none, some, find, All, arith, ltb, ◌==◌, Bool-cases,
  Option-cases, inl, inr,
}
use eal_sync.Prelude.Result.{ok}
use eal_sync.Prelude.Member.{All-elim, find-Member}
use eal_sync.Net.Ip.{IpAddr, is_public_ip}
use eal_sync.Ingestion.Address.{
  is_ipv4, order_key, insert_address, collect_addresses, first, public_addresses,
  resolve_public_addresses, select_address,
}

abbrev AllPublic : List IpAddr → Type 0
AllPublic addresses = All (λ a. is_public_ip a ≡ true) addresses

insert_address-AllPublic :
    (a : IpAddr) (as_ : List IpAddr)
    → is_public_ip a ≡ true
    → AllPublic as_
    → AllPublic (insert_address a as_)
unfolding insert_address
insert_address-AllPublic a [] h k = (h, tt)
insert_address-AllPublic a (b ∷ bs) h (kb, k) =
    elim (Bool-cases (ltb (order_key a) (order_key b))) [
      | inl less ↦ rw less (h, (kb, k))
      | inr more ↦ elim (Bool-cases (order_key a == order_key b)) [
        | inl same ↦ rw (more, same) (kb, k)
        | inr other ↦ rw (more, other) (kb, insert_address-AllPublic a bs h k)
      ]
    ]

public_addresses-AllPublic : (resolved : List IpAddr) → AllPublic (public_addresses resolved)
unfolding public_addresses collect_addresses
public_addresses-AllPublic [] = tt
public_addresses-AllPublic (a ∷ as_) = elim (Bool-cases (is_public_ip a)) [
  | inl hit ↦ rw hit (insert_address-AllPublic a _ hit (public_addresses-AllPublic as_))
  | inr miss ↦ rw miss (public_addresses-AllPublic as_)
]

find-public :
    (as_ : List IpAddr) {a : IpAddr}
    → AllPublic as_
    → find is_ipv4 as_ ≡ some a
    → is_public_ip a ≡ true
find-public as_ k e = All-elim _ as_ k (find-Member is_ipv4 as_ e).0

first-public :
    (as_ : List IpAddr) {a : IpAddr} → AllPublic as_ → first as_ ≡ some a → is_public_ip a ≡ true
first-public [] k e = cc
first-public (b ∷ bs) (kb, k) e = ground (arith)

select-public :
    (as_ : List IpAddr) {a : IpAddr}
    → AllPublic as_
    → select_address as_ ≡ some a
    → is_public_ip a ≡ true
unfolding select_address
select-public as_ k e = elim (Option-cases (find is_ipv4 as_)) [
  | inl nothing ↦ first-public as_ k (ground (arith, nothing))
  | inr (b, found) ↦ find-public as_ k (ground (arith, found))
]

-- Whatever DNS answers, an address that is selected from the resolved ones is public.
pub resolve-public :
    (lookup : Option (List IpAddr)) {addresses : List IpAddr} {a : IpAddr}
    → resolve_public_addresses lookup ≡ ok addresses
    → select_address addresses ≡ some a
    → is_public_ip a ≡ true
unfolding resolve_public_addresses
resolve-public none e s = cc
resolve-public (some resolved) {addresses} e s =
    let same : public_addresses resolved ≡ addresses = ground arith in
    select-public (public_addresses resolved) (public_addresses-AllPublic resolved) (rw same s)
