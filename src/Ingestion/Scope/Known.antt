-- ===== src/Ingestion/Scope/Known.antt =====
-- Which hosts a scope knows, and which ports are the default ones, in words that do not use the code's
-- tests.
use mathlib.Core.List.{reverse-append, reverse-reverse}
use eal_sync.Prelude.{
  ℕ, ◌≡◌, ◌↔◌, ◌⊎◌, ◌∙◌, refl, ap, sym, true, false, [], ◌∷◌, ◌++◌, Option, none, some, reverse,
  ==_iff, ==_refl, arith, Bool-cases, Option-cases, inl, inr,
}
use eal_sync.Prelude.Text.{
  Text, codes, text_eq, text_eq→eq, text_eq_refl, is_empty, strip_prefix, starts_with, ends_with,
  strip_suffix,
}
use eal_sync.Prelude.Member.{Member, any-Member, Member-any}
use eal_sync.Net.Url.{UrlCrate}
use eal_sync.Ingestion.Scope.{FetchScope, set_contains, none_or, host_allowed, uses_default_port}
use eal_sync.Ingestion.Scope.Paths.{strip_prefix_sound, strip_prefix-append}

-- The host of the scope, one that was allowed by name, or, where subdomains belong to the scope, a name
-- below its host, after a dot.
abbrev pub IsKnownHost : FetchScope → Text → Type 0
IsKnownHost scope host =
    (host ≡ scope.root_host)
    ⊎ Member host scope.explicitly_allowed_hosts
    ⊎ ((scope.include_subdomains ≡ true)
        × (label : Text) × (host ≡ label ++ codes "." ++ scope.root_host))

-- What is left of the reversed text.
reversed_prefix :
    (p s : Text) {rest : Text}
    → strip_prefix (reverse p) (reverse s) ≡ some rest
    → s ≡ reverse rest ++ p
reversed_prefix p s {rest} e =
    sym (reverse-reverse s)
    ∙ ap reverse (strip_prefix_sound (reverse p) (reverse s) e)
    ∙ reverse-append (reverse p) rest
    ∙ ap (λ t. reverse rest ++ t) (reverse-reverse p)

strip_suffix_sound : (p s : Text) {rest : Text} → strip_suffix p s ≡ some rest → s ≡ rest ++ p
unfolding strip_suffix
strip_suffix_sound p s {rest} e = elim (Option-cases (strip_prefix (reverse p) (reverse s))) [
  | inl missing ↦ absurd (ground (arith, missing))
  | inr (found, same) ↦
      let last : reverse found ≡ rest = ground (arith, same) in
      reversed_prefix p s same ∙ ap (λ t. t ++ p) last
]

strip_suffix-append : (s p : Text) → strip_suffix p (s ++ p) ≡ some s
unfolding strip_suffix
strip_suffix-append s p =
    let found : strip_prefix (reverse p) (reverse (s ++ p)) ≡ some (reverse s) =
      rw (reverse-append s p) (strip_prefix-append (reverse p) (reverse s)) in
    rw (found, strip_suffix) (ap (λ t. some t) (reverse-reverse s))

ends_with_sound : (p s : Text) → ends_with p s ≡ true → (rest : Text) × (s ≡ rest ++ p)
unfolding ends_with starts_with
ends_with_sound p s h = elim (Option-cases (strip_prefix (reverse p) (reverse s))) [
  | inl missing ↦ absurd (ground (arith, missing))
  | inr (found, same) ↦ (reverse found, reversed_prefix p s same)
]

ends_with-append : (s p : Text) → ends_with p (s ++ p) ≡ true
unfolding ends_with starts_with
ends_with-append s p = rw (reverse-append s p, strip_prefix-append (reverse p) (reverse s)) refl

not_empty : (label : Text) → is_empty (label ++ codes ".") ≡ false
not_empty [] = refl
not_empty (c ∷ label) = refl

module _ (scope : FetchScope) (host : Text) where
  subdomain :
      {prefix : Text}
      → strip_suffix scope.root_host host ≡ some prefix
      → ends_with (codes ".") prefix ≡ true
      → (label : Text) × (host ≡ label ++ codes "." ++ scope.root_host)
  subdomain {prefix} found dotted =
      let (label, e) = ends_with_sound (codes ".") prefix dotted in
      (label, strip_suffix_sound scope.root_host host found ∙ ap (λ t. t ++ scope.root_host) e)

  allowed-IsKnownHost : host_allowed scope host ≡ true → IsKnownHost scope host
  unfolding host_allowed
  allowed-IsKnownHost h = elim (Bool-cases (text_eq host scope.root_host)) [
    | inl root ↦ inl (text_eq→eq host scope.root_host root)
    | inr other ↦ elim (Bool-cases (set_contains host scope.explicitly_allowed_hosts)) [
      | inl listed ↦
          let (found, m, e) = any-Member (text_eq host) scope.explicitly_allowed_hosts listed in
          let same : host ≡ found = text_eq→eq host found e in inr (inl (rw same m))
      | inr unlisted ↦ elim (Option-cases (strip_suffix scope.root_host host)) [
        | inl missing ↦ absurd (ground (arith, other, unlisted, missing))
        | inr (prefix, found) ↦
            let (label, below) = subdomain found (ground (arith, other, unlisted, found)) in
            inr (inr (ground (arith, other, unlisted, found), label, below))
      ]
    ]
  ]

  IsKnownHost-allowed : IsKnownHost scope host → host_allowed scope host ≡ true
  unfolding host_allowed
  IsKnownHost-allowed (inl root) =
      let same : text_eq host scope.root_host ≡ true = rw root (text_eq_refl scope.root_host) in
      rw same refl
  IsKnownHost-allowed (inr (inl listed)) =
      let found : set_contains host scope.explicitly_allowed_hosts ≡ true =
        Member-any (text_eq host) scope.explicitly_allowed_hosts listed (text_eq_refl host) in
      ground (arith, found)
  IsKnownHost-allowed (inr (inr (wide, label, below))) =
      let found : strip_suffix scope.root_host host ≡ some (label ++ codes ".") =
        rw below (strip_suffix-append (label ++ codes ".") scope.root_host) in
      ground (arith, wide, found, ends_with-append label (codes "."), not_empty label)

  -- A scope allows exactly the hosts that it knows; `evilexample.com` is not below `example.com`.
  pub host_allowed_iff : (host_allowed scope host ≡ true) ↔ IsKnownHost scope host
  host_allowed_iff = (allowed-IsKnownHost, IsKnownHost-allowed)

module _ (crate : UrlCrate) (url : crate.Url) where
  open crate use {scheme, port}

  -- No port, or port 80 of `http` and port 443 of `https`.
  abbrev pub HasDefaultPort : Type 0
  HasDefaultPort =
      ((scheme url ≡ codes "http") × ((port url ≡ none) ⊎ (port url ≡ some 80)))
      ⊎ ((scheme url ≡ codes "https") × ((port url ≡ none) ⊎ (port url ≡ some 443)))

  is_port : (n : ℕ) (o : Option ℕ) → none_or n o ≡ true → (o ≡ none) ⊎ (o ≡ some n)
  is_port n none h = inl refl
  is_port n (some m) h = inr (ap (λ k. some k) ((==_iff m n).0 h))

  port-is : (n : ℕ) (o : Option ℕ) → (o ≡ none) ⊎ (o ≡ some n) → none_or n o ≡ true
  port-is n o (inl e) = rw e refl
  port-is n o (inr e) = rw e (==_refl n)

  not_both :
      text_eq (scheme url) (codes "http") ≡ true → text_eq (scheme url) (codes "https") ≡ false
  unfolding text_eq
  not_both h = rw (text_eq→eq (scheme url) (codes "http") h) refl

  default-HasDefaultPort : uses_default_port crate url ≡ true → HasDefaultPort
  unfolding uses_default_port
  default-HasDefaultPort h = elim (Bool-cases (text_eq (scheme url) (codes "http"))) [
    | inl plain ↦ inl (
      text_eq→eq (scheme url) (codes "http") plain,
      is_port 80 (port url) (ground (arith, plain, not_both plain)),
    )
    | inr other ↦ inr (
      text_eq→eq (scheme url) (codes "https") (ground (arith, other)),
      is_port 443 (port url) (ground (arith, other)),
    )
  ]

  HasDefaultPort-default : HasDefaultPort → uses_default_port crate url ≡ true
  unfolding uses_default_port
  HasDefaultPort-default (inl (plain, p)) =
      rw (plain, port-is 80 (port url) p, text_eq_refl (codes "http")) refl
  HasDefaultPort-default (inr (secure, p)) =
      rw (secure, port-is 443 (port url) p, text_eq_refl (codes "https")) (ground arith)

  pub uses_default_port_iff : (uses_default_port crate url ≡ true) ↔ HasDefaultPort
  uses_default_port_iff = (default-HasDefaultPort, HasDefaultPort-default)
