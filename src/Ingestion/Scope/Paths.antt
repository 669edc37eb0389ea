-- ===== src/Ingestion/Scope/Paths.antt =====
-- Which paths a prefix covers.
use mathlib.Core.List.{reverse-append, reverse-cons, reverse-reverse}
use eal_sync.Prelude.{
  false, sym, reverse, All, All-append, ◌≡◌, ◌↔◌, ◌⊎◌, inl, inr, refl, ap, true, [], ◌∷◌, ◌++◌,
  some, arith, ◌==◌, ==_iff, ==_refl, Bool-cases, Option-cases, ◌∙◌,
}
use eal_sync.Prelude.Text.{
  Text, codes, text_eq, text_eq→eq, text_eq_refl, drop_end_while, drop_while, strip_prefix,
  starts_with, ends_with,
}
use eal_sync.Ingestion.Scope.{is_slash, path_matches_prefix}

pub strip_prefix_sound : (p s : Text) {rest : Text} → strip_prefix p s ≡ some rest → s ≡ p ++ rest
unfolding strip_prefix
strip_prefix_sound [] s e = ground arith
strip_prefix_sound (c ∷ p) [] e = cc
strip_prefix_sound (c ∷ p) (d ∷ s) {rest} e = elim (Bool-cases (c == d)) [
  | inl hit ↦
      let same : c ≡ d = (==_iff c d).0 hit in
      let tail : s ≡ p ++ rest = strip_prefix_sound p s (rw (hit, strip_prefix) at e) in
      rw (same, tail) refl
  | inr miss ↦ absurd (ground (arith, miss))
]

pub strip_prefix-append : (p rest : Text) → strip_prefix p (p ++ rest) ≡ some rest
unfolding strip_prefix
strip_prefix-append [] rest = refl
strip_prefix-append (c ∷ p) rest = rw (==_refl c, strip_prefix-append p rest) refl

starts_slash : (s : Text) → starts_with (codes "/") s ≡ true → (rest : Text) × (s ≡ b'/' ∷ rest)
unfolding starts_with strip_prefix
starts_slash [] e = absurd (ground arith)
starts_slash (c ∷ s) e = (s, ground arith)

slash_starts : (rest : Text) → starts_with (codes "/") (b'/' ∷ rest) ≡ true
unfolding starts_with strip_prefix
slash_starts rest = refl

-- The prefix without its final slashes.
abbrev boundary_of : Text → Text
boundary_of prefix = drop_end_while is_slash prefix

-- `stem` is the prefix less all slashes at its end.
abbrev pub IsStem : Text → Text → Type 0
IsStem prefix stem =
    (slashes : Text) × (prefix ≡ stem ++ slashes)
    × All (λ c. c ≡ b'/') slashes
    × (ends_with (codes "/") stem ≡ false)

-- `prefix` is the root, or `path` is its stem or continues it after a slash.
abbrev pub Covers : Text → Text → Type 0
Covers prefix path =
    (prefix ≡ codes "/")
    ⊎ (stem : Text) × IsStem prefix stem
      × ((path ≡ stem) ⊎ ((rest : Text) × (path ≡ stem ++ b'/' ∷ rest)))

-- What `drop_while` drops, and where it stops.
drop_while-split :
    (s : Text)
    → (dropped : Text) × (s ≡ dropped ++ drop_while is_slash s)
      × All (λ c. c ≡ b'/') dropped
      × (starts_with (codes "/") (drop_while is_slash s) ≡ false)
unfolding drop_while starts_with strip_prefix
drop_while-split [] = ([], refl, tt, refl)
drop_while-split (c ∷ s) = elim (Bool-cases (c == b'/')) [
  | inl hit ↦
      let (dropped, whole, slashes, stops) = drop_while-split s in
      rw (hit, drop_while)
        (c ∷ dropped, ap (λ t. c ∷ t) whole, ((==_iff c b'/').0 hit, slashes), stops)
  | inr miss ↦ rw (miss, drop_while) ([], refl, tt, ground (arith, miss))
]

drop_while-slashes :
    (slashes s : Text)
    → All (λ c. c ≡ b'/') slashes
    → starts_with (codes "/") s ≡ false
    → drop_while is_slash (slashes ++ s) ≡ s
unfolding drop_while starts_with strip_prefix
drop_while-slashes [] [] a h = refl
drop_while-slashes [] (c ∷ s) a h = ground (arith, h)
drop_while-slashes (c ∷ slashes) s (e, es) h = rw e (drop_while-slashes slashes s es h)

All-reverse : (s : Text) → All (λ c. c ≡ b'/') s → All (λ c. c ≡ b'/') (reverse s)
All-reverse [] h = tt
All-reverse (c ∷ s) (e, es) =
    rw (reverse-cons c s)
      (All-append (λ d. d ≡ b'/') (reverse s) (c ∷ []) (All-reverse s es) (e, tt))

boundary_of-IsStem : (prefix : Text) → IsStem prefix (boundary_of prefix)
unfolding drop_end_while ends_with
boundary_of-IsStem prefix =
    let (dropped, whole, slashes, stops) = drop_while-split (reverse prefix) in
    (
      reverse dropped,
      sym (reverse-reverse prefix)
          ∙ ap reverse whole
          ∙ reverse-append dropped (drop_while is_slash (reverse prefix)),
      All-reverse dropped slashes,
      ap (starts_with (codes "/")) (reverse-reverse (drop_while is_slash (reverse prefix))) ∙ stops,
    )

-- A prefix has one stem.
IsStem-boundary_of : (prefix stem : Text) → IsStem prefix stem → boundary_of prefix ≡ stem
unfolding drop_end_while ends_with
IsStem-boundary_of prefix stem (slashes, whole, all_slashes, stops) =
    let backwards : reverse prefix ≡ reverse slashes ++ reverse stem =
      ap reverse whole ∙ reverse-append stem slashes in
    ap (λ s. reverse (drop_while is_slash s)) backwards
    ∙ ap reverse (
        drop_while-slashes (reverse slashes) (reverse stem) (All-reverse slashes all_slashes) stops)
    ∙ reverse-reverse stem

module _ (path prefix : Text) where
  Covers-below :
      {rest : Text}
      → strip_prefix (boundary_of prefix) path ≡ some rest
      → starts_with (codes "/") rest ≡ true
      → Covers prefix path
  Covers-below {rest} found slash =
      let (tail, e) = starts_slash rest slash in
      inr (
        boundary_of prefix,
        boundary_of-IsStem prefix,
        inr (
          tail,
          strip_prefix_sound (boundary_of prefix) path found ∙ ap (λ r. boundary_of prefix ++ r) e,
        ),
      )

  matches-Covers : path_matches_prefix path prefix ≡ true → Covers prefix path
  unfolding path_matches_prefix
  matches-Covers h = elim (Bool-cases (text_eq prefix (codes "/"))) [
    | inl root ↦ inl (text_eq→eq prefix (codes "/") root)
    | inr deep ↦ elim (Bool-cases (text_eq path (boundary_of prefix))) [
      | inl same ↦ inr (
        boundary_of prefix,
        boundary_of-IsStem prefix,
        inl (text_eq→eq path (boundary_of prefix) same),
      )
      | inr longer ↦ elim (Option-cases (strip_prefix (boundary_of prefix) path)) [
        | inl missing ↦ absurd (ground (arith, deep, longer, missing))
        | inr (rest, found) ↦ Covers-below found (ground (arith, deep, longer, found))
      ]
    ]
  ]

  Covers-matches : Covers prefix path → path_matches_prefix path prefix ≡ true
  unfolding path_matches_prefix
  Covers-matches (inl root) = rw (root, text_eq_refl (codes "/")) refl
  Covers-matches (inr (stem, is_stem, inl same)) =
      let whole : path ≡ boundary_of prefix = same ∙ sym (IsStem-boundary_of prefix stem is_stem) in
      ground (arith, whole, text_eq_refl (boundary_of prefix))
  Covers-matches (inr (stem, is_stem, inr (rest, below))) =
      let whole : path ≡ boundary_of prefix ++ b'/' ∷ rest =
        below ∙ ap (λ s. s ++ b'/' ∷ rest) (sym (IsStem-boundary_of prefix stem is_stem)) in
      let found : strip_prefix (boundary_of prefix) path ≡ some (b'/' ∷ rest) =
        rw whole (strip_prefix-append (boundary_of prefix) (b'/' ∷ rest)) in
      ground (arith, found, slash_starts rest)

  -- A prefix covers every path if it is `/`; otherwise it covers, without its final slashes, itself
  -- and what continues it after a slash, so `/blog` covers `/blog/post` and not `/blogger`.
  pub path_matches_prefix_iff : (path_matches_prefix path prefix ≡ true) ↔ Covers prefix path
  path_matches_prefix_iff = (matches-Covers, Covers-matches)
