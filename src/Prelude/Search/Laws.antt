-- ===== src/Prelude/Search/Laws.antt =====
-- Where a text is found, and what is left of it elsewhere.
use Prim.Native.Nat.{ℕ, zero, suc, ◌+◌, ◌≤◌}
use mathlib.Core.Path.{◌≡◌, refl, sym, ap, ◌∙◌, subst}
use mathlib.Core.Logic.{inl, inr}
use mathlib.Core.Bool.{Bool, true, false, not}
use mathlib.Core.List.{[], ◌∷◌, ◌++◌}
use mathlib.Core.Option.{none, some}
use native.Mathlib.Omega.{arith}
use eal_sync.Prelude.Booleans.{◌==◌, Bool-cases, Option-cases}
use eal_sync.Prelude.Lists.{length, length-map, drop, all}
use eal_sync.Prelude.Text.{
  Text, starts_with, strip_prefix, contains, to_ascii_lower, to_ascii_lowercase,
}
use eal_sync.Prelude.Search.{split_before, starts_with_lower, find_lower}

pub split_before-append :
    (test : Text → Bool) (s : Text) {before from : Text}
    → split_before test s ≡ some (before, from)
    → (s ≡ before ++ from) × (test from ≡ true)
unfolding split_before
split_before-append test [] e = cc
split_before-append test (c ∷ s) {before} {from} e = elim (Bool-cases (test (c ∷ s))) [
  | inl hit ↦
      let at_start : before ≡ [] = ground (arith, hit) in
      let rest : from ≡ c ∷ s = ground (arith, hit) in rw (at_start, rest) (refl, hit)
  | inr miss ↦ elim (Option-cases (split_before test s)) [
    | inl nothing ↦ absurd (ground (arith, miss, nothing))
    | inr ((b, f), found) ↦
        let (joined, passes) = split_before-append test s found in
        let grown : before ≡ c ∷ b = ground (arith, miss, found) in
        let same : from ≡ f = ground (arith, miss, found) in
        rw (grown, same) (ap (λ t. c ∷ t) joined, passes)
  ]
]

pub length-drop : (k : ℕ) (s : Text) → k ≤ length s → length (drop k s) + k ≡ length s
length-drop zero s h = omega arith
length-drop (suc k) [] h = absurd (omega arith)
length-drop (suc k) (c ∷ s) h = omega (arith, length-drop k s)

starts-length : (p s : Text) → starts_with p s ≡ true → length p ≤ length s
unfolding starts_with strip_prefix
starts-length [] s h = omega arith
starts-length (a ∷ p) [] h = absurd (ground arith)
starts-length (a ∷ p) (c ∷ s) h = ground (arith, starts-length p s)

pub starts_lower-length : (p s : Text) → starts_with_lower p s ≡ true → length p ≤ length s
unfolding to_ascii_lowercase
starts_lower-length p s h =
    omega (arith, starts-length p (to_ascii_lowercase s) h, length-map s to_ascii_lower)

-- a text with no space in it, and not empty
abbrev pub is_solid : Text → Bool
is_solid [] = false
is_solid (c ∷ p) = all (λ d. not (d == b' ')) (c ∷ p)

starts-append : (p x y : Text) → starts_with p (x ++ y) ≡ false → starts_with p x ≡ false
unfolding starts_with strip_prefix
starts-append [] x y h = h
starts-append (a ∷ p) [] y h = refl
starts-append (a ∷ p) (c ∷ x) y h = elim (Bool-cases (a == c)) [
  | inl hit ↦ rw hit (starts-append p x y (rw hit at h))
  | inr miss ↦ rw miss refl
]

-- A text without spaces that begins before a space ends before it.
starts_before_space :
    (p x z : Text)
    → all (λ d. not (d == b' ')) p ≡ true
    → starts_with p x ≡ false
    → starts_with p (x ++ b' ' ∷ z) ≡ false
unfolding starts_with strip_prefix
starts_before_space [] x z solid h = h
starts_before_space (a ∷ p) [] z solid h = ground (arith, solid)
starts_before_space (a ∷ p) (c ∷ x) z solid h = elim (Bool-cases (a == c)) [
  | inl hit ↦ rw hit (starts_before_space p x z (ground (arith, solid)) (rw hit at h))
  | inr miss ↦ rw miss refl
]

starts_nil : (p : Text) → is_solid p ≡ true → starts_with p [] ≡ false
unfolding starts_with strip_prefix
starts_nil [] solid = sym solid
starts_nil (a ∷ p) solid = refl

solid-all : (p : Text) → is_solid p ≡ true → all (λ d. not (d == b' ')) p ≡ true
solid-all [] solid = refl
solid-all (a ∷ p) solid = solid

lower-append :
    (s t : Text) → to_ascii_lowercase (s ++ t) ≡ to_ascii_lowercase s ++ to_ascii_lowercase t
unfolding to_ascii_lowercase
lower-append [] t = refl
lower-append (c ∷ s) t = ap (λ r. to_ascii_lower c ∷ r) (lower-append s t)

lower_spaced :
    (s t : Text)
    → to_ascii_lowercase (s ++ b' ' ∷ t) ≡ to_ascii_lowercase s ++ b' ' ∷ to_ascii_lowercase t
unfolding to_ascii_lowercase to_ascii_lower
lower_spaced [] t = refl
lower_spaced (c ∷ s) t = ap (λ r. to_ascii_lower c ∷ r) (lower_spaced s t)

module _ (p : Text) (solid : is_solid p ≡ true) where
  contains_left : (x y : Text) → contains p (x ++ y) ≡ false → contains p x ≡ false
  unfolding contains
  contains_left [] y h = starts_nil p solid
  contains_left (c ∷ x) y h =
      let a = starts-append p (c ∷ x) y (ground (arith, h)) in
      let b = contains_left x y (ground (arith, h)) in rw (a, b) refl

  contains_right : (x y : Text) → contains p (x ++ y) ≡ false → contains p y ≡ false
  unfolding contains
  contains_right [] y h = h
  contains_right (c ∷ x) y h = contains_right x y (ground (arith, h))

  -- What is in neither of two texts is not in the two with a space between.
  contains_spaced :
      (x z : Text)
      → contains p x ≡ false
      → contains p z ≡ false
      → contains p (x ++ b' ' ∷ z) ≡ false
  unfolding contains
  contains_spaced [] z h k =
      rw (starts_before_space p [] z (solid-all p solid) (starts_nil p solid), k) refl
  contains_spaced (c ∷ x) z h k =
      let a = starts_before_space p (c ∷ x) z (solid-all p solid) (ground (arith, h)) in
      let b = contains_spaced x z (ground (arith, h)) k in rw (a, b) refl

  pub find_lower-none :
      (s : Text) → find_lower p s ≡ none → contains p (to_ascii_lowercase s) ≡ false
  unfolding find_lower split_before contains to_ascii_lowercase
  find_lower-none [] h = starts_nil p solid
  find_lower-none (c ∷ s) h = elim (Bool-cases (starts_with_lower p (c ∷ s))) [
    | inl hit ↦ absurd (ground (arith, h, hit))
    | inr miss ↦ elim (Option-cases (find_lower p s)) [
      | inl nothing ↦ rw (find_lower-none s nothing) (rw miss refl)
      | inr (q, found) ↦ absurd (ground (arith, h, miss, found))
    ]
  ]

  -- A cut that leaves a space in its place joins nothing new.
  pub contains_cut :
      (x y z : Text)
      → contains p (to_ascii_lowercase (x ++ (y ++ z))) ≡ false
      → contains p (to_ascii_lowercase (x ++ b' ' ∷ z)) ≡ false
  contains_cut x y z h =
      let cut =
        subst (λ t. contains p t ≡ false)
          (lower-append x (y ++ z) ∙ ap (λ t. to_ascii_lowercase x ++ t) (lower-append y z)) h in
      let in_z = contains_right (to_ascii_lowercase y) (to_ascii_lowercase z) (
        contains_right (to_ascii_lowercase x) (to_ascii_lowercase y ++ to_ascii_lowercase z) cut) in
      let in_x =
        contains_left (to_ascii_lowercase x) (to_ascii_lowercase y ++ to_ascii_lowercase z) cut in
      subst (λ t. contains p t ≡ false) (sym (lower_spaced x z))
        (contains_spaced (to_ascii_lowercase x) (to_ascii_lowercase z) in_x in_z)
