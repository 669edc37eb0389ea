-- ===== src/Prelude/Keys.antt =====
-- Unique keys of several columns: no two rows of a table pass the test for the same key.
use mathlib.Core.Path.{◌≡◌}
use mathlib.Core.Bool.{Bool, false}
use mathlib.Core.List.{List, [], ◌∷◌, ◌++◌}
use native.Mathlib.Omega.{arith}
use eal_sync.Prelude.Booleans.{Bool-cases}
use eal_sync.Prelude.Lists.{All, All-append, any}
use eal_sync.Prelude.Member.{update}
use mathlib.Core.Logic.{inl, inr}

module _ {A : Type 0} (same : A → A → Bool) where
  -- No row has the key of an earlier one.
  abbrev pub IsUnique : List A → Type 0
  IsUnique [] = Unit
  IsUnique (x ∷ xs) = All (λ y. same y x ≡ false) xs × IsUnique xs

  -- An update that leaves the keys of the rows alone.
  module _ (test : A → Bool) (set : A → A) (before : (x y : A) → same (set x) y ≡ same x y)
      (after : (x y : A) → same x (set y) ≡ same x y) where
    update-others :
        (x : A) (xs : List A)
        → All (λ y. same y x ≡ false) xs
        → All (λ y. same y x ≡ false) (update test set xs)
    update-others x [] h = tt
    update-others x (y ∷ ys) (h, hs) = elim (Bool-cases (test y)) [
      | inl hit ↦ rw hit (rw (before y x) h, update-others x ys hs)
      | inr miss ↦ rw miss (h, update-others x ys hs)
    ]

    same-set :
        (x : A) (xs : List A)
        → All (λ y. same y x ≡ false) xs
        → All (λ y. same y (set x) ≡ false) xs
    same-set x [] h = tt
    same-set x (y ∷ ys) (h, hs) = (rw (after y x) h, same-set x ys hs)

    pub update-IsUnique : (xs : List A) → IsUnique xs → IsUnique (update test set xs)
    update-IsUnique [] u = tt
    update-IsUnique (x ∷ xs) (h, u) = elim (Bool-cases (test x)) [
      | inl hit ↦ rw hit (same-set x _ (update-others x xs h), update-IsUnique xs u)
      | inr miss ↦ rw miss (update-others x xs h, update-IsUnique xs u)
    ]

  -- A row whose key none of the others has.
  pub append-IsUnique :
      (symmetric : (x y : A) → same x y ≡ same y x) (xs : List A) (x : A)
      → IsUnique xs
      → any (λ y. same y x) xs ≡ false
      → IsUnique (xs ++ x ∷ [])
  append-IsUnique symmetric [] x u fresh = (tt, tt)
  append-IsUnique symmetric (y ∷ ys) x (h, u) fresh = (
    All-append (λ z. same z y ≡ false) ys (x ∷ []) h
        (rw (symmetric x y) (ground (arith, fresh)), tt),
    append-IsUnique symmetric ys x u (ground (arith, fresh)),
  )
