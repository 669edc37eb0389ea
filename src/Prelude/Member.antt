-- ===== src/Prelude/Member.antt =====
-- Membership with a witness, tests over lists, distinct keys, and updates of the rows that pass a test.
use Prim.Native.Nat.{ℕ}
use mathlib.Core.Path.{◌≡◌, refl, ap, subst, sym, ◌∙◌}
use mathlib.Core.Logic.{◌≢◌, ◌⊎◌, inl, inr}
use mathlib.Core.Bool.{Bool, true, false, ◌||◌}
use mathlib.Core.List.{List, [], ◌∷◌, ◌++◌, map}
use mathlib.Core.Option.{some}
use mathlib.Core.Option.{some}
use native.Mathlib.Omega.{arith}
use eal_sync.Prelude.Booleans.{Bool-cases, if◌then◌else◌, ◌==◌}
use eal_sync.Prelude.Lists.{All, any, keep, find, count}

-- `UPDATE … SET … WHERE …`; `count` is its number of rows
abbrev pub update {ℓ} : {A : Type ℓ} → (A → Bool) → (A → A) → List A → List A
update test set rows = map (λ r. if test r then set r else r) rows

module _ {A : Type 0} where
  abbrev pub Member : A → List A → Type 0
  Member x [] = ⊥
  Member x (y ∷ ys) = (x ≡ y) ⊎ Member x ys

  pub All-elim {κ} : (P : A → Type κ) {x : A} (xs : List A) → All P xs → Member x xs → P x
  All-elim P [] h m = absurd m
  All-elim P (y ∷ ys) (h, hs) (inl e) = subst P (sym e) h
  All-elim P (y ∷ ys) (h, hs) (inr m) = All-elim P ys hs m

  pub All-intro {κ} : (P : A → Type κ) (xs : List A) → ((x : A) → Member x xs → P x) → All P xs
  All-intro P [] h = tt
  All-intro P (x ∷ xs) h = (h x (inl refl), All-intro P xs (λ y m. h y (inr m)))

  pub any-Member :
      (p : A → Bool) (xs : List A) → any p xs ≡ true → (x : A) × Member x xs × (p x ≡ true)
  any-Member p [] h = cc
  any-Member p (x ∷ xs) h = elim (Bool-cases (p x)) [
    | inl hit ↦ (x, inl refl, hit)
    | inr miss ↦ let (y, m, e) = any-Member p xs (rw miss at h) in (y, inr m, e)
  ]

  pub Member-any : (p : A → Bool) {x : A} (xs : List A) → Member x xs → p x ≡ true → any p xs ≡ true
  Member-any p [] m h = absurd m
  Member-any p (y ∷ ys) (inl e) h = let hit : p y ≡ true = subst (λ z. p z ≡ true) e h in rw hit
  Member-any p (y ∷ ys) (inr m) h = ground (arith, Member-any p ys m h)

  pub Member-keep :
      (p : A → Bool) {x : A} (xs : List A) → Member x xs → p x ≡ true → Member x (keep p xs)
  Member-keep p [] m h = absurd m
  Member-keep p (y ∷ ys) (inl e) h =
      let hit : p y ≡ true = subst (λ z. p z ≡ true) e h in rw hit (inl e)
  Member-keep p (y ∷ ys) (inr m) h = elim (Bool-cases (p y)) [
    | inl hit ↦ rw hit (inr (Member-keep p ys m h))
    | inr miss ↦ rw miss (Member-keep p ys m h)
  ]

  pub keep-Member :
      (p : A → Bool) {x : A} (xs : List A) → Member x (keep p xs) → Member x xs × (p x ≡ true)
  keep-Member p [] m = absurd m
  keep-Member p {x} (y ∷ ys) m = elim (Bool-cases (p y)) [
    | inl hit ↦ kept_head hit (keep-Member p {x = x} ys) (rw hit at m)
    | inr miss ↦ let (n, e) = keep-Member p {x = x} ys (rw miss at m) in (inr n, e)
  ]
    where
      kept_head :
          p y ≡ true
          → (Member x (keep p ys) → Member x ys × (p x ≡ true))
          → Member x (y ∷ keep p ys)
          → Member x (y ∷ ys) × (p x ≡ true)
      kept_head hit rest (inl e) = (inl e, subst (λ z. p z ≡ true) (sym e) hit)
      kept_head hit rest (inr n) = (inr (rest n).0, (rest n).1)

  pub find-Member :
      (p : A → Bool) {x : A} (xs : List A) → find p xs ≡ some x → Member x xs × (p x ≡ true)
  find-Member p [] h = cc
  find-Member p {x} (y ∷ ys) h = elim (Bool-cases (p y)) [
    | inl hit ↦ let e : y ≡ x = ground arith in (inl (sym e), subst (λ z. p z ≡ true) e hit)
    | inr miss ↦ let (m, e) = find-Member p {x = x} ys (rw miss at h) in (inr m, e)
  ]

  pub any-append : (p : A → Bool) (xs ys : List A) → any p (xs ++ ys) ≡ (any p xs || any p ys)
  any-append p [] ys = refl
  any-append p (x ∷ xs) ys = ground (arith, any-append p xs ys)

  pub any-false_mono :
      (p q : A → Bool) (xs : List A)
      → ((x : A) → p x ≡ true → q x ≡ true)
      → any q xs ≡ false
      → any p xs ≡ false
  any-false_mono p q [] h e = refl
  any-false_mono p q (x ∷ xs) h e = ground (arith, h x, any-false_mono p q xs h)

  pub Member-update :
      (test : A → Bool) (set : A → A) {x : A} (xs : List A)
      → Member x xs
      → test x ≡ true
      → Member (set x) (update test set xs)
  Member-update test set [] m h = absurd m
  Member-update test set (y ∷ ys) (inl e) h =
      let hit : test y ≡ true = subst (λ z. test z ≡ true) e h in rw hit (inl (ap set e))
  Member-update test set (y ∷ ys) (inr m) h = inr (Member-update test set ys m h)

  -- Two tests that agree on the members of a list update the same rows.
  pub update-agree :
      (p q : A → Bool) (set : A → A) (xs : List A)
      → All (λ x. p x ≡ q x) xs
      → update p set xs ≡ update q set xs
  update-agree p q set [] h = refl
  update-agree p q set (x ∷ xs) (h, hs) = rw (h, update-agree p q set xs hs)

  pub count-agree :
      (p q : A → Bool) (xs : List A) → All (λ x. p x ≡ q x) xs → count p xs ≡ count q xs
  count-agree p q [] h = refl
  count-agree p q (x ∷ xs) (h, hs) = rw (h, count-agree p q xs hs)

module _ {κ} {A : Type 0} (P : A → Type κ) (test : A → Bool) (set : A → A) where
  pub All-update :
      (xs : List A)
      → ((x : A) → Member x xs → P x → test x ≡ true → P (set x))
      → All P xs
      → All P (update test set xs)
  All-update [] keeps h = tt
  All-update (x ∷ xs) keeps (p, h) = elim (Bool-cases (test x)) [
    | inl hit ↦ rw hit (keeps x (inl refl) p hit, All-update xs (λ y m. keeps y (inr m)) h)
    | inr miss ↦ rw miss (p, All-update xs (λ y m. keeps y (inr m)) h)
  ]

  -- Where each row that is updated gets the property, and each other row had it.
  pub All-update-All :
      (xs : List A)
      → ((x : A) → Member x xs → test x ≡ true → P (set x))
      → ((x : A) → Member x xs → test x ≡ false → P x)
      → All P (update test set xs)
  All-update-All [] hits misses = tt
  All-update-All (x ∷ xs) hits misses = elim (Bool-cases (test x)) [
    | inl hit ↦
        rw hit (
          hits x (inl refl) hit,
          All-update-All xs (λ y m. hits y (inr m)) (λ y m. misses y (inr m)),
        )
    | inr miss ↦ rw miss (
      misses x (inl refl) miss,
      All-update-All xs (λ y m. hits y (inr m)) (λ y m. misses y (inr m)),
    )
  ]

-- A row that passes a test still does when each update of such a row keeps the test.
pub any-update :
    {A : Type 0} (p test : A → Bool) (set : A → A) (xs : List A)
    → ((x : A) → Member x xs → p x ≡ true → test x ≡ true → p (set x) ≡ true)
    → any p xs ≡ true
    → any p (update test set xs) ≡ true
any-update p test set [] keeps h = h
any-update p test set (x ∷ xs) keeps h =
    ground (arith, keeps x (inl refl), any-update p test set xs (λ y m. keeps y (inr m)))

-- Keys: no two rows of a table have the same.
abbrev pub Distinct : List ℕ → Type 0
Distinct [] = Unit
Distinct (k ∷ ks) = All (λ j. j ≢ k) ks × Distinct ks

module _ {A : Type 0} (key : A → ℕ) where
  pub map-update :
      (test : A → Bool) (set : A → A) (xs : List A)
      → ((x : A) → key (set x) ≡ key x)
      → map key (update test set xs) ≡ map key xs
  map-update test set [] same = refl
  map-update test set (x ∷ xs) same = ground (arith, same x, map-update test set xs same)

  All-keys-elim :
      {k : ℕ} {x : A} (xs : List A) → All (λ j. j ≢ k) (map key xs) → Member x xs → key x ≢ k
  All-keys-elim [] h m = absurd m
  All-keys-elim {k} (y ∷ ys) (h, hs) (inl e) = subst (λ z. key z ≢ k) (sym e) h
  All-keys-elim (y ∷ ys) (h, hs) (inr m) = All-keys-elim ys hs m

  -- Two members with one key are one row.
  pub Distinct-Member :
      {x y : A} (xs : List A)
      → Distinct (map key xs)
      → Member x xs
      → Member y xs
      → key x ≡ key y
      → x ≡ y
  Distinct-Member [] d m n e = absurd m
  Distinct-Member (z ∷ zs) (d, ds) (inl a) (inl b) e = a ∙ sym b
  Distinct-Member (z ∷ zs) (d, ds) (inl a) (inr n) e =
      absurd (All-keys-elim zs d n (sym e ∙ ap key a))
  Distinct-Member (z ∷ zs) (d, ds) (inr m) (inl b) e = absurd (All-keys-elim zs d m (e ∙ ap key b))
  Distinct-Member (z ∷ zs) (d, ds) (inr m) (inr n) e = Distinct-Member zs ds m n e

  All-keys-append :
      (k : ℕ) (xs : List A) (x : A)
      → All (λ j. j ≢ k) (map key xs)
      → key x ≢ k
      → All (λ j. j ≢ k) (map key (xs ++ x ∷ []))
  All-keys-append k [] x h e = (e, tt)
  All-keys-append k (y ∷ ys) x (h, hs) e = (h, All-keys-append k ys x hs e)

  -- A row with a new key can be added.
  pub Distinct-append :
      (xs : List A) (x : A)
      → Distinct (map key xs)
      → any (λ y. key y == key x) xs ≡ false
      → Distinct (map key (xs ++ x ∷ []))
  Distinct-append [] x d h = (tt, tt)
  Distinct-append (y ∷ ys) x (d, ds) h =
      (All-keys-append (key y) ys x d (ground arith), Distinct-append ys x ds (ground arith))
