-- ===== src/Ingestion/Semantic/Ranking/Counts.antt =====
-- The counts of texts that a map holds.
use eal_sync.Prelude.{
  ℕ, suc, ◌+◌, ◌≤◌, ◌≡◌, refl, sym, ap, subst, ◌∙◌, true, List, [], ◌∷◌, if◌then◌else◌, All, arith,
  Bool-cases, true_is_not_false, inl, inr,
}
use eal_sync.Prelude.Text.{Text, text_eq, text_eq→eq, text_eq_refl}
use eal_sync.Prelude.Search.{text_ltb}
use eal_sync.Prelude.Search.Order.{text_ltb_irrefl, text_ltb_trans, text_ltb_total}
use eal_sync.Prelude.Member.{Member, All-elim}
use eal_sync.Ingestion.Semantic.Ranking.{add_count}

-- A map: each text is less than all that follow it.
abbrev pub IsMap : List (Text × ℕ) → Type 0
IsMap [] = Unit
IsMap (entry ∷ counts) =
    All (λ (other : Text × ℕ). text_ltb entry.0 other.0 ≡ true) counts × IsMap counts

-- how often a map counts a text, over all its entries
abbrev pub total : Text → List (Text × ℕ) → ℕ
total text [] = 0
total text ((other, n) ∷ counts) =
    let rest = total text counts in if text_eq text other then n + rest else rest

pub add_count-All :
    (P : Text → Type 0) (text : Text) (counts : List (Text × ℕ))
    → P text
    → All (λ (entry : Text × ℕ). P entry.0) counts
    → All (λ (entry : Text × ℕ). P entry.0) (add_count text counts)
unfolding add_count
add_count-All P text [] p h = (p, tt)
add_count-All P text ((other, n) ∷ counts) p (h, hs) = elim (Bool-cases (text_ltb text other)) [
  | inl less ↦ rw less (p, (h, hs))
  | inr more ↦ elim (Bool-cases (text_eq text other)) [
    | inl same ↦ rw (more, same) (h, hs)
    | inr differ ↦ rw (more, differ) (h, add_count-All P text counts p hs)
  ]
]

pub add_count-total :
    (text other : Text) (counts : List (Text × ℕ))
    → total other (add_count text counts)
      ≡ (if text_eq other text then suc (total other counts) else total other counts)
unfolding add_count
add_count-total text other [] = refl
add_count-total text other ((third, n) ∷ counts) = elim (Bool-cases (text_ltb text third)) [
  | inl less ↦ rw less (ground arith)
  | inr more ↦ elim (Bool-cases (text_eq text third)) [
    | inl same ↦ let e = text_eq→eq text third same in rw (more, same) (rw e (ground arith))
    | inr differ ↦ rw (more, differ) (ground (arith, add_count-total text other counts))
  ]
]

All-above :
    (text other : Text) (counts : List (Text × ℕ))
    → text_ltb text other ≡ true
    → All (λ (entry : Text × ℕ). text_ltb other entry.0 ≡ true) counts
    → All (λ (entry : Text × ℕ). text_ltb text entry.0 ≡ true) counts
All-above text other [] less h = tt
All-above text other (entry ∷ counts) less (h, hs) =
    (text_ltb_trans text other entry.0 less h, All-above text other counts less hs)

pub add_count-IsMap :
    (text : Text) (counts : List (Text × ℕ)) → IsMap counts → IsMap (add_count text counts)
unfolding add_count
add_count-IsMap text [] h = (tt, tt)
add_count-IsMap text ((other, n) ∷ counts) (above, h) = elim (Bool-cases (text_ltb text other)) [
  | inl less ↦ rw less ((less, All-above text other counts less above), (above, h))
  | inr more ↦ elim (Bool-cases (text_eq text other)) [
    | inl same ↦ rw (more, same) (above, h)
    | inr differ ↦
        rw (more, differ)
          (
            add_count-All (λ t. text_ltb other t ≡ true) text counts
                (text_ltb_total text other more differ) above,
            add_count-IsMap text counts h,
          )
  ]
]

-- A text that is less than all of a map is not counted by it.
above-total :
    (text : Text) (counts : List (Text × ℕ))
    → All (λ (entry : Text × ℕ). text_ltb text entry.0 ≡ true) counts
    → total text counts ≡ 0
above-total text [] h = refl
above-total text ((other, n) ∷ counts) (h, hs) = elim (Bool-cases (text_eq text other)) [
  | inl same ↦
      let e = text_eq→eq text other same in
      absurd (true_is_not_false (sym h ∙ ap (text_ltb text) (sym e) ∙ text_ltb_irrefl text))
  | inr differ ↦ rw differ (above-total text counts hs)
]

-- An entry of a map counts its text.
pub Member-total :
    (text : Text) (n : ℕ) (counts : List (Text × ℕ))
    → IsMap counts
    → Member (text, n) counts
    → total text counts ≡ n
Member-total text n [] h m = absurd m
Member-total text n ((other, k) ∷ counts) (above, h) (inl e) =
    let name : text ≡ other = ap (λ (entry : Text × ℕ). entry.0) e in
    let number : n ≡ k = ap (λ (entry : Text × ℕ). entry.1) e in
    let none_after : total text counts ≡ 0 = above-total text counts (
      subst (λ t. All (λ (entry : Text × ℕ). text_ltb t entry.0 ≡ true) counts) (sym name) above) in
    let hit : text_eq text other ≡ true =
      subst (λ t. text_eq text t ≡ true) name (text_eq_refl text) in
    rw hit (omega (arith, none_after, number))
Member-total text n ((other, k) ∷ counts) (above, h) (inr m) =
    elim (Bool-cases (text_eq text other)) [
      | inl same ↦
          let e = text_eq→eq text other same in
          let less =
            All-elim (λ (entry : Text × ℕ). text_ltb other entry.0 ≡ true) counts above m in
          absurd (true_is_not_false (sym less ∙ ap (text_ltb other) e ∙ text_ltb_irrefl other))
      | inr differ ↦ rw differ (Member-total text n counts h m)
    ]

-- What a map counts has an entry.
pub total-Member :
    (text : Text) (counts : List (Text × ℕ)) (n : ℕ)
    → IsMap counts
    → total text counts ≡ n
    → 1 ≤ n
    → Member (text, n) counts
total-Member text [] n h e some_ = absurd (omega (arith, e, some_))
total-Member text ((other, k) ∷ counts) n (above, h) e some_ =
    elim (Bool-cases (text_eq text other)) [
      | inl same ↦
          let name = text_eq→eq text other same in
          let none_after : total text counts ≡ 0 = above-total text counts (
            subst (λ t. All (λ (entry : Text × ℕ). text_ltb t entry.0 ≡ true) counts) (sym name)
              above) in
          let number : n ≡ k = ground (arith, e, same, none_after) in inl (λ i. (name i, number i))
      | inr differ ↦ inr (total-Member text counts n h (rw differ at e) some_)
    ]
