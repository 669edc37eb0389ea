-- ===== src/Ingestion/Semantic/Ranking/Laws.antt =====
-- The ranking of the counts of a map.
use eal_sync.Prelude.{
  ℕ, zero, suc, ◌≤◌, ◌≡◌, refl, ap, true, false, List, [], ◌∷◌, map, length, length-map,
  length-take-le, All-take, take, All, arith, Bool-cases, inl, inr, ◌⊎◌,
}
use eal_sync.Prelude.Text.{Text}
use eal_sync.Prelude.Member.{Member, All-elim, All-intro}
use eal_sync.Ingestion.Semantic.Ranking.{precedes, insert_ranked, sort_ranked, take_ranked}
use eal_sync.Ingestion.Semantic.Ranking.Counts.{IsMap, total, Member-total, total-Member}

pub length-take_ranked :
    (counts : List (Text × ℕ)) (limit : ℕ) → length (take_ranked counts limit) ≤ limit
unfolding take_ranked
length-take_ranked counts limit = omega (
  arith,
  length-map (take limit (sort_ranked counts)) (λ (entry : Text × ℕ). entry.0),
  length-take-le limit (sort_ranked counts),
)

insert_ranked-All :
    (P : Text × ℕ → Type 0) (entry : Text × ℕ) (ranked : List (Text × ℕ))
    → P entry
    → All P ranked
    → All P (insert_ranked entry ranked)
unfolding insert_ranked
insert_ranked-All P entry [] p h = (p, tt)
insert_ranked-All P entry (other ∷ ranked) p (h, hs) = elim (Bool-cases (precedes other entry)) [
  | inl after ↦ rw after (h, insert_ranked-All P entry ranked p hs)
  | inr before ↦ rw before (p, (h, hs))
]

Member-insert_ranked :
    (x entry : Text × ℕ) (ranked : List (Text × ℕ))
    → Member x (entry ∷ ranked)
    → Member x (insert_ranked entry ranked)
unfolding insert_ranked
Member-insert_ranked x entry [] m = m
Member-insert_ranked x entry (other ∷ ranked) m = elim (Bool-cases (precedes other entry)) [
  | inl after ↦ rw after (move (Member-insert_ranked x entry ranked) m)
  | inr before ↦ rw before m
]
  where
    move :
        (Member x (entry ∷ ranked) → Member x (insert_ranked entry ranked))
        → Member x (entry ∷ other ∷ ranked)
        → Member x (other ∷ insert_ranked entry ranked)
    move rest (inl e) = inr (rest (inl e))
    move rest (inr (inl e)) = inl e
    move rest (inr (inr n)) = inr (rest (inr n))

Member-sort_ranked :
    (x : Text × ℕ) (counts : List (Text × ℕ)) → Member x counts → Member x (sort_ranked counts)
unfolding sort_ranked
Member-sort_ranked x [] m = m
Member-sort_ranked x (entry ∷ counts) (inl e) =
    Member-insert_ranked x entry (sort_ranked counts) (inl e)
Member-sort_ranked x (entry ∷ counts) (inr m) =
    Member-insert_ranked x entry (sort_ranked counts) (inr (Member-sort_ranked x counts m))

sort_ranked-All :
    (P : Text × ℕ → Type 0) (counts : List (Text × ℕ)) → All P counts → All P (sort_ranked counts)
unfolding sort_ranked
sort_ranked-All P [] h = tt
sort_ranked-All P (entry ∷ counts) (h, hs) =
    insert_ranked-All P entry (sort_ranked counts) h (sort_ranked-All P counts hs)

-- No count is larger than one before it.
abbrev IsRanked : List (Text × ℕ) → Type 0
IsRanked [] = Unit
IsRanked (entry ∷ ranked) = All (λ (other : Text × ℕ). other.1 ≤ entry.1) ranked × IsRanked ranked

precedes-le : (a b : Text × ℕ) → precedes a b ≡ true → b.1 ≤ a.1
unfolding precedes
precedes-le (s, n) (t, m) h = ground (arith, h)

precedes_not-le : (a b : Text × ℕ) → precedes a b ≡ false → a.1 ≤ b.1
unfolding precedes
precedes_not-le (s, n) (t, m) h = ground (arith, h)

All-le :
    (n m : ℕ) (ranked : List (Text × ℕ))
    → n ≤ m
    → All (λ (other : Text × ℕ). other.1 ≤ n) ranked
    → All (λ (other : Text × ℕ). other.1 ≤ m) ranked
All-le n m [] le h = tt
All-le n m (other ∷ ranked) le (h, hs) = (omega (arith, le, h), All-le n m ranked le hs)

insert_ranked-IsRanked :
    (entry : Text × ℕ) (ranked : List (Text × ℕ))
    → IsRanked ranked
    → IsRanked (insert_ranked entry ranked)
unfolding insert_ranked
insert_ranked-IsRanked entry [] h = (tt, tt)
insert_ranked-IsRanked entry (other ∷ ranked) (below, h) =
    elim (Bool-cases (precedes other entry)) [
      | inl after ↦ rw after (
        insert_ranked-All (λ (x : Text × ℕ). x.1 ≤ other.1) entry ranked
            (precedes-le other entry after) below,
        insert_ranked-IsRanked entry ranked h,
      )
      | inr before ↦
          let le = precedes_not-le other entry before in
          rw before ((le, All-le other.1 entry.1 ranked le below), (below, h))
    ]

sort_ranked-IsRanked : (counts : List (Text × ℕ)) → IsRanked (sort_ranked counts)
unfolding sort_ranked
sort_ranked-IsRanked [] = tt
sort_ranked-IsRanked (entry ∷ counts) =
    insert_ranked-IsRanked entry (sort_ranked counts) (sort_ranked-IsRanked counts)

-- A member of a ranking is taken, or counts no more than each that is.
taken_or_less :
    (entry : Text × ℕ) (n : ℕ) (ranked : List (Text × ℕ))
    → IsRanked ranked
    → Member entry ranked
    → Member entry (take n ranked) ⊎ All (λ (x : Text × ℕ). entry.1 ≤ x.1) (take n ranked)
taken_or_less entry zero ranked h m = inr tt
taken_or_less entry (suc n) [] h m = absurd m
taken_or_less entry (suc n) (x ∷ ranked) (below, h) (inl e) = inl (inl e)
taken_or_less entry (suc n) (x ∷ ranked) (below, h) (inr m) =
    elim (taken_or_less entry n ranked h m) [
      | inl taken ↦ inl (inr taken)
      | inr less ↦ inr (All-elim (λ (other : Text × ℕ). other.1 ≤ x.1) ranked below m, less)
    ]

Member-map_name :
    (text : Text) (n : ℕ) (entries : List (Text × ℕ))
    → Member (text, n) entries
    → Member text (map (λ (entry : Text × ℕ). entry.0) entries)
Member-map_name text n [] m = absurd m
Member-map_name text n (entry ∷ entries) (inl e) = inl (ap (λ (x : Text × ℕ). x.0) e)
Member-map_name text n (entry ∷ entries) (inr m) = inr (Member-map_name text n entries m)

All-map_name :
    (P : Text → Type 0) (entries : List (Text × ℕ))
    → All (λ (entry : Text × ℕ). P entry.0) entries
    → All P (map (λ (entry : Text × ℕ). entry.0) entries)
All-map_name P [] h = tt
All-map_name P (entry ∷ entries) (h, hs) = (h, All-map_name P entries hs)

pub take_ranked-All :
    (P : Text → Type 0) (counts : List (Text × ℕ)) (limit : ℕ)
    → All (λ (entry : Text × ℕ). P entry.0) counts
    → All P (take_ranked counts limit)
unfolding take_ranked
take_ranked-All P counts limit h = All-map_name P (take limit (sort_ranked counts)) (
    All-take _ limit (sort_ranked counts)
      (sort_ranked-All (λ (entry : Text × ℕ). P entry.0) counts h))

-- A counted text is taken, or each text that is taken counts as often or more often.
pub take_ranked_top :
    (counts : List (Text × ℕ)) (limit : ℕ) (text : Text)
    → IsMap counts
    → 1 ≤ total text counts
    → Member text (take_ranked counts limit)
      ⊎ All (λ kept. total text counts ≤ total kept counts) (take_ranked counts limit)
unfolding take_ranked
take_ranked_top counts limit text h some_ =
    let entry = total-Member text counts (total text counts) h refl some_ in
    let sorted = Member-sort_ranked (text, total text counts) counts entry in
    let kept = take limit (sort_ranked counts) in
    elim (taken_or_less (text, total text counts) limit (sort_ranked counts)
      (sort_ranked-IsRanked counts) sorted) [
        | inl taken ↦ inl (Member-map_name text (total text counts) kept taken)
        | inr less ↦ inr (
            All-map_name (λ t. total text counts ≤ total t counts) kept
              (bounded kept less (
                All-take _ limit (sort_ranked counts) (
                  sort_ranked-All (λ (x : Text × ℕ). total x.0 counts ≡ x.1) counts
                    (All-intro _ counts (λ x m. Member-total x.0 x.1 counts h m))))))
      ]
  where
    bounded :
        (entries : List (Text × ℕ))
        → All (λ (x : Text × ℕ). total text counts ≤ x.1) entries
        → All (λ (x : Text × ℕ). total x.0 counts ≡ x.1) entries
        → All (λ (x : Text × ℕ). total text counts ≤ total x.0 counts) entries
    bounded [] less exact = tt
    bounded (x ∷ entries) (l, ls) (e, es) = (omega (arith, l, e), bounded entries ls es)
