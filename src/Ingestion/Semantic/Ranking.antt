-- ===== src/Ingestion/Semantic/Ranking.antt =====
-- The counts of texts that `extract_keywords` and `extract_entities` of
-- src/ingestion/semantic_views.rs keep in a map, and the order that they sort them in.
pub mod Counts
pub mod Laws
use eal_sync.Prelude.{
  ℕ, suc, ◌+◌, Bool, ◌||◌, ◌&&◌, List, [], ◌∷◌, ◌==◌, ltb, take, map, if◌then◌else◌,
}
use eal_sync.Prelude.Text.{Text, text_eq}
use eal_sync.Prelude.Search.{text_ltb}

-- `*counts.entry(text).or_default() += 1` on a map in the order of its keys
unfoldable pub add_count : Text → List (Text × ℕ) → List (Text × ℕ)
add_count text [] = (text, 1) ∷ []
add_count text ((other, n) ∷ counts) =
    let rest = add_count text counts in
    if text_ltb text other
    then (text, 1) ∷ (other, n) ∷ counts
    else if text_eq text other
    then (other, suc n) ∷ counts
    else (other, n) ∷ rest

-- the comparison of the sort: the larger count first, then the smaller text
unfoldable pub precedes : Text × ℕ → Text × ℕ → Bool
precedes (left, left_count) (right, right_count) =
    ltb right_count left_count || (left_count == right_count && text_ltb left right)

-- the texts of a map differ, so that all sorts by the comparison give one list
unfoldable pub insert_ranked : Text × ℕ → List (Text × ℕ) → List (Text × ℕ)
insert_ranked entry [] = entry ∷ []
insert_ranked entry (other ∷ ranked) =
    let rest = insert_ranked entry ranked in
    if precedes other entry then other ∷ rest else entry ∷ other ∷ ranked

unfoldable pub sort_ranked : List (Text × ℕ) → List (Text × ℕ)
sort_ranked [] = []
sort_ranked (entry ∷ counts) = insert_ranked entry (sort_ranked counts)

-- the first texts of the ranking
unfoldable pub take_ranked : List (Text × ℕ) → ℕ → List Text
take_ranked counts limit = map (λ (entry : Text × ℕ). entry.0) (take limit (sort_ranked counts))
