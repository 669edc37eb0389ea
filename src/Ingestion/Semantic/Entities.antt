-- ===== src/Ingestion/Semantic/Entities.antt =====
-- `extract_entities` of src/ingestion/semantic_views.rs, and the tests on its tokens.
pub mod Laws
use eal_sync.Prelude.{
  ℕ, Bool, true, false, not, ◌||◌, ◌&&◌, List, [], ◌∷◌, ◌++◌, ◌==◌, ltb, leb, length, all, keep,
  if◌then◌else◌,
}
use eal_sync.Prelude.Text.{Text, codes, drop_while, drop_end_while}
use eal_sync.Prelude.Search.{text_in, join_texts, split_whitespace}
use eal_sync.Ingestion.Semantic.Chars.{CharTable}
use eal_sync.Ingestion.Semantic.Ranking.{add_count, take_ranked}

abbrev common_sentence_leads : List Text
common_sentence_leads =
    codes "A"
    ∷ codes "An"
    ∷ codes "And"
    ∷ codes "But"
    ∷ codes "For"
    ∷ codes "How"
    ∷ codes "In"
    ∷ codes "It"
    ∷ codes "On"
    ∷ codes "Or"
    ∷ codes "The"
    ∷ codes "This"
    ∷ codes "To"
    ∷ codes "We"
    ∷ codes "What"
    ∷ codes "When"
    ∷ codes "Where"
    ∷ codes "Why"
    ∷ codes "You"
    ∷ []

unfoldable pub is_common_sentence_lead : Text → Bool
is_common_sentence_lead candidate = text_in candidate common_sentence_leads

-- the phrase is empty after it
unfoldable pub flush_entity : List Text → List (Text × ℕ) → List (Text × ℕ)
flush_entity [] counts = counts
flush_entity (token ∷ phrase) counts =
    let candidate = join_texts (codes " ") (token ∷ phrase) in
    if leb 3 (length candidate) && not (is_common_sentence_lead candidate)
    then add_count candidate counts
    else counts

module _ (table : CharTable) where
  abbrev starts_uppercase : Text → Bool
  starts_uppercase [] = false
  starts_uppercase (c ∷ token) = table.is_uppercase c

  unfoldable pub is_entity_token : Text → Bool
  is_entity_token token =
      let letters = keep table.is_alphabetic token in
      let uppercase = length (keep table.is_uppercase letters) in
      if ltb (length token) 2 || all table.is_numeric token
      then false
      else if not (starts_uppercase token)
      then false
      else uppercase == 1 || (uppercase == length letters && leb (length letters) 8)

  -- the characters that `trim_matches` takes off
  abbrev is_margin : ℕ → Bool
  is_margin c = not (table.is_alphanumeric c) && not (c == b'-') && not (c == 0x27)

  abbrev trim_token : Text → Text
  trim_token raw = drop_end_while is_margin (drop_while is_margin raw)

  -- the loop, with the phrase and the counts so far, and the flush after it
  unfoldable pub count_entities : List Text → List (Text × ℕ) → List Text → List (Text × ℕ)
  count_entities phrase counts [] = flush_entity phrase counts
  count_entities phrase counts (raw ∷ words) =
      let token = trim_token raw in
      let grown = phrase ++ token ∷ [] in
      let after_full = count_entities [] (flush_entity grown counts) words in
      let after_grown = count_entities grown counts words in
      let after_other = count_entities [] (flush_entity phrase counts) words in
      if is_entity_token token
      then (if length grown == 5 then after_full else after_grown)
      else after_other

  unfoldable pub extract_entities : Text → ℕ → List Text
  extract_entities text limit = take_ranked (count_entities [] [] (split_whitespace text)) limit
