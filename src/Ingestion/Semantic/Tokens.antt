-- ===== src/Ingestion/Semantic/Tokens.antt =====
-- `normalized_tokens`, `extract_keywords` and `is_stopword` of src/ingestion/semantic_views.rs.
pub mod Keywords
use eal_sync.Prelude.{
  ℕ, Bool, not, ◌||◌, ◌&&◌, List, [], ◌∷◌, ◌++◌, ◌==◌, ltb, length, all, if◌then◌else◌,
}
use eal_sync.Prelude.Text.{Text, codes, is_empty}
use eal_sync.Prelude.Search.{text_in, cons_word, split_whitespace}
use eal_sync.Ingestion.Semantic.Chars.{CharTable}
use eal_sync.Ingestion.Semantic.Ranking.{add_count, take_ranked}

abbrev stopwords : Text
stopwords =
    codes
      "a about after again all also am an and any are as at be because been before being between "
    ++ codes
        "both but by can could did do does doing down during each few for from further had has have "
    ++ codes
        "having he her here hers herself him himself his how i if in into is it its itself just me "
    ++ codes
        "more most my myself no nor not now of off on once only or other our ours ourselves out over "
    ++ codes
        "own same she should so some such than that the their theirs them themselves then there these "
    ++ codes
        "they this those through to too under until up very was we were what when where which while who "
    ++ codes "whom why will with would you your yours yourself yourselves"

-- the words are separated by single spaces
unfoldable pub is_stopword : Text → Bool
is_stopword token = text_in token (split_whitespace stopwords)

module _ (table : CharTable) where
  -- the loop of `normalized_tokens`, with the current token
  unfoldable pub tokens_from : Text → Text → List Text
  tokens_from current [] = cons_word current []
  tokens_from current (c ∷ s) =
      let grown = tokens_from (current ++ table.to_lowercase c) s in
      let ended = tokens_from [] s in
      if table.is_alphanumeric c || (c == 0x27 && not (is_empty current))
      then grown
      else cons_word current ended

  unfoldable pub normalized_tokens : Text → List Text
  normalized_tokens text = tokens_from [] text

  -- the tokens that are not passed over
  unfoldable pub is_candidate : Text → Bool
  is_candidate token = not (ltb (length token) 3 || is_stopword token || all table.is_numeric token)

  unfoldable pub count_tokens : List (Text × ℕ) → List Text → List (Text × ℕ)
  count_tokens counts [] = counts
  count_tokens counts (token ∷ tokens) =
      let passed = count_tokens counts tokens in
      let counted = count_tokens (add_count token counts) tokens in
      if is_candidate token then counted else passed

  unfoldable pub extract_keywords : Text → ℕ → List Text
  extract_keywords text limit = take_ranked (count_tokens [] (normalized_tokens text)) limit
