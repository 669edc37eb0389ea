-- ===== src/Ingestion/Semantic/Signal.antt =====
-- `url_signal` of src/ingestion/semantic_views.rs.
use eal_sync.Prelude.{
  Bool, not, ◌||◌, ◌&&◌, List, [], ◌∷◌, ◌++◌, Option, none, some, keep, ltb, ◌==◌, if◌then◌else◌,
}
use eal_sync.Prelude.Text.{Text, codes, text_eq, byte_len, split, cons_head}
use eal_sync.Prelude.Search.{text_ltb, join_texts}
use eal_sync.Net.Url.{UrlCrate}

-- a `BTreeSet`, in its order
unfoldable pub insert_term : Text → List Text → List Text
insert_term term [] = term ∷ []
insert_term term (other ∷ terms) =
    let rest = insert_term term terms in
    if text_ltb term other
    then term ∷ other ∷ terms
    else if text_eq term other
    then other ∷ terms
    else other ∷ rest

unfoldable pub sort_terms : List Text → List Text
sort_terms [] = []
sort_terms (term ∷ terms) = insert_term term (sort_terms terms)

-- `segment.split(['-', '_'])`
unfoldable pub split_words : Text → List Text
split_words [] = [] ∷ []
split_words (c ∷ s) =
    let rest = split_words s in if c == b'-' || c == b'_' then [] ∷ rest else cons_head c rest

abbrev is_long : Text → Bool
is_long part = ltb 2 (byte_len part)

unfoldable pub is_host_term : Text → Bool
is_host_term part =
    is_long part
    && not (
        text_eq part (codes "www")
        || text_eq part (codes "com")
        || text_eq part (codes "org")
        || text_eq part (codes "net"))

abbrev host_terms : Option Text → List Text
host_terms none = []
host_terms (some host) = keep is_host_term (split b'.' host)

abbrev segment_terms : List Text → List Text
segment_terms [] = []
segment_terms (segment ∷ segments) = keep is_long (split_words segment) ++ segment_terms segments

abbrev path_terms : Option (List Text) → List Text
path_terms none = []
path_terms (some segments) = segment_terms segments

abbrev join_terms : List Text → Option Text
join_terms [] = none
join_terms (term ∷ terms) = some (join_texts (codes " ") (term ∷ terms))

module _ (crate : UrlCrate) where
  open crate use {parse, host_str, path_segments}

  unfoldable pub url_signal : Text → Option Text
  url_signal value = elim (parse value) [
    | none ↦ none
    | some url ↦
        join_terms (sort_terms (host_terms (host_str url) ++ path_terms (path_segments url)))
  ]
