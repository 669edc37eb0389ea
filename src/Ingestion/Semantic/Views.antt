-- ===== src/Ingestion/Semantic/Views.antt =====
-- `truncate_chars`, `dedupe_text`, `dedupe_inputs`, `collapse_whitespace`, `push_input`,
-- `complete_sentences` and `build_summary` of src/ingestion/semantic_views.rs.
pub mod Laws
pub mod Sentences
use eal_sync.Prelude.{
  ℕ, ◌-◌, Bool, ◌||◌, ◌&&◌, List, [], ◌∷◌, ◌++◌, ◌==◌, ltb, leb, within, length, take,
  if◌then◌else◌,
}
use eal_sync.Prelude.Text.{Text, codes, trim, to_ascii_lowercase}
use eal_sync.Prelude.Search.{text_in, join_texts, split_whitespace}
use eal_sync.Ingestion.Content
use eal_sync.Ingestion.Input.{EmbeddingInput, EmbeddingInputKind, F32}

unfoldable pub truncate_chars : Text → ℕ → Text
truncate_chars value max_chars =
    if leb (length value) max_chars then value else take (max_chars - 1) value ++ 0x2026 ∷ []

-- keeps an item whose lower-case text was not seen; `seen` is the hash set
unfoldable pub dedupe_by {ℓ} : {A : Type ℓ} → (A → Text) → List Text → List A → List A
dedupe_by text_of seen [] = []
dedupe_by text_of seen (item ∷ items) =
    let key = to_ascii_lowercase (text_of item) in
    let without = dedupe_by text_of seen items in
    let rest = dedupe_by text_of (key ∷ seen) items in
    if text_in key seen then without else item ∷ rest

unfoldable pub dedupe_text : List Text → ℕ → List Text
dedupe_text items limit = take limit (dedupe_by (λ item. item) [] items)

unfoldable pub dedupe_inputs : List EmbeddingInput → List EmbeddingInput
dedupe_inputs inputs = dedupe_by (λ input. input.text) [] inputs

-- the function of this module, which also trims
unfoldable pub collapse_whitespace : Text → Text
collapse_whitespace input = trim (Content.collapse_whitespace input)

unfoldable pub push_input :
    List EmbeddingInput → EmbeddingInputKind → Text → F32 → List EmbeddingInput
push_input inputs kind text weight =
    let text = truncate_chars (collapse_whitespace text) 700 in
    if ltb (length text) 3
    then inputs
    else inputs ++ record { kind = kind; ordinal = 0; text = text; weight = weight } ∷ []

abbrev pub ends_sentence : ℕ → Bool
ends_sentence c = c == b'.' || c == b'!' || c == b'?'

unfoldable pub is_sentence : Text → Bool
is_sentence candidate =
    within 6 110 (length (split_whitespace candidate)) && within 36 900 (length candidate)

-- the loop of `complete_sentences`, with the sentences and the buffer so far
unfoldable pub collect_sentences : ℕ → List Text → Text → Text → List Text
collect_sentences limit sentences buffer [] = sentences
collect_sentences limit sentences buffer (c ∷ s) =
    let grown = buffer ++ c ∷ [] in
    let candidate = collapse_whitespace grown in
    let found = sentences ++ candidate ∷ [] in
    let after_found = collect_sentences limit found [] s in
    let after_cleared = collect_sentences limit sentences [] s in
    let after_grown = collect_sentences limit sentences grown s in
    if ends_sentence c
    then (if is_sentence candidate
        then (if length found == limit then found else after_found)
        else after_cleared)
    else if ltb 1_000 (length grown)
    then after_cleared
    else after_grown

unfoldable pub complete_sentences : Text → ℕ → List Text
complete_sentences text limit = dedupe_text (collect_sentences limit [] [] text) limit

unfoldable pub build_summary : List Text → Text → Text
build_summary sentences content_text =
    let summary = join_texts (codes " ") (take 3 sentences) in
    if leb 80 (length summary) then truncate_chars summary 900 else truncate_chars content_text 900
