-- ===== src/Ingestion/Semantic/Extract.antt =====
-- `extract_semantic_document` of src/ingestion/semantic_views.rs.
pub mod Pushes
pub mod Laws
use eal_sync.Prelude.{
  ℕ, suc, ◌^◌, Bool, false, not, List, [], ◌∷◌, ◌++◌, Option, none, some, length, take, ltb, ◌==◌,
  if◌then◌else◌,
}
use eal_sync.Prelude.Text.{Text, codes, trim, is_empty}
use eal_sync.Prelude.Search.{join_texts}
use eal_sync.Prelude.Json.{Json}
use eal_sync.Prelude.Utf8.{from_utf8_lossy}
use eal_sync.Prelude.Result.{Result, ok, guard, ◌>>=◌, ◌>>◌}
use eal_sync.Net.Url.{UrlCrate}
use eal_sync.Ingestion.Error.{IngestionError, error}
use eal_sync.Ingestion.Headers.{base_content_type}
use eal_sync.Ingestion.Content.Extract.{extract_text, is_html_type}
use eal_sync.Ingestion.Input.{
  EmbeddingInput, EmbeddingInputKind, F32, finite, title, heading, summary, sentence, entity,
  keyword, document, SemanticDocument, validate_document,
}
use eal_sync.Ingestion.Input
use eal_sync.Ingestion.Semantic.Chars.{CharTable}
use eal_sync.Ingestion.Semantic.Views.{
  truncate_chars, dedupe_text, dedupe_inputs, push_input, complete_sentences, build_summary,
}
use eal_sync.Ingestion.Semantic.Tokens.{extract_keywords}
use eal_sync.Ingestion.Semantic.Entities.{extract_entities}
use eal_sync.Ingestion.Semantic.Tags.{extract_tag_texts}
use eal_sync.Ingestion.Semantic.Signal.{url_signal}

-- an f32 between 1/8 and 2, by its 24 bits
abbrev weight : ℕ → ℕ → F32
weight significand exponent = finite false significand exponent

-- `items.chunks(size)`, with the group so far
unfoldable pub chunks_from {ℓ} : {A : Type ℓ} → ℕ → List A → List A → List (List A)
chunks_from size [] [] = []
chunks_from size (a ∷ group) [] = (a ∷ group) ∷ []
chunks_from size group (x ∷ xs) =
    let grown = group ++ x ∷ [] in
    let ended = chunks_from size [] xs in
    let later = chunks_from size grown xs in if length grown == size then grown ∷ ended else later

unfoldable pub chunks {ℓ} : {A : Type ℓ} → ℕ → List A → List (List A)
chunks size xs = chunks_from size [] xs

-- the loops that push every text with one kind and one weight
unfoldable pub push_inputs :
    List EmbeddingInput → EmbeddingInputKind → List Text → F32 → List EmbeddingInput
push_inputs inputs kind [] weight = inputs
push_inputs inputs kind (text ∷ texts) weight =
    push_inputs (push_input inputs kind text weight) kind texts weight

abbrev join_groups : Text → List (List Text) → List Text
join_groups separator [] = []
join_groups separator (group ∷ groups) = join_texts separator group ∷ join_groups separator groups

abbrev some_text : Option Text → List Text
some_text none = []
some_text (some text) = text ∷ []

-- the first of the titles
abbrev next_text : List Text → Option Text
next_text [] = none
next_text (text ∷ texts) = some text

abbrev title_of : Option Text → Option Text
title_of none = none
title_of (some markup) = next_text (extract_tag_texts markup (codes "title") 1)

abbrev headings_of : Option Text → List Text
headings_of none = []
headings_of (some markup) =
    extract_tag_texts markup (codes "h1") 12
    ++ extract_tag_texts markup (codes "h2") 12
    ++ extract_tag_texts markup (codes "h3") 12

-- what the inputs are made of
pub record Parts : Type 0 where
  pub title : Option Text
  pub headings : List Text
  pub sentences : List Text
  pub keywords : List Text
  pub entities : List Text
  pub content_text : Text
  pub signal : Option Text

-- the pushes, in their order
unfoldable pub push_parts : Parts → List EmbeddingInput
push_parts parts =
    let titled = push_inputs [] title (some_text parts.title) (weight 10_485_760 126) in
    let headed = push_inputs titled heading parts.headings (weight 9_646_899 126) in
    let text = build_summary parts.sentences parts.content_text in
    let summed = push_input headed summary text (weight 9_227_469 126) in
    let named =
      push_inputs summed entity (join_groups (codes "; ") (chunks 6 parts.entities))
        (weight 8_808_038 126) in
    let keyed =
      push_inputs named keyword (join_groups (codes ", ") (chunks 8 parts.keywords))
        (weight 15_099_494 125) in
    let said = push_inputs keyed sentence parts.sentences (weight 8_388_608 126) in
    let signed =
      push_inputs said Input.url_signal (some_text parts.signal) (weight 10_905_190 125) in
    push_input signed document (truncate_chars parts.content_text 2_000) (weight 12_582_912 125)

-- the loop that numbers the inputs
unfoldable pub number_inputs : ℕ → List EmbeddingInput → Result IngestionError (List EmbeddingInput)
number_inputs ordinal [] = ok []
number_inputs ordinal (input ∷ inputs) = do
  guard (ltb ordinal (2 ^ 16)) (error "invalid_embedding_inputs")
  rest ← number_inputs (suc ordinal) inputs
  ok (record input { ordinal = ordinal } ∷ rest)

module _ (crate : UrlCrate) (table : CharTable) where
  -- the body as markup, where it is a page
  abbrev markup_of : Text → List ℕ → Option Text
  markup_of content_type body =
      if is_html_type (base_content_type content_type) then some (from_utf8_lossy body) else none

  unfoldable pub parts_of : Text → List ℕ → Text → Text → Parts
  parts_of content_type body canonical_url content_text = record {
    title = title_of (markup_of content_type body);
    headings = dedupe_text (headings_of (markup_of content_type body)) 24;
    sentences = complete_sentences content_text 48;
    keywords = extract_keywords table content_text 32;
    entities = extract_entities table content_text 32;
    content_text = content_text;
    signal = url_signal crate canonical_url;
  }

module _ (crate : UrlCrate) (table : CharTable) (from_slice : List ℕ → Option Json) where
  unfoldable pub extract_semantic_document :
      Text → List ℕ → Text → Result IngestionError SemanticDocument
  extract_semantic_document content_type body canonical_url = do
    content_text ← extract_text from_slice content_type body
    guard (not (is_empty (trim content_text))) (error "empty_content")
    let parts = parts_of crate table content_type body canonical_url content_text
    inputs ← number_inputs 0 (take 96 (dedupe_inputs (push_parts parts)))
    let extracted : SemanticDocument = record {
      title = parts.title;
      content_text = content_text;
      keywords = parts.keywords;
      entities = parts.entities;
      embedding_inputs = inputs;
    }
    validate_document extracted
    ok extracted
