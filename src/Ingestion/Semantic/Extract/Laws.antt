-- ===== src/Ingestion/Semantic/Extract/Laws.antt =====
-- What `extract_semantic_document` returns, and when it returns a document.
use eal_sync.Prelude.{
  ℕ, ◌≤◌, ◌≡◌, refl, sym, subst, ◌∙◌, true, false, not, ◌||◌, List, [], Option, length, length-take,
  ltb, within, ◌==◌, All, arith, Bool-cases, leb-cases, inl, inr,
}
use eal_sync.Prelude.Text.{Text, trim, is_empty}
use eal_sync.Prelude.Search.{split_whitespace}
use eal_sync.Prelude.Json.{Json}
use eal_sync.Prelude.Result.{ok, Result-cases, ok_injective, err_is_not_ok}
use eal_sync.Net.Url.{UrlCrate}
use eal_sync.Ingestion.Content.Laws.{IsCollapsed, collapse_whitespace-IsCollapsed}
use eal_sync.Ingestion.Content
use eal_sync.Ingestion.Headers.{base_content_type}
use eal_sync.Ingestion.Content.Blocks.{decode_common_entities}
use eal_sync.Ingestion.Content.Extract.{extract_text, raw_text}
use eal_sync.Ingestion.Input.{EmbeddingInput, SemanticDocument, validate_document}
use eal_sync.Ingestion.Revision.{validate_embedding_inputs}
use eal_sync.Ingestion.Revision.Laws.{IsValidInput}
use eal_sync.Ingestion.Semantic.Chars.{CharTable}
use eal_sync.Ingestion.Semantic.Views.{dedupe_inputs}
use eal_sync.Ingestion.Semantic.Views.Laws.{
  truncate-IsCollapsed, is_not_blank, IsFresh, dedupe_by-some,
}
use eal_sync.Ingestion.Semantic.Ranking.Laws.{length-take_ranked}
use eal_sync.Ingestion.Semantic.Tokens.{normalized_tokens, count_tokens, extract_keywords}
use eal_sync.Ingestion.Semantic.Entities.{count_entities, extract_entities}
use eal_sync.Ingestion.Semantic.Extract.{Parts, push_parts, parts_of, extract_semantic_document}
use eal_sync.Ingestion.Semantic.Extract.Pushes.{
  push_parts-some, number_inputs-numbered, length-numbered, numbered-All, numbered-IsFresh,
  chosen-short, chosen-All, chosen-IsFresh, numbered, text_of, chosen, not_within,
}

-- A list of inputs that passes the checks of a document passes those of a revision.
numbered-accepted :
    (inputs : List EmbeddingInput)
    → All IsValidInput inputs
    → 1 ≤ length inputs
    → length inputs ≤ 96
    → validate_embedding_inputs (numbered 0 inputs) ≡ ok tt
unfolding validate_embedding_inputs
numbered-accepted inputs hs some_ few =
    let (ordered, valid) = numbered-All 0 inputs hs in
    let same = length-numbered 0 inputs in
    let right : not (length (numbered 0 inputs) == 0 || ltb 96 (length (numbered 0 inputs)))
        ≡ true =
      ground (arith, same, some_, few) in
    rw (right, ordered) refl

module _ (crate : UrlCrate) (table : CharTable) (from_slice : List ℕ → Option Json) where
  -- the document of a text
  abbrev document_of : Text → Parts → SemanticDocument
  document_of text parts = record {
    title = parts.title;
    content_text = text;
    keywords = parts.keywords;
    entities = parts.entities;
    embedding_inputs = numbered 0 (chosen parts);
  }

  -- What a document promises of the page that it was made of.
  abbrev pub IsDocumentOf : Text → List ℕ → SemanticDocument → Type 0
  IsDocumentOf content_type body d =
      (extract_text from_slice content_type body ≡ ok d.content_text)
      × (is_empty (trim d.content_text) ≡ false)
      × (validate_embedding_inputs d.embedding_inputs ≡ ok tt)
      × IsFresh text_of [] d.embedding_inputs
      × (length d.keywords ≤ 32)
      × (length d.entities ≤ 32)

  module _ (content_type : Text) (body : List ℕ) (canonical_url : Text) where
    document_of-IsDocumentOf :
        (text : Text)
        → extract_text from_slice content_type body ≡ ok text
        → is_empty (trim text) ≡ false
        → 1 ≤ length (chosen (parts_of crate table content_type body canonical_url text))
        → let d = document_of text (parts_of crate table content_type body canonical_url text) in
          (extract_semantic_document crate table from_slice content_type body canonical_url ≡ ok d)
          × IsDocumentOf content_type body d
    unfolding extract_semantic_document validate_document parts_of extract_keywords extract_entities
    document_of-IsDocumentOf text read filled some_ =
        let parts = parts_of crate table content_type body canonical_url text in
        let few = chosen-short parts in
        let numbers = number_inputs-numbered 0 (chosen parts) (omega (arith, few)) in
        let all_valid = chosen-All parts in
        let same = length-numbered 0 (chosen parts) in
        let within_ : within 1 96 (length (numbered 0 (chosen parts))) ≡ true =
          ground (arith, same, some_, few) in
        let (_, valid) = numbered-All 0 (chosen parts) all_valid in
        let accepted = numbered-accepted (chosen parts) all_valid some_ few in
        let fresh = numbered-IsFresh 0 [] (chosen parts) (chosen-IsFresh parts) in
        (
          rw (read, filled, numbers, within_, valid) refl,
          (
            read,
            filled,
            accepted,
            fresh,
            length-take_ranked (count_tokens table [] (normalized_tokens table text)) 32,
            length-take_ranked (count_entities table [] [] (split_whitespace text)) 32,
          ),
        )

    text-IsCollapsed :
        (text : Text) → extract_text from_slice content_type body ≡ ok text → IsCollapsed true text
    unfolding extract_text
    text-IsCollapsed text read =
        elim (Result-cases (raw_text from_slice (base_content_type content_type) body)) [
          | inl (why, refused) ↦ absurd (ground (arith, read, refused))
          | inr (raw, found) ↦
              let same : Content.collapse_whitespace (decode_common_entities raw) ≡ text =
                ground (arith, rw found at read) in
              subst (IsCollapsed true) same
                (collapse_whitespace-IsCollapsed (decode_common_entities raw)).0
        ]

    chosen-some :
        (text : Text)
        → extract_text from_slice content_type body ≡ ok text
        → 3 ≤ length text
        → 1 ≤ length (chosen (parts_of crate table content_type body canonical_url text))
    unfolding dedupe_inputs parts_of
    chosen-some text read long =
        let kept = truncate-IsCollapsed 2_000 (text-IsCollapsed text read) in
        let parts = parts_of crate table content_type body canonical_url text in
        let some_ = dedupe_by-some text_of (push_parts parts) (push_parts-some parts kept long) in
        omega (arith, some_, length-take 96 (dedupe_inputs (push_parts parts)))

    -- A document of a page has its text, which is not blank, at most 32 keywords and 32 entities, and
    -- embedding inputs that the checks of a revision accept; no two of them have one text, up to the
    -- case of ASCII letters.
    pub semantic_document_sound :
        (d : SemanticDocument)
        → extract_semantic_document crate table from_slice content_type body canonical_url ≡ ok d
        → IsDocumentOf content_type body d
    unfolding extract_semantic_document validate_document
    semantic_document_sound d e = elim (Result-cases (extract_text from_slice content_type body)) [
      | inl (why, refused) ↦ absurd (ground (arith, e, refused))
      | inr (text, read) ↦ elim (Bool-cases (is_empty (trim text))) [
        | inl blank ↦ absurd (ground (arith, e, read, blank))
        | inr filled ↦
            let parts = parts_of crate table content_type body canonical_url text in
            elim (leb-cases 1 (length (chosen parts))) [
              | inl (_, some_) ↦
                  let (made, right) = document_of-IsDocumentOf text read filled some_ in
                  let same : document_of text parts ≡ d = ok_injective (sym made ∙ e) in
                  subst (IsDocumentOf content_type body) same right
              | inr (_, empty) ↦
                  let numbers = number_inputs-numbered 0 (chosen parts) (omega (arith, empty)) in
                  let none_in : within 1 96 (length (numbered 0 (chosen parts))) ≡ false =
                    not_within (length (chosen parts)) _ empty (length-numbered 0 (chosen parts)) in
                  absurd (err_is_not_ok (rw (read, filled, numbers, none_in) at e))
            ]
      ]
    ]

    -- A page whose text has three characters or more has a document.
    pub semantic_document_returns :
        (text : Text)
        → extract_text from_slice content_type body ≡ ok text
        → 3 ≤ length text
        → (d : SemanticDocument) × (extract_semantic_document crate table from_slice content_type
              body canonical_url
            ≡ ok d)
          × IsDocumentOf content_type body d
    semantic_document_returns text read long =
        let parts = parts_of crate table content_type body canonical_url text in
        let filled = is_not_blank (text-IsCollapsed text read) (omega (arith, long)) in
        let (made, right) =
          document_of-IsDocumentOf text read filled (chosen-some text read long) in
        (document_of text parts, made, right)
