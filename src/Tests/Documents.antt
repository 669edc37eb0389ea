-- ===== src/Tests/Documents.antt =====
-- Runs of the extraction of texts, links and documents.
use eal_sync.Prelude.{
  ℕ, ◌+◌, ◌≡◌, ◌≤◌, refl, true, false, List, [], ◌∷◌, Option, none, some, length, All, ◌⊎◌, arith,
}
use eal_sync.Prelude.Text.{
  Text, codes, text_eq, byte_len, is_whitespace, is_ascii_digit, is_ascii_alphabetic,
  is_ascii_alphanumeric, to_ascii_lower, to_ascii_lowercase, drop_while, drop_end_while, trim_end,
  trim, strip_prefix, starts_with, ends_with, contains, split,
}
use eal_sync.Prelude.Json.{Json}
use eal_sync.Prelude.Result.{Result, ok}
use eal_sync.Ingestion.Error.{IngestionError}
use eal_sync.Ingestion.Input.{
  EmbeddingInput, EmbeddingInputKind, finite, summary, entity, keyword, SemanticDocument,
  validate_input, validate_all, validate_document,
}
use eal_sync.Ingestion.Content.Links.{
  DiscoveredLink, discover_links, insert_link, is_skipped, is_web, check_candidate, link_of,
  collect_links,
}
use eal_sync.Ingestion.Content.Extract.{extract_text, is_json_type, is_html_type, raw_text}
use eal_sync.Ingestion.Semantic.Extract.{
  extract_semantic_document, chunks_from, chunks, push_inputs, push_parts, number_inputs, parts_of,
}
use eal_sync.Prelude.Search.{
  replace_from, replace, join_texts, text_ltb, words_from, split_whitespace, split_before,
  find_lower,
}
use eal_sync.Prelude.Utf8.{from_utf8_lossy}
use eal_sync.Ingestion.Headers.{base_content_type}
use eal_sync.Ingestion.Content.{strip_from, strip_markup, collapse_from, collapse_whitespace}
use eal_sync.Ingestion.Content.Blocks.{decode_common_entities}
use eal_sync.Ingestion.Semantic.Views.{
  truncate_chars, dedupe_by, dedupe_text, dedupe_inputs, push_input, is_sentence, collect_sentences,
  complete_sentences, build_summary,
}
use eal_sync.Ingestion.Semantic.Views
use eal_sync.Ingestion.Semantic.Ranking.{
  add_count, precedes, insert_ranked, sort_ranked, take_ranked,
}
use eal_sync.Ingestion.Semantic.Tokens.{
  is_stopword, tokens_from, normalized_tokens, is_candidate, count_tokens, extract_keywords,
}
use eal_sync.Ingestion.Semantic.Entities.{
  is_common_sentence_lead, flush_entity, is_entity_token, count_entities, extract_entities,
}
use eal_sync.Ingestion.Semantic.Signal.{
  insert_term, sort_terms, split_words, is_host_term, url_signal,
}
use eal_sync.Ingestion.Scope.{parse_http_url}
use eal_sync.Ingestion.Content.Hrefs.{
  is_ascii_whitespace, span_until, read_value, after_equals, href_values, extract_href_values,
}
use eal_sync.Prelude.Member.{Member}
use eal_sync.Ingestion.Content.Links.Laws.{IsOrdered, IsLinkIn, discover_links_sound}
use eal_sync.Ingestion.Content.Hrefs.Ends.{extract_href_values_ends}
use eal_sync.Ingestion.Content.Blocks.{ignored_tags, remove_ignored_html_blocks}
use eal_sync.Ingestion.Content.Blocks.Gone.{Lacks, remove_blocks_gone}
use eal_sync.Ingestion.Semantic.Extract.Laws.{
  IsDocumentOf, semantic_document_sound, semantic_document_returns,
}
use eal_sync.Ingestion.Semantic.Tokens.Keywords.{IsKeywordOf, occurrences, extract_keywords_top}
use eal_sync.Tests.Samples.{PlainUrl, plain_crate, ascii_table, parse_plain}

abbrev pub no_json : List ℕ → Option Json
no_json body = none

abbrev pub same_url : Text → Option Text
same_url url = some url

abbrev pub page_body : List ℕ
page_body = codes "Rust alerts"

abbrev page_document : Result IngestionError SemanticDocument
page_document =
    extract_semantic_document plain_crate ascii_table no_json (codes "text/plain") page_body
      (codes "https://a.bc/")

abbrev links_html : Text
links_html =
    codes
      "<a href='https://a.bc/x'>1</a><a href=\"https://a.bc/x\">2</a><a href=https://b.cd/y>3</a>"

abbrev page_links : Result IngestionError (List DiscoveredLink)
page_links = discover_links plain_crate same_url (codes "https://a.bc/") links_html true 10

abbrev pub expected_input : EmbeddingInputKind → ℕ → Text → ℕ → ℕ → EmbeddingInput
expected_input kind ordinal text significand exponent = record {
  kind = kind;
  ordinal = ordinal;
  text = text;
  weight = finite false significand exponent;
}

abbrev pub expected_document : SemanticDocument
expected_document = record {
  title = none;
  content_text = codes "Rust alerts";
  keywords = codes "alerts" ∷ codes "rust" ∷ [];
  entities = codes "Rust" ∷ [];
  embedding_inputs =
      expected_input summary 0 (codes "Rust alerts") 9_227_469 126
      ∷ expected_input entity 1 (codes "Rust") 8_808_038 126
      ∷ expected_input keyword 2 (codes "alerts, rust") 15_099_494 125
      ∷ [];
}

makes_document : page_document ≡ ok expected_document
unfolding text_eq byte_len is_whitespace is_ascii_digit is_ascii_alphabetic is_ascii_alphanumeric
    to_ascii_lower to_ascii_lowercase drop_while drop_end_while trim_end trim strip_prefix
    starts_with ends_with contains split replace_from replace from_utf8_lossy base_content_type
    strip_from strip_markup collapse_from collapse_whitespace decode_common_entities is_json_type
    is_html_type raw_text extract_text join_texts text_ltb words_from split_whitespace
    validate_input validate_all validate_document truncate_chars dedupe_by dedupe_text dedupe_inputs
    Views.collapse_whitespace push_input is_sentence collect_sentences complete_sentences
    build_summary add_count precedes insert_ranked sort_ranked take_ranked is_stopword tokens_from
    normalized_tokens is_candidate count_tokens extract_keywords is_common_sentence_lead
    flush_entity is_entity_token count_entities extract_entities insert_term sort_terms split_words
    is_host_term url_signal chunks_from chunks push_inputs push_parts number_inputs parts_of
    extract_semantic_document parse_plain
makes_document = refl

abbrev expected_links : List DiscoveredLink
expected_links =
    record { url = codes "https://a.bc/x"; canonical_url = codes "https://a.bc/x" } ∷ []

finds_links : page_links ≡ ok expected_links
unfolding text_eq byte_len is_whitespace is_ascii_digit is_ascii_alphabetic is_ascii_alphanumeric
    to_ascii_lower to_ascii_lowercase drop_while drop_end_while trim_end trim strip_prefix
    starts_with ends_with contains split split_before find_lower text_ltb parse_http_url
    is_ascii_whitespace span_until read_value after_equals href_values extract_href_values
    insert_link is_skipped is_web check_candidate link_of collect_links discover_links parse_plain
finds_links = refl

reads_text : extract_text no_json (codes "text/plain") page_body ≡ ok (codes "Rust alerts")
unfolding text_eq byte_len is_whitespace is_ascii_digit is_ascii_alphabetic is_ascii_alphanumeric
    to_ascii_lower to_ascii_lowercase drop_while drop_end_while trim_end trim strip_prefix
    starts_with ends_with contains split replace_from replace from_utf8_lossy base_content_type
    strip_from strip_markup collapse_from collapse_whitespace decode_common_entities is_json_type
    is_html_type raw_text extract_text
reads_text = refl

discover_links_sound_example :
    (base : PlainUrl) × (base_host : Text) × (parse_http_url plain_crate (codes "https://a.bc/")
      ≡ ok base)
    × (plain_crate.host_str base ≡ some base_host)
    × (length expected_links ≤ 10)
    × IsOrdered expected_links
    × All
        (IsLinkIn plain_crate same_url true base base_host (extract_href_values links_html))
        expected_links
discover_links_sound_example =
    discover_links_sound plain_crate same_url (codes "https://a.bc/") links_html true 10
      expected_links finds_links

extract_href_values_ends_example :
    href_values (length links_html + 5) links_html ≡ extract_href_values links_html
extract_href_values_ends_example = extract_href_values_ends links_html 5

abbrev script_html : Text
script_html = codes "a<scr<script>x</script>ipt>b<STYLE>c"

remove_blocks_gone_example :
    All (λ tag. Lacks tag (remove_ignored_html_blocks script_html)) ignored_tags
remove_blocks_gone_example = remove_blocks_gone script_html

semantic_document_sound_example :
    IsDocumentOf plain_crate ascii_table no_json (codes "text/plain") page_body expected_document
semantic_document_sound_example =
    semantic_document_sound plain_crate ascii_table no_json (codes "text/plain") page_body
      (codes "https://a.bc/") expected_document makes_document

semantic_document_returns_example :
    (d : SemanticDocument) × (page_document ≡ ok d)
    × IsDocumentOf plain_crate ascii_table no_json (codes "text/plain") page_body d
semantic_document_returns_example =
    semantic_document_returns plain_crate ascii_table no_json (codes "text/plain") page_body
      (codes "https://a.bc/") (codes "Rust alerts") reads_text (omega arith)

abbrev sample_text : Text
sample_text = codes "Rust alerts. Rust and New York use alerts, alerts! The end"

abbrev sample_tokens : List Text
sample_tokens = normalized_tokens ascii_table sample_text

abbrev sample_keywords : List Text
sample_keywords = extract_keywords ascii_table sample_text 2

extract_keywords_top_example :
    (length sample_keywords ≤ 2)
    × All (IsKeywordOf ascii_table sample_tokens) sample_keywords
    × All
        (λ token.
          (is_candidate ascii_table token ≡ false)
          ⊎ (Member token sample_keywords
              ⊎ All
                  (λ keyword. occurrences token sample_tokens ≤ occurrences keyword sample_tokens)
                  sample_keywords))
        sample_tokens
extract_keywords_top_example = extract_keywords_top ascii_table sample_text 2
