-- ===== src/Tests/Stored.antt =====
-- A run of a fetch that stores a document.
use eal_sync.Prelude.{◌≡◌, refl, true, false, [], ◌∷◌, ◌++◌, none, some, if◌then◌else◌}
use eal_sync.Prelude.Text.{
  codes, text_eq, byte_len, is_whitespace, is_ascii_digit, is_ascii_alphabetic,
  is_ascii_alphanumeric, to_ascii_lower, to_ascii_lowercase, drop_while, drop_end_while, trim_end,
  trim, strip_prefix, starts_with, ends_with, contains, split,
}
use eal_sync.Prelude.Result.{ok}
use eal_sync.Ingestion.Input
use eal_sync.Ingestion.Input.{
  EmbeddingInput, EmbeddingInputKind, finite, summary, entity, keyword, SemanticDocument,
  validate_input, validate_all, validate_document,
}
use eal_sync.Ingestion.Content.Extract.{extract_text, is_json_type, is_html_type, raw_text}
use eal_sync.Ingestion.Semantic.Extract.{
  extract_semantic_document, chunks_from, chunks, push_inputs, push_parts, number_inputs, parts_of,
}
use eal_sync.Prelude.Search.{
  replace_from, replace, join_texts, text_ltb, words_from, split_whitespace,
}
use eal_sync.Prelude.Utf8.{from_utf8_lossy}
use eal_sync.Ingestion.Headers.{
  base_content_type, header_string, parse_u64, is_allowed_content_type, read_bounded_body,
  HeaderMap,
}
use eal_sync.Ingestion.Content.{strip_from, strip_markup, collapse_from, collapse_whitespace}
use eal_sync.Ingestion.Content.Blocks.{decode_common_entities}
use eal_sync.Ingestion.Semantic.Views.{
  truncate_chars, dedupe_by, dedupe_text, dedupe_inputs, push_input, is_sentence, collect_sentences,
  complete_sentences, build_summary,
}
use eal_sync.Ingestion.Semantic.Views
use eal_sync.Ingestion.Semantic.Ranking.{
  add_count, precedes, insert_ranked, sort_ranked, take_ranked,
}
use eal_sync.Ingestion.Semantic.Tokens.{
  is_stopword, tokens_from, normalized_tokens, is_candidate, count_tokens, extract_keywords,
}
use eal_sync.Ingestion.Semantic.Entities.{
  is_common_sentence_lead, flush_entity, is_entity_token, count_entities, extract_entities,
}
use eal_sync.Ingestion.Semantic.Signal.{
  insert_term, sort_terms, split_words, is_host_term, url_signal,
}
use eal_sync.Ingestion.Scope.{
  parse_http_url, is_label, normalize_host, path_matches_prefix, host_allowed, uses_default_port,
  allows_url, prepare_target_url,
}
use eal_sync.Ingestion.Headers
use eal_sync.Net.IpText.{parse_ip}
use eal_sync.Net.Ip.{
  is_public_ipv4, is_ipv4_mapped, is_public_ipv6, is_public_ip, is_private, is_loopback_v4,
  is_link_local, is_broadcast, is_documentation, is_unspecified_v4, is_loopback_v6,
  is_unspecified_v6, is_unique_local, is_unicast_link_local, is_non_public_ip, v4,
}
use eal_sync.Ingestion.Address.{
  insert_address, collect_addresses, public_addresses, resolve_public_addresses, select_address,
}
use eal_sync.Net.Body.{read_chunks, read_bounded}
use eal_sync.Ingestion.Fetch.{
  pinned_client, prepare_request, read_document, follow, fetch, Response, Internet, FetchRequest,
  FetchOutcome, changed, document_of,
}
use eal_sync.Ingestion.Fetch.Reads.{IsOutcome, IsAnswered}
use eal_sync.Ingestion.Fetch.Document.{fetch-IsOutcome}
use eal_sync.Ingestion.Policy.{default_policy, validate_policy}
use eal_sync.Tests.Documents.{expected_document, no_json, page_body, same_url, expected_input}
use eal_sync.Tests.Samples.{PlainUrl, plain_crate, ascii_table, parse_plain}

-- a server that answers with a page of plain text
abbrev plain_headers : HeaderMap
plain_headers = record {
  header = λ name.
      if text_eq name (codes "content-type") then some (some (codes "Text/Plain")) else none;
}

abbrev page_response : Response
page_response = record { status = 200; headers = plain_headers; chunks = ok page_body ∷ [] }

abbrev pub page_net : Internet plain_crate
page_net = record {
  lookup = λ index host port. some (v4 (record { a = 1; b = 1; c = 1; d = 1 }) ∷ []);
  send = λ index sent. some page_response;
  has_permit = λ host. true;
  builds = λ host address. true;
  canonicalize_url = same_url;
  sha256_hex = λ text. text;
  from_slice = no_json;
  char_table = ascii_table;
}

abbrev page_request : FetchRequest
page_request = record {
  url = codes "https://a.bc/blog/post";
  scope = record {
    root_host = codes "a.bc";
    include_subdomains = false;
    explicitly_allowed_hosts = [];
    allowed_path_prefixes = codes "/blog" ∷ [];
    require_default_port = true;
  };
  conditional = record { etag = none; last_modified = none };
}

abbrev page_url : PlainUrl
page_url = record { is_https = true; host = codes "a.bc"; path = codes "/blog/post" }

abbrev blog_document : SemanticDocument
blog_document = record expected_document {
  embedding_inputs =
      expected_document.embedding_inputs
      ++ expected_input Input.url_signal 3 (codes "blog post") 10_905_190 125 ∷ [];
}

abbrev pub fetched_page : FetchOutcome
fetched_page = changed (
    document_of plain_crate page_net default_policy page_request page_url page_url page_response
      (codes "text/plain") page_body (codes "https://a.bc/blog/post") blog_document)

fetches_page : (fetch plain_crate page_net default_policy page_request).0 ≡ ok fetched_page
unfolding text_eq byte_len is_whitespace is_ascii_digit is_ascii_alphabetic is_ascii_alphanumeric
    to_ascii_lower to_ascii_lowercase drop_while drop_end_while trim_end trim strip_prefix
    starts_with ends_with contains split replace_from replace from_utf8_lossy header_string
    parse_u64 Headers.content_length Headers.content_type base_content_type is_allowed_content_type
    read_bounded_body strip_from strip_markup collapse_from collapse_whitespace
    decode_common_entities is_json_type is_html_type raw_text extract_text join_texts text_ltb
    words_from split_whitespace validate_input validate_all validate_document truncate_chars
    dedupe_by dedupe_text dedupe_inputs Views.collapse_whitespace push_input is_sentence
    collect_sentences complete_sentences build_summary add_count precedes insert_ranked sort_ranked
    take_ranked is_stopword tokens_from normalized_tokens is_candidate count_tokens extract_keywords
    is_common_sentence_lead flush_entity is_entity_token count_entities extract_entities insert_term
    sort_terms split_words is_host_term url_signal chunks_from chunks push_inputs push_parts
    number_inputs parts_of extract_semantic_document parse_plain is_label normalize_host
    path_matches_prefix host_allowed uses_default_port allows_url parse_http_url prepare_target_url
    parse_ip is_public_ipv4 is_ipv4_mapped is_public_ipv6 is_public_ip is_private is_loopback_v4
    is_link_local is_broadcast is_documentation is_unspecified_v4 is_loopback_v6 is_unspecified_v6
    is_unique_local is_unicast_link_local is_non_public_ip insert_address collect_addresses
    public_addresses resolve_public_addresses select_address read_chunks read_bounded pinned_client
    prepare_request read_document follow fetch
fetches_page = refl

default_is_valid : validate_policy default_policy ≡ ok tt
unfolding validate_policy trim trim_end drop_while drop_end_while is_whitespace byte_len
default_is_valid = refl

fetch-IsOutcome_example :
    IsOutcome plain_crate page_net default_policy page_request fetched_page
    × (requested : PlainUrl) × (prepare_target_url plain_crate page_request.url page_request.scope
        ≡ ok requested)
    × IsAnswered plain_crate page_net default_policy page_request requested 0
        (fetch plain_crate page_net default_policy page_request).1
        fetched_page
fetch-IsOutcome_example =
    fetch-IsOutcome plain_crate page_net default_policy page_request fetched_page default_is_valid
      fetches_page
