-- ===== src/Tests/Crawls.antt =====
-- Runs of the host limiters and of the one-shot crawl.
use eal_sync.Prelude.{
  ℕ, zero, suc, ◌≤◌, ◌≡◌, refl, true, [], ◌∷◌, Option, none, some, ◌⊎◌, ◌≢◌, arith, if◌then◌else◌,
}
use eal_sync.Prelude.Text.{
  codes, text_eq, byte_len, is_whitespace, is_control, is_ascii_digit, is_ascii_alphabetic,
  is_ascii_alphanumeric, to_ascii_lower, to_ascii_lowercase, drop_while, drop_end_while, trim_end,
  trim, strip_prefix, starts_with, ends_with, strip_suffix, contains, split,
}
use eal_sync.Prelude.Result.{ok}
use eal_sync.Ingestion.Limiter.{
  SemaphoreCrate, Limiters, no_limiters, acquire_host_permit, start, step, acquired,
}
use eal_sync.Ingestion.Limiter.Permits.{in_use, permits_bound}
use eal_sync.CrawlOnce.{
  nonempty_env, required_env, parse_bool, env_bool, preview, comma_list, summarize, allow_hosts,
  restrict_paths, read_request, main, Env,
}
use eal_sync.Ingestion.Scope.{
  set_insert, is_label, normalize_host, is_ambiguous, path_matches_prefix, host_allowed,
  uses_default_port, allows_url, parse_http_url, prepare_target_url, normalize_path_prefix, for_url,
  allow_host, allow_path_prefix, normalize_prefixes, set_allowed_path_prefixes, FetchScope,
}
use eal_sync.Net.IpText.{parse_ip}
use eal_sync.Tests.Samples.{parse_plain, plain_crate}
use eal_sync.Prelude.Search.{
  replace_from, replace, join_texts, text_ltb, words_from, split_whitespace,
}
use eal_sync.Prelude.Utf8.{from_utf8_lossy}
use eal_sync.Ingestion.Headers
use eal_sync.Ingestion.Headers.{
  header_string, parse_u64, base_content_type, is_allowed_content_type, read_bounded_body,
}
use eal_sync.Ingestion.Content.{strip_from, strip_markup, collapse_from, collapse_whitespace}
use eal_sync.Ingestion.Content.Blocks.{decode_common_entities}
use eal_sync.Ingestion.Content.Extract.{is_json_type, is_html_type, raw_text, extract_text}
use eal_sync.Ingestion.Input.{validate_input, validate_all, validate_document}
use eal_sync.Ingestion.Semantic.Views
use eal_sync.Ingestion.Semantic.Views.{
  truncate_chars, dedupe_by, dedupe_text, dedupe_inputs, push_input, is_sentence, collect_sentences,
  complete_sentences, build_summary,
}
use eal_sync.Ingestion.Semantic.Ranking.{
  add_count, precedes, insert_ranked, sort_ranked, take_ranked,
}
use eal_sync.Ingestion.Semantic.Tokens.{
  is_stopword, tokens_from, normalized_tokens, is_candidate, count_tokens, extract_keywords,
}
use eal_sync.Ingestion.Semantic.Entities.{
  is_common_sentence_lead, flush_entity, is_entity_token, count_entities, extract_entities,
}
use eal_sync.Ingestion.Semantic.Signal.{
  insert_term, sort_terms, split_words, is_host_term, url_signal,
}
use eal_sync.Ingestion.Semantic.Extract.{
  chunks_from, chunks, push_inputs, push_parts, number_inputs, parts_of, extract_semantic_document,
}
use eal_sync.Net.Ip.{
  is_public_ipv4, is_public_ip, is_private, is_loopback_v4, is_link_local, is_broadcast,
  is_documentation, is_unspecified_v4,
}
use eal_sync.Ingestion.Address.{
  insert_address, collect_addresses, public_addresses, resolve_public_addresses, select_address,
}
use eal_sync.Net.Body.{read_chunks, read_bounded}
use eal_sync.Ingestion.Policy.{default_policy, validate_policy}
use eal_sync.Ingestion.Fetch.{
  pinned_client, prepare_request, read_document, follow, fetch, new_fetcher, FetchRequest,
  FetchOutcome,
}
use eal_sync.CrawlOnce.Laws.{IsSummary, main-IsSummary}
use eal_sync.CrawlOnce.Request.{IsWithin, read_request-IsWithin}
use eal_sync.Tests.Stored.{page_net, fetched_page}

abbrev take_permit : ℕ → Option ℕ
take_permit zero = none
take_permit (suc n) = some n

taken : (s t : ℕ) → take_permit s ≡ some t → s ≡ suc t
taken zero t e = cc
taken (suc n) t e = ground (arith, e)

waits : (s : ℕ) → take_permit s ≡ none → s ≡ 0
waits zero e = refl
waits (suc n) e = cc

-- a semaphore as the number of its permits
abbrev counter : SemaphoreCrate
counter = record {
  Semaphore = ℕ;
  new = λ n. n;
  available_permits = λ n. n;
  acquire = take_permit;
  release = suc;
  available-new = λ n. refl;
  available-acquire = taken;
  acquire-none = waits;
  available-release = λ n. refl;
}

abbrev one_held : Limiters counter
one_held = record { host_limiters = (codes "a.bc", 1) ∷ []; held = codes "a.bc" ∷ [] }

acquires_one : acquire_host_permit counter 2 (codes "a.bc") (no_limiters counter) ≡ some one_held
unfolding acquire_host_permit
acquires_one = refl

permits_bound_example :
    (in_use counter (codes "a.bc") one_held ≤ 2)
    × ((acquire_host_permit counter 2 (codes "a.bc") one_held ≢ none)
        ⊎ (in_use counter (codes "a.bc") one_held ≡ 2))
permits_bound_example = permits_bound counter 2 one_held (codes "a.bc") (
    step (no_limiters counter) one_held start
      (acquired (codes "a.bc") (no_limiters counter) one_held acquires_one))

abbrev crawl_env : Env
crawl_env name =
    if text_eq name (codes "EAL_CRAWL_URL")
    then some (codes " https://a.bc/blog/post ")
    else if text_eq name (codes "EAL_CRAWL_ALLOWED_HOSTS")
    then some (codes "b.cd, ,c.de")
    else if text_eq name (codes "EAL_CRAWL_INCLUDE_SUBDOMAINS")
    then some (codes "Yes")
    else none

abbrev crawl_request : FetchRequest
crawl_request = record {
  url = codes "https://a.bc/blog/post";
  scope = record {
    root_host = codes "a.bc";
    include_subdomains = true;
    explicitly_allowed_hosts = codes "c.de" ∷ codes "b.cd" ∷ [];
    allowed_path_prefixes = codes "/blog/post" ∷ [];
    require_default_port = true;
  };
  conditional = record { etag = none; last_modified = none };
}

reads_request : read_request plain_crate crawl_env ≡ ok crawl_request
unfolding text_eq byte_len is_whitespace is_control is_ascii_digit is_ascii_alphabetic
    is_ascii_alphanumeric to_ascii_lower to_ascii_lowercase drop_while drop_end_while trim_end trim
    strip_prefix starts_with ends_with strip_suffix contains split nonempty_env required_env
    parse_bool env_bool preview comma_list summarize allow_hosts restrict_paths read_request main
    set_insert is_label normalize_host is_ambiguous path_matches_prefix host_allowed allows_url
    parse_http_url prepare_target_url normalize_path_prefix for_url allow_host allow_path_prefix
    normalize_prefixes set_allowed_path_prefixes parse_ip parse_plain
reads_request = refl

read_request-IsWithin_example :
    (base : FetchScope) × (required_env crawl_env (codes "EAL_CRAWL_URL") ≡ ok crawl_request.url)
    × (for_url plain_crate crawl_request.url ≡ ok base)
    × IsWithin plain_crate crawl_env base crawl_request.scope
read_request-IsWithin_example =
    read_request-IsWithin plain_crate crawl_env crawl_request reads_request

prints_summary : (main plain_crate crawl_env page_net).0 ≡ ok (summarize fetched_page)
unfolding text_eq byte_len is_whitespace is_control is_ascii_digit is_ascii_alphabetic
    is_ascii_alphanumeric to_ascii_lower to_ascii_lowercase drop_while drop_end_while trim_end trim
    strip_prefix starts_with ends_with strip_suffix contains split nonempty_env required_env
    parse_bool env_bool preview comma_list summarize allow_hosts restrict_paths read_request main
    set_insert is_label normalize_host is_ambiguous path_matches_prefix host_allowed
    uses_default_port allows_url parse_http_url prepare_target_url normalize_path_prefix for_url
    allow_host allow_path_prefix normalize_prefixes set_allowed_path_prefixes parse_ip parse_plain
    replace_from replace from_utf8_lossy header_string parse_u64 Headers.content_length
    Headers.content_type base_content_type is_allowed_content_type read_bounded_body strip_from
    strip_markup collapse_from collapse_whitespace decode_common_entities is_json_type is_html_type
    raw_text extract_text join_texts text_ltb words_from split_whitespace validate_input
    validate_all validate_document truncate_chars dedupe_by dedupe_text dedupe_inputs
    Views.collapse_whitespace push_input is_sentence collect_sentences complete_sentences
    build_summary add_count precedes insert_ranked sort_ranked take_ranked is_stopword tokens_from
    normalized_tokens is_candidate count_tokens extract_keywords is_common_sentence_lead
    flush_entity is_entity_token count_entities extract_entities insert_term sort_terms split_words
    is_host_term url_signal chunks_from chunks push_inputs push_parts number_inputs parts_of
    extract_semantic_document is_public_ipv4 is_public_ip is_private is_loopback_v4 is_link_local
    is_broadcast is_documentation is_unspecified_v4 insert_address collect_addresses
    public_addresses resolve_public_addresses select_address read_chunks read_bounded
    validate_policy pinned_client prepare_request read_document follow fetch new_fetcher
prints_summary = refl

main-IsSummary_example :
    (request : FetchRequest) × (outcome : FetchOutcome) × (read_request plain_crate crawl_env
      ≡ ok request)
    × ((fetch plain_crate page_net default_policy request).0 ≡ ok outcome)
    × IsSummary outcome (summarize fetched_page)
main-IsSummary_example =
    main-IsSummary plain_crate page_net crawl_env (summarize fetched_page) prints_summary
