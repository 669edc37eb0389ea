-- ===== src/CrawlOnce.antt =====
-- src/bin/crawl_once.rs: one fetch, from the environment to a summary. The environment is a function from
-- names to the values that are valid Unicode.
pub mod Laws
pub mod Request
use eal_sync.Prelude.{
  ℕ, Bool, true, false, not, ◌||◌, List, [], ◌∷◌, ◌++◌, Option, none, some, map, keep, length, take,
  drop, if◌then◌else◌,
}
use eal_sync.Prelude.Text.{Text, codes, text_eq, trim, is_empty, split, to_ascii_lowercase}
use eal_sync.Prelude.Result.{Result, ok, err, or_fail, map_err, ◌>>=◌}
use eal_sync.Net.Url.{UrlCrate}
use eal_sync.Ingestion.Error.{IngestionError}
use eal_sync.Ingestion.Policy.{default_policy}
use eal_sync.Ingestion.Input.{
  EmbeddingInputKind, title, heading, summary, sentence, entity, keyword, url_signal, document,
}
use eal_sync.Ingestion.Scope.{FetchScope, for_url, allow_host, set_allowed_path_prefixes}
use eal_sync.Ingestion.Fetch.{
  FetchRequest, FetchOutcome, FetchMetadata, FetchedDocument, not_modified, changed, Internet, Sent,
  fetch, new_fetcher,
}

pub record SemanticSummary : Type 0 where
  pub title : Option Text
  pub keywords : List Text
  pub entities : List Text
  pub embedding_input_count : ℕ
  pub embedding_kinds : List Text
  pub embedding_preview : Text

pub record CrawlSummary : Type 0 where
  pub outcome : Text
  pub requested_url : Text
  pub canonical_url : Text
  pub final_url : Text
  pub status : ℕ
  pub etag : Option Text
  pub last_modified : Option Text
  pub content_type : Option Text
  pub content_bytes : Option ℕ
  pub content_sha256 : Option Text
  pub content_preview : Option Text
  pub semantic : Option SemanticSummary

-- `Box<dyn Error>`: an error of the library, or a message
pub data CrawlError : Type 0 where
  ingestion : IngestionError → CrawlError
  message : Text → CrawlError

abbrev pub Env : Type 0
Env = Text → Option Text

abbrev nonempty : Text → Option Text
nonempty [] = none
nonempty (c ∷ s) = some (c ∷ s)

unfoldable pub nonempty_env : Env → Text → Option Text
nonempty_env env name = elim (env name) [ none ↦ none | some value ↦ nonempty (trim value) ]

unfoldable pub required_env : Env → Text → Result CrawlError Text
required_env env name = or_fail (nonempty_env env name) (message (name ++ codes " is required"))

unfoldable pub parse_bool : Text → Text → Result CrawlError Bool
parse_bool name value =
    if text_eq value (codes "1")
      || text_eq value (codes "true")
      || text_eq value (codes "yes")
      || text_eq value (codes "on")
    then ok true
    else if text_eq value (codes "0")
        || text_eq value (codes "false")
        || text_eq value (codes "no")
        || text_eq value (codes "off")
    then ok false
    else err (message (name ++ codes " must be true or false"))

unfoldable pub env_bool : Env → Text → Result CrawlError Bool
env_bool env name = elim (nonempty_env env name) [
  | none ↦ ok false
  | some value ↦ parse_bool name (to_ascii_lowercase value)
]

unfoldable pub preview : Text → ℕ → Text
preview value max_characters = elim (drop max_characters value) [
  | [] ↦ take max_characters value
  | ◌∷◌ c rest ↦ take max_characters value ++ 0x2026 ∷ []
]

abbrev pub embedding_kind_name : EmbeddingInputKind → Text
embedding_kind_name title = codes "title"
embedding_kind_name heading = codes "heading"
embedding_kind_name summary = codes "summary"
embedding_kind_name sentence = codes "sentence"
embedding_kind_name entity = codes "entity"
embedding_kind_name keyword = codes "keyword"
embedding_kind_name url_signal = codes "url_signal"
embedding_kind_name document = codes "document"

-- `.split(',').map(str::trim).filter(|value| !value.is_empty())`
unfoldable pub comma_list : Text → List Text
comma_list value = keep (λ s. not (is_empty s)) (map trim (split b',' value))

abbrev pub or_default : Option Text → Text
or_default none = []
or_default (some value) = value

-- the arm of the match for each outcome
unfoldable pub summarize : FetchOutcome → CrawlSummary
summarize (not_modified metadata) = record {
  outcome = codes "not_modified";
  requested_url = metadata.requested_url;
  canonical_url = metadata.canonical_url;
  final_url = metadata.final_url;
  status = metadata.status;
  etag = metadata.etag;
  last_modified = metadata.last_modified;
  content_type = none;
  content_bytes = none;
  content_sha256 = none;
  content_preview = none;
  semantic = none;
}
summarize (changed fetched) = record {
  outcome = codes "changed";
  requested_url = fetched.metadata.requested_url;
  canonical_url = fetched.metadata.canonical_url;
  final_url = fetched.metadata.final_url;
  status = fetched.metadata.status;
  etag = fetched.metadata.etag;
  last_modified = fetched.metadata.last_modified;
  content_type = some fetched.content_type;
  content_bytes = some fetched.content_bytes;
  content_sha256 = some fetched.content_sha256;
  content_preview = some (preview fetched.content_text 500);
  semantic = some (record {
    title = fetched.title;
    keywords = fetched.keywords;
    entities = fetched.entities;
    embedding_input_count = length fetched.embedding_inputs;
    embedding_kinds = map (λ input. embedding_kind_name input.kind) fetched.embedding_inputs;
    embedding_preview = preview fetched.embedding_text 1_000;
  });
}

module _ (crate : UrlCrate) (env : Env) where
  -- the loop over `EAL_CRAWL_ALLOWED_HOSTS`
  unfoldable pub allow_hosts : FetchScope → List Text → Result IngestionError FetchScope
  allow_hosts scope [] = ok scope
  allow_hosts scope (host ∷ hosts) = do next ← allow_host crate scope host; allow_hosts next hosts

  unfoldable pub restrict_paths : FetchScope → Option Text → Result IngestionError FetchScope
  restrict_paths scope none = ok scope
  restrict_paths scope (some prefixes) = set_allowed_path_prefixes crate scope (comma_list prefixes)

  -- `main` up to the fetch
  unfoldable pub read_request : Result CrawlError FetchRequest
  read_request = do
    url ← required_env env (codes "EAL_CRAWL_URL")
    scope ← map_err ingestion (for_url crate url)
    include_subdomains ← env_bool env (codes "EAL_CRAWL_INCLUDE_SUBDOMAINS")
    let hosts = comma_list (or_default (env (codes "EAL_CRAWL_ALLOWED_HOSTS")))
    wider ←
        map_err ingestion
          (allow_hosts (record scope { include_subdomains = include_subdomains }) hosts)
    restricted ←
        map_err ingestion
          (restrict_paths wider (nonempty_env env (codes "EAL_CRAWL_ALLOWED_PATH_PREFIXES")))
    ok (record {
      url = url;
      scope = restricted;
      conditional = record {
        etag = nonempty_env env (codes "EAL_CRAWL_ETAG");
        last_modified = nonempty_env env (codes "EAL_CRAWL_LAST_MODIFIED");
      };
    })

  module _ (net : Internet crate) where
    -- `main`, with the requests that went out; what it prints is the summary
    unfoldable pub main : Result CrawlError CrawlSummary × List (Sent crate)
    main = elim read_request [
      | err e ↦ (err e, [])
      | ok request ↦ elim (new_fetcher default_policy) [
        | err e ↦ (err (ingestion e), [])
        | ok policy ↦
            let (result, sent) = fetch crate net policy request in
            (map_err ingestion result >>= λ outcome. ok (summarize outcome), sent)
      ]
    ]
