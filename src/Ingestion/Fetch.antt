-- ===== src/Ingestion/Fetch.antt =====
-- `HttpFetcher::fetch` and `pinned_client` of src/ingestion/network/fetcher.rs. DNS, the remote server,
-- the host limiter, `eal_semantic`, serde_json and the tables of Unicode are arguments: what they answer.
pub mod Safe
pub mod Reads
pub mod Document
use eal_sync.Prelude.{
  ℕ, zero, suc, Bool, true, false, not, List, [], ◌∷◌, ◌||◌, Option, none, some, ◌==◌, ltb, within,
  length, if◌then◌else◌,
}
use eal_sync.Prelude.Text.{Text, codes, text_eq, to_ascii_lowercase}
use eal_sync.Prelude.Json.{Json}
use eal_sync.Prelude.Result.{Result, ok, err, guard, or_fail, map_err, ◌>>=◌, ◌>>◌}
use eal_sync.Net.Ip.{IpAddr}
use eal_sync.Net.Url.{UrlCrate}
use eal_sync.Ingestion.Error.{IngestionError, error}
use eal_sync.Ingestion.Policy.{FetchPolicy, validate_policy}
use eal_sync.Ingestion.Scope.{FetchScope, host_of, prepare_target_url}
use eal_sync.Ingestion.Address.{resolve_public_addresses, select_address}
use eal_sync.Ingestion.Headers.{
  HeaderMap, header_string, content_length, content_type, is_allowed_content_type,
  read_bounded_body,
}
use eal_sync.Ingestion.Input.{EmbeddingInput, SemanticDocument, combined_embedding_text}
use eal_sync.Ingestion.Semantic.Chars.{CharTable}
use eal_sync.Ingestion.Semantic.Extract.{extract_semantic_document}

pub record ConditionalState : Type 0 where
  pub etag : Option Text
  pub last_modified : Option Text

pub record FetchRequest : Type 0 where
  pub url : Text
  pub scope : FetchScope
  pub conditional : ConditionalState

pub record FetchMetadata : Type 0 where
  pub requested_url : Text
  pub canonical_url : Text
  pub final_url : Text
  pub status : ℕ
  pub etag : Option Text
  pub last_modified : Option Text

pub record FetchedDocument : Type 0 where
  pub metadata : FetchMetadata
  pub content_type : Text
  pub content_bytes : ℕ
  pub content_sha256 : Text
  pub title : Option Text
  pub content_text : Text
  pub keywords : List Text
  pub entities : List Text
  pub embedding_text : Text
  pub embedding_inputs : List EmbeddingInput

pub data FetchOutcome : Type 0 where
  not_modified : FetchMetadata → FetchOutcome
  changed : FetchedDocument → FetchOutcome

pub record Response : Type 0 where
  pub status : ℕ
  pub headers : HeaderMap
  pub chunks : List (Result Text (List ℕ))

abbrev pub or_else {ℓ} : {A : Type ℓ} → Option A → Option A → Option A
or_else none b = b
or_else (some a) b = some a

abbrev pub exceeds : ℕ → Option ℕ → Bool
exceeds limit none = false
exceeds limit (some n) = ltb limit n

-- `status.is_redirection()` and `status.is_success()`
abbrev pub is_redirection : ℕ → Bool
is_redirection status = within 300 399 status

abbrev pub is_success : ℕ → Bool
is_success status = within 200 299 status

abbrev status_error : ℕ → IngestionError
status_error status =
    if status == 429 || status == 503 then error "remote_throttled" else error "remote_status"

module _ (crate : UrlCrate) where
  open crate use {Url, as_str, port_or_known_default, join}

  -- a request as it goes out: the URL, the address that its host is pinned to, and the validators
  pub record Sent : Type 0 where
    pub url : crate.Url
    pub address : IpAddr
    pub if_none_match : Option Text
    pub if_modified_since : Option Text

  -- What the world answers; the number counts the requests of one fetch, which need not get equal
  -- answers.
  pub record Internet : Type 0 where
    pub lookup : ℕ → Text → ℕ → Option (List IpAddr)
    pub send : ℕ → Sent → Option Response
    -- whether the host limiter is open, and whether reqwest can build the client
    pub has_permit : Text → Bool
    pub builds : Text → IpAddr → Bool
    pub canonicalize_url : Text → Option Text
    pub sha256_hex : Text → Text
    pub from_slice : List ℕ → Option Json
    pub char_table : CharTable

  module _ (net : Internet) (policy : FetchPolicy) (request : FetchRequest) where
    -- the address that `pinned_client` resolves the host to
    unfoldable pub pinned_client : ℕ → Url → Result IngestionError IpAddr
    pinned_client index url = do
      host ← host_of crate url
      port ← or_fail (port_or_known_default url) (error "invalid_url")
      addresses ← resolve_public_addresses (net.lookup index host port)
      selected ← or_fail (select_address addresses) (error "dns_no_public_address")
      guard (net.builds host selected) (error "client_build_failed")
      ok selected

    abbrev pub same_host : Bool → Option Text → Option Text
    same_host true value = value
    same_host false value = none

    -- one iteration up to `send`
    unfoldable pub prepare_request : Text → ℕ → Url → Result IngestionError Sent
    prepare_request requested_host index current = do
      host ← host_of crate current
      let current_host = to_ascii_lowercase host
      guard (net.has_permit current_host) (error "worker_shutdown")
      address ← pinned_client index current
      ok (record {
        url = current;
        address = address;
        if_none_match = same_host (text_eq current_host requested_host) request.conditional.etag;
        if_modified_since =
            same_host (text_eq current_host requested_host) request.conditional.last_modified;
      })

    abbrev identity : Url → Result IngestionError Text
    identity url = or_fail (net.canonicalize_url (as_str url)) (error "invalid_url")

    unfoldable pub read_not_modified : Url → Url → Response → Result IngestionError FetchOutcome
    read_not_modified requested current response = do
      canonical_url ← identity current
      ok (
          not_modified (record {
            requested_url = as_str requested;
            canonical_url = canonical_url;
            final_url = as_str current;
            status = response.status;
            etag = or_else (header_string response.headers (codes "etag")) request.conditional.etag;
            last_modified =
                or_else (header_string response.headers (codes "last-modified"))
                  request.conditional.last_modified;
          }))

    -- the target of a redirect
    unfoldable pub redirect_target : Bool → Url → Response → Result IngestionError Url
    redirect_target is_last current response = do
      guard (not is_last) (error "redirect_limit")
      value ← or_fail (response.headers.header (codes "location")) (error "invalid_redirect")
      location ← or_fail value (error "invalid_redirect")
      redirected ← or_fail (join current location) (error "invalid_redirect")
      prepare_target_url crate (as_str redirected) request.scope

    abbrev pub document_of :
        Url → Url → Response → Text → List ℕ → Text → SemanticDocument → FetchedDocument
    document_of requested current response content_type body canonical_url semantic = record {
      metadata = record {
        requested_url = as_str requested;
        canonical_url = canonical_url;
        final_url = as_str current;
        status = response.status;
        etag = header_string response.headers (codes "etag");
        last_modified = header_string response.headers (codes "last-modified");
      };
      content_type = content_type;
      content_bytes = length body;
      content_sha256 = net.sha256_hex semantic.content_text;
      title = semantic.title;
      content_text = semantic.content_text;
      keywords = semantic.keywords;
      entities = semantic.entities;
      embedding_text = combined_embedding_text semantic;
      embedding_inputs = semantic.embedding_inputs;
    }

    -- the body of a response that is no redirect
    unfoldable pub read_document : Url → Url → Response → Result IngestionError FetchOutcome
    read_document requested current response = do
      guard (is_success response.status) (status_error response.status)
      length_header ← content_length response.headers
      guard (not (exceeds policy.max_response_bytes length_header)) (error "response_too_large")
      content_type ← content_type response.headers policy.require_content_type
      guard (is_allowed_content_type content_type) (error "unsupported_content_type")
      body ← read_bounded_body response.chunks policy.max_response_bytes
      canonical_url ← identity current
      semantic ←
          extract_semantic_document crate net.char_table net.from_slice content_type body
            canonical_url
      ok (changed (document_of requested current response content_type body canonical_url semantic))

    -- The loop: the iterations that are left, the number of this one, and the current URL. The result
    -- comes with the requests that went out.
    unfoldable pub follow :
        Url → Text → ℕ → ℕ → Url → Result IngestionError FetchOutcome × List Sent
    follow requested requested_host zero index current = (err (error "redirect_limit"), [])
    follow requested requested_host (suc left) index current =
        elim (prepare_request requested_host index current) [
          | err e ↦ (err e, [])
          | ok sent ↦ elim (net.send index sent) [
            | none ↦ (err (error "request_failed"), sent ∷ [])
            | some response ↦
                if response.status == 304
                then (read_not_modified requested current response, sent ∷ [])
                else if is_redirection response.status
                then elim (redirect_target (left == 0) current response) [
                  | err e ↦ (err e, sent ∷ [])
                  | ok target ↦
                      let (result, others) =
                        follow requested requested_host left (suc index) target in
                      (result, sent ∷ others)
                ]
                else (read_document requested current response, sent ∷ [])
          ]
        ]

    unfoldable pub fetch : Result IngestionError FetchOutcome × List Sent
    fetch = elim (prepare_target_url crate request.url request.scope) [
      | err e ↦ (err e, [])
      | ok requested ↦ elim (host_of crate requested) [
        | err e ↦ (err e, [])
        | ok host ↦
            follow requested (to_ascii_lowercase host) (suc policy.max_redirects) 0 requested
      ]
    ]

-- `HttpFetcher::new`, with no limiter of a host yet
unfoldable pub new_fetcher : FetchPolicy → Result IngestionError FetchPolicy
new_fetcher policy = validate_policy policy >>= λ _. ok policy
