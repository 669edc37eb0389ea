-- ===== src/Runtime/Api.antt =====
-- `IngestApiClient` of runtime-worker/src/api.rs. reqwest, the url crate and serde_json are arguments:
-- what they answer to a call.
pub mod Laws
use eal_sync.Prelude.{
  ℕ, Bool, false, not, ◌&&◌, ◌||◌, List, [], ◌∷◌, ◌++◌, Option, none, some, ltb, within, take, keep,
  if◌then◌else◌,
}
use eal_sync.Prelude.Text.{Text, codes, text_eq, trim, byte_len, is_control, is_some, is_empty}
use eal_sync.Prelude.Json.{
  Json, null, string, number, pos_int, object, field, end, get, as_str, as_object,
}
use eal_sync.Prelude.Result.{Result, ok, err, guard, or_fail, map_err, ◌>>=◌, ◌>>◌}
use eal_sync.Net.Ip.{IpAddr, v4, v6, is_loopback_v4, is_loopback_v6}
use eal_sync.Net.IpText.{parse_ip}
use eal_sync.Net.Url.{UrlCrate}
use eal_sync.Net.Body.{read_bounded}
use eal_sync.Runtime.PublicUrl.{eq_ignore_ascii_case}
use eal_sync.Runtime.Envelope.{and_then}

pub record IngestApiError : Type 0 where
  pub code : Text
  pub status : Option ℕ
  pub message : Text

unfoldable pub configuration : Text → IngestApiError
configuration message = record {
  code = codes "api_configuration";
  status = none;
  message = message;
}

unfoldable pub transport : Text → IngestApiError
transport message = record { code = codes "api_transport"; status = none; message = message }

unfoldable pub response_error : ℕ → Text → IngestApiError
response_error status message = record {
  code = codes "api_response";
  status = some status;
  message = message;
}

abbrev status_json : Option ℕ → Json
status_json none = null
status_json (some status) = number (pos_int status)

-- `IngestApiError::diagnostic`
unfoldable pub api_diagnostic : IngestApiError → Json
api_diagnostic e = object (
    field (codes "error_code") (string e.code) (
      field (codes "status") (status_json e.status)
        (field (codes "message") (string (take 500 e.message)) end)))

unfoldable pub is_loopback : IpAddr → Bool
is_loopback (v4 address) = is_loopback_v4 address
is_loopback (v6 address) = is_loopback_v6 address

abbrev is_loopback_address : Option IpAddr → Bool
is_loopback_address none = false
is_loopback_address (some address) = is_loopback address

unfoldable pub is_loopback_host : Text → Bool
is_loopback_host host =
    eq_ignore_ascii_case host (codes "localhost") || is_loopback_address (parse_ip host)

abbrev is_success : ℕ → Bool
is_success status = within 200 299 status

abbrev is_redirection : ℕ → Bool
is_redirection status = within 300 399 status

-- `sanitize` keeps at most 300 characters and no control character.
unfoldable pub sanitize : Text → Text
sanitize value = take 300 (keep (λ c. not (is_control c)) value)

abbrev sanitized_or : Option Text → Text → Text
sanitized_or none default = default
sanitized_or (some value) default = sanitize value

-- `value.get(key).and_then(Value::as_str)`
abbrev str_at : Text → Json → Option Text
str_at key value = and_then (and_then (as_object value) (get key)) as_str

unfoldable pub safe_error_message : Json → Text
safe_error_message value =
    sanitized_or (str_at (codes "code") value) (codes "api_error")
    ++ codes ": "
    ++ sanitized_or (str_at (codes "message") value) (codes "the API rejected the page revision")

pub record Options : Type 0 where
  pub base_url : Text
  pub allow_loopback_http : Bool
  pub timeout_seconds : ℕ
  pub response_limit_bytes : ℕ
  pub ingest_token : Text

pub record Response : Type 0 where
  pub status : ℕ
  pub content_length : Option ℕ
  pub chunks : List (Result Text (List ℕ))

abbrev exceeds : ℕ → Option ℕ → Bool
exceeds limit none = false
exceeds limit (some length) = ltb limit length

-- the scheme of the base URL against its host
unfoldable pub check_scheme : Text → Text → Bool → Result IngestApiError (Unit {0})
check_scheme scheme host allow_loopback_http =
    if text_eq scheme (codes "https")
    then ok tt
    else if text_eq scheme (codes "http") && (allow_loopback_http && is_loopback_host host)
    then ok tt
    else if text_eq scheme (codes "http")
    then err
        (configuration (codes "plain HTTP is allowed only for an explicitly enabled loopback API"))
    else err (configuration (codes "API base URL must use HTTPS"))

module _ (crate : UrlCrate) where
  open crate use {Url, parse, scheme, username, password, host_str, path, query, fragment, join}

  pub record IngestApiClient : Type 0 where
    pub base_url : crate.Url
    pub ingest_token : Text
    pub response_limit_bytes : ℕ

  -- What reqwest and http answer: whether a text is a header value, whether a client can be built
  -- with a timeout, and `set_path`.
  pub record ClientBuilder : Type 0 where
    pub is_header_value : Text → Bool
    pub build : ℕ → Result Text (Unit {0})
    pub with_path : crate.Url → Text → crate.Url

  unfoldable pub new_client : ClientBuilder → Options → Result IngestApiError IngestApiClient
  new_client builder options = do
    guard (within 1 120 options.timeout_seconds)
        (configuration (codes "API timeout must be between 1 and 120 seconds"))
    guard (within 65_536 16_777_216 options.response_limit_bytes)
        (configuration (codes "API response limit must be between 65536 and 16777216 bytes"))
    guard
        (text_eq (trim options.ingest_token) options.ingest_token
          && within 32 512 (byte_len options.ingest_token))
        (configuration (
          codes "ingest token must contain 32 to 512 bytes without leading or trailing whitespace"))
    guard (builder.is_header_value options.ingest_token)
        (configuration (codes "ingest token contains invalid HTTP header bytes"))
    base_url ←
        or_fail (parse (trim options.base_url)) (configuration (codes "invalid API base URL"))
    guard
        (not (
          not (is_empty (username base_url))
          || is_some (password base_url)
          || is_some (query base_url)
          || is_some (fragment base_url)))
        (configuration
          (codes "API base URL must not contain credentials, query parameters, or fragments"))
    host ← or_fail (host_str base_url) (configuration (codes "API base URL must contain a host"))
    check_scheme (scheme base_url) host options.allow_loopback_http
    guard (text_eq (path base_url) (codes "/") || is_empty (path base_url))
        (configuration (codes "API base URL must not contain a path prefix"))
    map_err configuration (builder.build options.timeout_seconds)
    ok (record {
      base_url = builder.with_path base_url (codes "/");
      ingest_token = options.ingest_token;
      response_limit_bytes = options.response_limit_bytes;
    })

  -- What the network answers to the POST, and how serde_json reads the body.
  pub record Api : Type 0 where
    pub show_uuid : ℕ → Text
    pub post : crate.Url → ℕ → Text → Json → Result Text Response
    pub from_slice : List ℕ → Result Text Json

  -- an empty body is `null`
  abbrev read_value : Api → ℕ → List ℕ → Result IngestApiError Json
  read_value api status [] = ok null
  read_value api status (b ∷ bytes) =
      map_err (λ e. response_error status (codes "API returned invalid JSON: " ++ e))
        (api.from_slice (b ∷ bytes))

  -- the checks on a response that has arrived
  unfoldable pub read_response : Api → ℕ → Response → Result IngestApiError Json
  read_response api limit response = do
    guard (not (is_redirection response.status))
        (response_error response.status (codes "API redirects are blocked"))
    guard (not (exceeds limit response.content_length))
        (response_error response.status (codes "API response exceeded the byte limit"))
    bytes ←
        read_bounded transport
          (response_error response.status (codes "API response exceeded the byte limit")) limit
          response.chunks
    value ← read_value api response.status bytes
    guard (is_success response.status) (response_error response.status (safe_error_message value))
    ok value

  unfoldable pub ingest_page : Api → IngestApiClient → ℕ → ℕ → Json → Result IngestApiError Json
  ingest_page api client tenant_id source_id payload = do
    url ←
        or_fail
          (join client.base_url (codes "v1/sources/" ++ api.show_uuid source_id ++ codes "/pages"))
          (configuration (codes "invalid page URL"))
    response ← map_err transport (api.post url tenant_id client.ingest_token payload)
    read_response api client.response_limit_bytes response
