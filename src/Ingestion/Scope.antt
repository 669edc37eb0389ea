-- ===== src/Ingestion/Scope.antt =====
-- `FetchScope` of src/ingestion/network/policy.rs and the checks of a target in
-- src/ingestion/network/safety.rs. A `BTreeSet` is the list of its members: the code asks only whether
-- a text is one, and whether one of them passes a test.
pub mod Hosts
pub mod Paths
pub mod Known
pub mod Laws
use eal_sync.Prelude.{
  ℕ, Bool, true, false, not, ◌&&◌, ◌||◌, List, [], ◌∷◌, ◌++◌, Option, none, some, ◌==◌, ltb, leb,
  all, any, is_some_of, if◌then◌else◌,
}
use eal_sync.Prelude.Text.{
  Text, codes, text_eq, trim, drop_end_while, to_ascii_lowercase, is_ascii_alphanumeric, is_control,
  byte_len, is_empty, is_some, starts_with, ends_with, strip_prefix, strip_suffix, contains, split,
}
use eal_sync.Prelude.Result.{Result, ok, err, guard, or_fail, ◌>>=◌, ◌>>◌}
use eal_sync.Net.IpText.{parse_ip}
use eal_sync.Net.Url.{UrlCrate}
use eal_sync.Ingestion.Error.{IngestionError, error}

pub record FetchScope : Type 0 where
  pub root_host : Text
  pub include_subdomains : Bool
  pub explicitly_allowed_hosts : List Text
  pub allowed_path_prefixes : List Text
  pub require_default_port : Bool

-- `BTreeSet::contains` and `BTreeSet::insert`
abbrev pub set_contains : Text → List Text → Bool
set_contains s set = any (text_eq s) set

unfoldable pub set_insert : Text → List Text → List Text
set_insert s set = if set_contains s set then set else s ∷ set

unfoldable pub is_label : Text → Bool
is_label label =
    not (is_empty label)
    && leb (byte_len label) 63
    && not (starts_with (b'-' ∷ []) label)
    && not (ends_with (b'-' ∷ []) label)
    && all (λ c. is_ascii_alphanumeric c || c == b'-') label

abbrev pub is_dot : ℕ → Bool
is_dot c = c == b'.'

unfoldable pub normalize_host : Text → Result IngestionError Text
normalize_host host =
    let normalized = to_ascii_lowercase (drop_end_while is_dot (trim host)) in
    let labels_are_valid = all is_label (split b'.' normalized) in
    if is_empty normalized
      || ltb 253 (byte_len normalized)
      || not (contains (b'.' ∷ []) normalized)
      || contains (b'*' ∷ []) normalized
      || is_some (parse_ip normalized)
      || not labels_are_valid
    then err (error "invalid_host")
    else ok normalized

abbrev pub is_query_char : ℕ → Bool
is_query_char c = c == b'?' || c == b'#' || c == b'\\'

-- the test that `normalize_path_prefix` makes before it parses
unfoldable pub is_ambiguous : Text → Bool
is_ambiguous trimmed =
    let lower = to_ascii_lowercase trimmed in
    is_empty trimmed
    || not (starts_with (codes "/") trimmed)
    || any is_query_char trimmed
    || any is_control trimmed
    || contains (codes "//") trimmed
    || contains (codes "%2e") lower
    || contains (codes "%2f") lower
    || contains (codes "%5c") lower

abbrev pub is_slash : ℕ → Bool
is_slash c = c == b'/'

unfoldable pub path_matches_prefix : Text → Text → Bool
path_matches_prefix path prefix =
    let boundary = drop_end_while is_slash prefix in
    if text_eq prefix (codes "/")
    then true
    else text_eq path boundary || (elim (strip_prefix boundary path) [
      | none ↦ false
      | some suffix ↦ starts_with (codes "/") suffix
    ])

-- the host as `allows_url` tests it
unfoldable pub host_allowed : FetchScope → Text → Bool
host_allowed scope host =
    text_eq host scope.root_host
    || set_contains host scope.explicitly_allowed_hosts
    || (scope.include_subdomains && (elim (strip_suffix scope.root_host host) [
      | none ↦ false
      | some prefix ↦ ends_with (codes ".") prefix && not (is_empty prefix)
    ]))

-- `is_none_or(|port| port == default)`
abbrev pub none_or : ℕ → Option ℕ → Bool
none_or n none = true
none_or n (some m) = m == n

module _ (crate : UrlCrate) where
  open crate use {Url, parse, scheme, username, password, host_str, port, path, without_fragment}

  unfoldable pub uses_default_port : Url → Bool
  uses_default_port url =
      (text_eq (scheme url) (codes "http") && none_or 80 (port url))
      || (text_eq (scheme url) (codes "https") && none_or 443 (port url))

  abbrev pub host_of : Url → Result IngestionError Text
  host_of url = or_fail (host_str url) (error "invalid_url")

  unfoldable pub allows_url : FetchScope → Url → Bool
  allows_url scope url = elim (host_of url >>= normalize_host) [
    | err e ↦ false
    | ok host ↦
        if not (host_allowed scope host)
          || (scope.require_default_port && not (uses_default_port url))
        then false
        else any (path_matches_prefix (path url)) scope.allowed_path_prefixes
  ]

  unfoldable pub parse_http_url : Text → Result IngestionError Url
  parse_http_url input = do
    url ← or_fail (parse (trim input)) (error "invalid_url")
    guard (text_eq (scheme url) (codes "http") || text_eq (scheme url) (codes "https"))
        (error "invalid_url")
    guard (not (not (is_empty (username url)) || is_some (password url))) (error "invalid_url")
    guard (is_some (host_str url)) (error "invalid_url")
    ok (without_fragment url)

  unfoldable pub prepare_target_url : Text → FetchScope → Result IngestionError Url
  prepare_target_url input scope = do
    url ← parse_http_url input
    guard (allows_url scope url) (error "out_of_scope")
    ok url

  unfoldable pub normalize_path_prefix : Text → Result IngestionError Text
  normalize_path_prefix prefix = do
    guard (not (is_ambiguous (trim prefix))) (error "invalid_path_scope")
    parsed ←
        or_fail (parse (codes "https://scope.invalid" ++ trim prefix)) (error "invalid_path_scope")
    ok (path parsed)

  unfoldable pub for_url : Text → Result IngestionError FetchScope
  for_url url = do
    parsed ← parse_http_url url
    host ← host_of parsed
    root_host ← normalize_host host
    prefix ← normalize_path_prefix (path parsed)
    ok (record {
      root_host = root_host;
      include_subdomains = false;
      explicitly_allowed_hosts = [];
      allowed_path_prefixes = prefix ∷ [];
      require_default_port = true;
    })

  unfoldable pub allow_host : FetchScope → Text → Result IngestionError FetchScope
  allow_host scope host = do
    normalized ← normalize_host host
    ok (record scope {
      explicitly_allowed_hosts = set_insert normalized scope.explicitly_allowed_hosts;
    })

  unfoldable pub allow_path_prefix : FetchScope → Text → Result IngestionError FetchScope
  allow_path_prefix scope prefix = do
    normalized ← normalize_path_prefix prefix
    ok (record scope { allowed_path_prefixes = set_insert normalized scope.allowed_path_prefixes })

  -- the loop of `set_allowed_path_prefixes`
  unfoldable pub normalize_prefixes : List Text → List Text → Result IngestionError (List Text)
  normalize_prefixes normalized [] = ok normalized
  normalize_prefixes normalized (prefix ∷ prefixes) = do
    next ← normalize_path_prefix prefix
    normalize_prefixes (set_insert next normalized) prefixes

  unfoldable pub set_allowed_path_prefixes :
      FetchScope → List Text → Result IngestionError FetchScope
  set_allowed_path_prefixes scope prefixes = do
    normalized ← normalize_prefixes [] prefixes
    guard (not (is_nil normalized)) (error "invalid_path_scope")
    ok (record scope { allowed_path_prefixes = normalized })
    where
      is_nil : List Text → Bool
      is_nil [] = true
      is_nil (p ∷ ps) = false
