-- ===== src/Tests/Fetches.antt =====
-- Runs of the scope and of a fetch that is redirected.
use eal_sync.Prelude.{
  ℕ, zero, suc, ◌≤◌, ◌≡◌, ◌↔◌, refl, true, false, [], ◌∷◌, none, some, All, length, if◌then◌else◌,
}
use eal_sync.Prelude.Text.{
  codes, text_eq, trim, trim_end, drop_while, drop_end_while, is_whitespace, is_control,
  to_ascii_lower, to_ascii_lowercase, byte_len, contains, starts_with, ends_with, strip_prefix,
  split, is_ascii_alphanumeric, is_ascii_alphabetic, is_ascii_digit,
}
use eal_sync.Prelude.Result.{ok}
use eal_sync.Net.Ip.{v4}
use eal_sync.Net.IpText.{parse_ip}
use eal_sync.Ingestion.Policy.{default_policy}
use eal_sync.Ingestion.Scope.{
  FetchScope, set_insert, is_label, normalize_host, is_ambiguous, path_matches_prefix, host_allowed,
  uses_default_port, allows_url, parse_http_url, prepare_target_url, normalize_path_prefix,
  allow_path_prefix,
}
use eal_sync.Ingestion.Scope.Laws.{IsAllowed, allows_url_iff}
use eal_sync.Ingestion.Headers.{HeaderMap}
use eal_sync.Ingestion.Fetch.{FetchRequest, Response, Internet, fetch}
use eal_sync.Ingestion.Fetch.Safe.{IsSafe, fetch-AllSafe, fetch_bound}
use eal_sync.Tests.Samples.{ascii_table, plain_crate, PlainUrl, parse_plain}

abbrev blog_scope : FetchScope
blog_scope = record {
  root_host = codes "a.bc";
  include_subdomains = false;
  explicitly_allowed_hosts = [];
  allowed_path_prefixes = codes "/blog" ∷ [];
  require_default_port = true;
}

abbrev wider_scope : FetchScope
wider_scope = record blog_scope { allowed_path_prefixes = codes "/r" ∷ codes "/blog" ∷ [] }

abbrev post_url : PlainUrl
post_url = record { is_https = true; host = codes "a.bc"; path = codes "/blog/post" }

allows_url_iff_example :
    (allows_url plain_crate blog_scope post_url ≡ true) ↔ IsAllowed plain_crate blog_scope post_url
allows_url_iff_example = allows_url_iff plain_crate blog_scope post_url

post_allowed : allows_url plain_crate blog_scope post_url ≡ true
unfolding allows_url host_allowed uses_default_port path_matches_prefix normalize_host is_label
    text_eq trim trim_end drop_while drop_end_while is_whitespace to_ascii_lowercase to_ascii_lower
    byte_len contains starts_with ends_with strip_prefix split is_ascii_alphanumeric
    is_ascii_alphabetic is_ascii_digit parse_ip
post_allowed = refl

adds_prefix : allow_path_prefix plain_crate blog_scope (codes "/r") ≡ ok wider_scope
unfolding allow_path_prefix normalize_path_prefix is_ambiguous set_insert parse_plain text_eq trim
    trim_end drop_while drop_end_while is_whitespace is_control to_ascii_lowercase to_ascii_lower
    contains starts_with strip_prefix
adds_prefix = refl

abbrev redirect_headers : HeaderMap
redirect_headers = record {
  header = λ name.
      if text_eq name (codes "location") then some (some (codes "https://a.bc/blog/new")) else none;
}

-- a server that redirects once, then answers with an error
abbrev answer : ℕ → Response
answer zero = record { status = 302; headers = redirect_headers; chunks = [] }
answer (suc n) = record { status = 500; headers = redirect_headers; chunks = [] }

abbrev test_net : Internet plain_crate
test_net = record {
  lookup = λ index host port. some (v4 (record { a = 1; b = 1; c = 1; d = 1 }) ∷ []);
  send = λ index sent. some (answer index);
  has_permit = λ host. true;
  builds = λ host address. true;
  canonicalize_url = λ url. some url;
  sha256_hex = λ text. text;
  from_slice = λ body. none;
  char_table = ascii_table;
}

abbrev blog_request : FetchRequest
blog_request = record {
  url = codes "https://a.bc/blog/post";
  scope = blog_scope;
  conditional = record { etag = some (codes "e1"); last_modified = none };
}

prepares : prepare_target_url plain_crate blog_request.url blog_scope ≡ ok post_url
unfolding prepare_target_url parse_http_url parse_plain allows_url host_allowed uses_default_port
    path_matches_prefix normalize_host is_label text_eq trim trim_end drop_while drop_end_while
    is_whitespace to_ascii_lowercase to_ascii_lower byte_len contains starts_with ends_with
    strip_prefix split is_ascii_alphanumeric is_ascii_alphabetic is_ascii_digit parse_ip
prepares = refl

fetch-AllSafe_example :
    All
      (IsSafe plain_crate test_net default_policy blog_request (to_ascii_lowercase (codes "a.bc")))
      (fetch plain_crate test_net default_policy blog_request).1
fetch-AllSafe_example =
    fetch-AllSafe plain_crate test_net default_policy blog_request post_url (codes "a.bc") prepares
      refl

fetch_bound_example : length (fetch plain_crate test_net default_policy blog_request).1 ≤ 6
fetch_bound_example = fetch_bound plain_crate test_net default_policy blog_request
