-- ===== src/Runtime/Api/Laws.antt =====
-- Which API a client talks to, and which answers it takes.
use eal_sync.Prelude.{◌≡◌, ◌⊎◌, Bool, true, some, arith, Bool-cases, Option-cases, within, inl, inr}
use eal_sync.Prelude.Text.{Text, codes, text_eq, text_eq→eq, trim, byte_len}
use eal_sync.Prelude.Result.{ok, Result-cases}
use eal_sync.Net.Url.{UrlCrate}
use eal_sync.Runtime.Api.{
  Options, is_loopback_host, check_scheme, IngestApiClient, ClientBuilder, new_client,
}

check_scheme_sound :
    (scheme host : Text) (allow : Bool)
    → check_scheme scheme host allow ≡ ok tt
    → (scheme ≡ codes "https")
      ⊎ ((scheme ≡ codes "http") × (allow ≡ true) × (is_loopback_host host ≡ true))
unfolding check_scheme
check_scheme_sound scheme host allow e = elim (Bool-cases (text_eq scheme (codes "https"))) [
  | inl secure ↦ inl (text_eq→eq scheme (codes "https") secure)
  | inr other ↦ elim (Bool-cases (text_eq scheme (codes "http"))) [
    | inl plain ↦ inr (
      text_eq→eq scheme (codes "http") plain,
      ground (arith, other, plain),
      ground (arith, other, plain),
    )
    | inr unknown ↦ absurd (ground (arith, other, unknown))
  ]
]

-- `Url::set_path` changes neither the scheme nor the host.
abbrev pub KeepsOrigin : (crate : UrlCrate) → ClientBuilder crate → Type 0
KeepsOrigin crate builder =
    (url : crate.Url) (path : Text)
    → (crate.scheme (builder.with_path url path) ≡ crate.scheme url)
      × (crate.host_str (builder.with_path url path) ≡ crate.host_str url)

module _ (crate : UrlCrate) (builder : ClientBuilder crate) (options : Options) where
  -- The base URL of the client is the one that was given, with `/` for its path, and is HTTPS, or plain
  -- HTTP to a loopback host where that is enabled; its token and its limit are those that were given.
  pub record IsTrusted (client : IngestApiClient crate) : Type 0 where
    pub given : crate.Url
    pub host : Text
    pub parsed : crate.parse (trim options.base_url) ≡ some given
    pub stored : client.base_url ≡ builder.with_path given (codes "/")
    pub has_host : crate.host_str client.base_url ≡ some host
    pub secure :
        (crate.scheme client.base_url ≡ codes "https")
        ⊎ ((crate.scheme client.base_url ≡ codes "http")
            × (options.allow_loopback_http ≡ true)
            × (is_loopback_host host ≡ true))
    pub same_token : client.ingest_token ≡ options.ingest_token
    pub token : within 32 512 (byte_len client.ingest_token) ≡ true
    pub same_limit : client.response_limit_bytes ≡ options.response_limit_bytes
    pub limit : within 65_536 16_777_216 client.response_limit_bytes ≡ true

  -- Where `Url::set_path` keeps the scheme and the host, a client that can be made has as its base URL
  -- the one of the options with the path `/`, and this is HTTPS, or HTTP to a loopback host where the
  -- options allow it; its token is that of the options, of 32 to 512 bytes, and its response limit that
  -- of the options, of 64 KiB to 16 MiB.
  pub new_client-IsTrusted :
      (client : IngestApiClient crate)
      → KeepsOrigin crate builder
      → new_client crate builder options ≡ ok client
      → IsTrusted client
  unfolding new_client
  new_client-IsTrusted client keeps e = elim (Option-cases (crate.parse (trim options.base_url))) [
    | inl malformed ↦ absurd (ground (arith, malformed))
    | inr (given, parsed) ↦ elim (Option-cases (crate.host_str given)) [
      | inl no_host ↦ absurd (ground (arith, parsed, no_host))
      | inr (host, has_host) ↦
          elim (Result-cases (check_scheme (crate.scheme given) host options.allow_loopback_http)) [
            | inl (x, refused) ↦ absurd (ground (arith, parsed, has_host, refused))
            | inr (u, scheme_ok) ↦ elim (Result-cases (builder.build options.timeout_seconds)) [
              | inl (x, failed) ↦ absurd (ground (arith, parsed, has_host, scheme_ok, failed))
              | inr (v, built) ↦
                  let (same_scheme, same_host) = keeps given (codes "/") in
                  let stored : client.base_url ≡ builder.with_path given (codes "/") =
                    ground (arith, parsed, has_host, scheme_ok, built) in
                  record {
                    given = given;
                    host = host;
                    parsed = parsed;
                    stored = stored;
                    has_host = rw (stored, same_host) has_host;
                    secure =
                        rw (stored, same_scheme)
                          (check_scheme_sound (crate.scheme given) host options.allow_loopback_http
                            scheme_ok);
                    same_token = ground (arith, parsed, has_host, scheme_ok, built);
                    token = ground (arith, parsed, has_host, scheme_ok, built);
                    same_limit = ground (arith, parsed, has_host, scheme_ok, built);
                    limit = ground (arith, parsed, has_host, scheme_ok, built);
                  }
            ]
          ]
    ]
  ]
