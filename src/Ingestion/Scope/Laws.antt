-- ===== src/Ingestion/Scope/Laws.antt =====
-- What a scope allows.
use eal_sync.Prelude.{
  ◌⊎◌, ◌≡◌, ◌↔◌, subst, true, false, not, ◌&&◌, List, arith, Bool-cases, inl, inr,
}
use eal_sync.Prelude.Text.{Text}
use eal_sync.Prelude.Result.{ok, Result-cases, ◌>>=◌}
use eal_sync.Prelude.Member.{Member, any-Member, Member-any}
use eal_sync.Net.Url.{UrlCrate}
use eal_sync.Ingestion.Scope.{
  FetchScope, set_contains, set_insert, host_of, normalize_host, uses_default_port, allows_url,
  path_matches_prefix, allow_path_prefix, normalize_path_prefix,
}
use eal_sync.Ingestion.Scope.Paths.{Covers, path_matches_prefix_iff}
use eal_sync.Ingestion.Scope.Known.{
  IsKnownHost, host_allowed_iff, HasDefaultPort, uses_default_port_iff,
}

module _ (crate : UrlCrate) (scope : FetchScope) (url : crate.Url) where
  open crate use {path}

  -- The host of a URL is normal and known, its port is the scheme's own where the scope asks for that,
  -- and some prefix of the scope covers its path.
  pub record IsAllowed : Type 0 where
    pub host : Text
    pub normal : (host_of crate url >>= normalize_host) ≡ ok host
    pub known : IsKnownHost scope host
    pub default_port : (scope.require_default_port ≡ false) ⊎ HasDefaultPort crate url
    pub prefix : Text
    pub listed : Member prefix scope.allowed_path_prefixes
    pub covered : Covers prefix (path url)

  port_ok :
      (scope.require_default_port && not (uses_default_port crate url)) ≡ false
      → (scope.require_default_port ≡ false) ⊎ HasDefaultPort crate url
  port_ok h = elim (Bool-cases scope.require_default_port) [
    | inl asked ↦ inr ((uses_default_port_iff crate url).0 (ground (arith, asked)))
    | inr free ↦ inl free
  ]

  ok_port :
      (scope.require_default_port ≡ false) ⊎ HasDefaultPort crate url
      → (scope.require_default_port && not (uses_default_port crate url)) ≡ false
  ok_port (inl free) = ground (arith, free)
  ok_port (inr default) = ground (arith, (uses_default_port_iff crate url).1 default)

  allowed-IsAllowed : allows_url crate scope url ≡ true → IsAllowed
  unfolding allows_url
  allowed-IsAllowed h = elim (Result-cases (host_of crate url >>= normalize_host)) [
    | inl (e, refused) ↦ absurd (ground (arith, refused))
    | inr (host, normal) ↦
        let (prefix, listed, matches) =
          any-Member (path_matches_prefix (path url)) scope.allowed_path_prefixes
            (ground (arith, normal)) in
        record {
          host = host;
          normal = normal;
          known = (host_allowed_iff scope host).0 (ground (arith, normal));
          default_port = port_ok (ground (arith, normal));
          prefix = prefix;
          listed = listed;
          covered = (path_matches_prefix_iff (path url) prefix).0 matches;
        }
  ]

  IsAllowed-allowed : IsAllowed → allows_url crate scope url ≡ true
  unfolding allows_url
  IsAllowed-allowed a =
      rw (a.normal, allows_url, (host_allowed_iff scope a.host).1 a.known, ok_port a.default_port)
        (Member-any (path_matches_prefix (path url)) scope.allowed_path_prefixes a.listed
          ((path_matches_prefix_iff (path url) a.prefix).1 a.covered))

  -- A URL is allowed exactly when its host in normal form is the host of the scope, one of those that
  -- are allowed by name or, where subdomains belong to the scope, ends with a dot and the host of the
  -- scope; it has no port, or the port 80 of `http` or 443 of `https`, where the scope asks for that;
  -- and its path is a prefix of the scope less the slashes at its end, or continues that after a slash,
  -- or the scope has the prefix `/`.
  pub allows_url_iff : (allows_url crate scope url ≡ true) ↔ IsAllowed
  allows_url_iff = (allowed-IsAllowed, IsAllowed-allowed)

Member-set_insert : (x s : Text) (set : List Text) → Member x set → Member x (set_insert s set)
unfolding set_insert
Member-set_insert x s set m = elim (Bool-cases (set_contains s set)) [
  | inl there ↦ rw (there, set_insert) m
  | inr new ↦ rw (new, set_insert) (inr m)
]

module _ (crate : UrlCrate) (scope : FetchScope) (url : crate.Url) (normalized : Text) where
  abbrev grown_paths : FetchScope
  grown_paths = record scope {
    allowed_path_prefixes = set_insert normalized scope.allowed_path_prefixes;
  }

  grown_paths-IsAllowed : IsAllowed crate scope url → IsAllowed crate grown_paths url
  grown_paths-IsAllowed a = record {
    host = a.host;
    normal = a.normal;
    known = a.known;
    default_port = a.default_port;
    prefix = a.prefix;
    listed = Member-set_insert a.prefix normalized scope.allowed_path_prefixes a.listed;
    covered = a.covered;
  }

module _ (crate : UrlCrate) (scope wider : FetchScope) (url : crate.Url) where
  -- A prefix that is added leaves what was allowed before allowed.
  allow_path_prefix-keeps :
      (prefix : Text)
      → allow_path_prefix crate scope prefix ≡ ok wider
      → allows_url crate scope url ≡ true
      → allows_url crate wider url ≡ true
  unfolding allow_path_prefix
  allow_path_prefix-keeps prefix e h = elim (Result-cases (normalize_path_prefix crate prefix)) [
    | inl (x, refused) ↦ absurd (ground (arith, refused))
    | inr (normalized, normal) ↦
        let grown : grown_paths crate scope url normalized ≡ wider = ground (arith, normal) in
        subst (λ s. allows_url crate s url ≡ true) grown
          ((allows_url_iff crate (grown_paths crate scope url normalized) url).1 (
            grown_paths-IsAllowed crate scope url normalized
              ((allows_url_iff crate scope url).0 h)))
  ]
