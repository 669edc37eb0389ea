-- ===== src/CrawlOnce/Request.antt =====
-- What the environment of src/bin/crawl_once.rs lets a one-shot crawl fetch.
use eal_sync.Prelude.{
  ◌≡◌, refl, sym, ap, subst, ◌∙◌, ◌⊎◌, List, [], ◌∷◌, Option, none, some, All, Bool-cases, inl, inr,
}
use eal_sync.Prelude.Text.{Text, codes}
use eal_sync.Prelude.Result.{ok, Result-cases, ok_injective, err_is_not_ok}
use eal_sync.Prelude.Member.{Member}
use eal_sync.Net.Url.{UrlCrate}
use eal_sync.Ingestion.Scope.{
  FetchScope, host_of, parse_http_url, normalize_host, normalize_path_prefix, set_contains,
  set_insert, for_url, allow_host, set_allowed_path_prefixes, normalize_prefixes,
}
use eal_sync.Ingestion.Fetch.{FetchRequest}
use eal_sync.CrawlOnce.{
  Env, required_env, env_bool, comma_list, or_default, nonempty_env, allow_hosts, restrict_paths,
  read_request,
}

All-set_insert :
    (P : Text → Type 0) (s : Text) (set : List Text) → P s → All P set → All P (set_insert s set)
unfolding set_insert
All-set_insert P s set p h = elim (Bool-cases (set_contains s set)) [
  | inl there ↦ rw (there, set_insert) h
  | inr new ↦ rw (new, set_insert) (p, h)
]

module _ (crate : UrlCrate) (env : Env) where
  abbrev pub listed_hosts : List Text
  listed_hosts = comma_list (or_default (env (codes "EAL_CRAWL_ALLOWED_HOSTS")))

  -- A host that `EAL_CRAWL_ALLOWED_HOSTS` lists, in its normal form.
  abbrev pub IsNamedHost : Text → Type 0
  IsNamedHost host = (entry : Text) × Member entry listed_hosts × (normalize_host entry ≡ ok host)

  -- A path prefix that the list has, in its normal form.
  abbrev pub IsNamedPath : Text → Text → Type 0
  IsNamedPath prefixes prefix =
      (entry : Text) × Member entry (comma_list prefixes)
      × (normalize_path_prefix crate entry ≡ ok prefix)

  -- The scope is that of its URL, `base`, but for what the environment names: whether subdomains
  -- belong to it, further hosts, and the path prefixes, which are those of the URL if none are named.
  pub record IsWithin (base scope : FetchScope) : Type 0 where
    pub root_host : scope.root_host ≡ base.root_host
    pub default_port : scope.require_default_port ≡ base.require_default_port
    pub subdomains :
        env_bool env (codes "EAL_CRAWL_INCLUDE_SUBDOMAINS") ≡ ok scope.include_subdomains
    pub hosts : All IsNamedHost scope.explicitly_allowed_hosts
    pub paths :
        ((nonempty_env env (codes "EAL_CRAWL_ALLOWED_PATH_PREFIXES") ≡ none)
          × (scope.allowed_path_prefixes ≡ base.allowed_path_prefixes))
        ⊎ (prefixes : Text) × (nonempty_env env (codes "EAL_CRAWL_ALLOWED_PATH_PREFIXES")
            ≡ some prefixes)
          × All (IsNamedPath prefixes) scope.allowed_path_prefixes

  for_url-alone :
      (url : Text) {base : FetchScope}
      → for_url crate url ≡ ok base
      → base.explicitly_allowed_hosts ≡ []
  unfolding for_url
  for_url-alone url e = elim (Result-cases (parse_http_url crate url)) [
    | inl (_, x) ↦ absurd (err_is_not_ok (rw x at e))
    | inr (parsed, a) ↦ elim (Result-cases (host_of crate parsed)) [
      | inl (_, x) ↦ absurd (err_is_not_ok (rw (a, x) at e))
      | inr (host, b) ↦ elim (Result-cases (normalize_host host)) [
        | inl (_, x) ↦ absurd (err_is_not_ok (rw (a, b, x) at e))
        | inr (root_host, c) ↦
            elim (Result-cases (normalize_path_prefix crate (crate.path parsed))) [
              | inl (_, x) ↦ absurd (err_is_not_ok (rw (a, b, c, x) at e))
              | inr (prefix, d) ↦
                  ap (λ (s : FetchScope). s.explicitly_allowed_hosts)
                    (sym (ok_injective (rw (a, b, c, d) at e)))
            ]
      ]
    ]
  ]

  -- What a scope keeps while hosts are added to it.
  abbrev IsWidened : FetchScope → FetchScope → Type 0
  IsWidened scope wider =
      (wider.root_host ≡ scope.root_host)
      × (wider.require_default_port ≡ scope.require_default_port)
      × (wider.include_subdomains ≡ scope.include_subdomains)
      × (wider.allowed_path_prefixes ≡ scope.allowed_path_prefixes)
      × All IsNamedHost wider.explicitly_allowed_hosts

  allow_hosts-IsWidened :
      (first scope : FetchScope) (hosts : List Text) {wider : FetchScope}
      → ((entry : Text) → Member entry hosts → Member entry listed_hosts)
      → IsWidened first scope
      → allow_hosts crate env scope hosts ≡ ok wider
      → IsWidened first wider
  unfolding allow_hosts allow_host
  allow_hosts-IsWidened first scope [] listed h e = subst (IsWidened first) (ok_injective e) h
  allow_hosts-IsWidened first scope (host ∷ hosts) listed (r, d, i, p, h) e =
      elim (Result-cases (normalize_host host)) [
        | inl (_, x) ↦ absurd (err_is_not_ok (rw x at e))
        | inr (normalized, a) ↦
            allow_hosts-IsWidened first
              (record scope {
                explicitly_allowed_hosts = set_insert normalized scope.explicitly_allowed_hosts;
              })
              hosts (λ entry m. listed entry (inr m))
              (
                r,
                d,
                i,
                p,
                All-set_insert IsNamedHost normalized scope.explicitly_allowed_hosts
                    (host, listed host (inl refl), a) h,
              )
              (rw a at e)
      ]

  normalize_prefixes-named :
      (prefixes : Text) (normalized entries : List Text) {found : List Text}
      → ((entry : Text) → Member entry entries → Member entry (comma_list prefixes))
      → All (IsNamedPath prefixes) normalized
      → normalize_prefixes crate normalized entries ≡ ok found
      → All (IsNamedPath prefixes) found
  unfolding normalize_prefixes
  normalize_prefixes-named prefixes normalized [] listed h e =
      subst (λ r. All (IsNamedPath prefixes) r) (ok_injective e) h
  normalize_prefixes-named prefixes normalized (entry ∷ entries) listed h e =
      elim (Result-cases (normalize_path_prefix crate entry)) [
        | inl (_, x) ↦ absurd (err_is_not_ok (rw x at e))
        | inr (next, a) ↦
            normalize_prefixes-named prefixes (set_insert next normalized) entries
              (λ other m. listed other (inr m))
              (All-set_insert (IsNamedPath prefixes) next normalized
                (entry, listed entry (inl refl), a) h)
              (rw a at e)
      ]

  module _ (base first wider : FetchScope)
      (subdomains : env_bool env (codes "EAL_CRAWL_INCLUDE_SUBDOMAINS")
        ≡ ok first.include_subdomains)
      (kept : (first.root_host ≡ base.root_host)
        × (first.require_default_port ≡ base.require_default_port)
        × (first.allowed_path_prefixes ≡ base.allowed_path_prefixes))
      (widened : IsWidened first wider) where
    restrict_paths-IsWithin :
        (named : Option Text) {restricted : FetchScope}
        → nonempty_env env (codes "EAL_CRAWL_ALLOWED_PATH_PREFIXES") ≡ named
        → restrict_paths crate env wider named ≡ ok restricted
        → IsWithin base restricted
    unfolding restrict_paths set_allowed_path_prefixes
    restrict_paths-IsWithin none unnamed e =
        let (r, d, i, p, h) = widened in
        let (root, port, path_) = kept in
        subst (IsWithin base) (ok_injective e) (record {
          root_host = r ∙ root;
          default_port = d ∙ port;
          subdomains = subdomains ∙ ap (λ b. ok b) (sym i);
          hosts = h;
          paths = inl (unnamed, p ∙ path_);
        })
    restrict_paths-IsWithin (some prefixes) named e =
        let (r, d, i, p, h) = widened in
        let (root, port, path_) = kept in
        elim (Result-cases (normalize_prefixes crate [] (comma_list prefixes))) [
          | inl (_, x) ↦ absurd (err_is_not_ok (rw x at e))
          | inr ([], a) ↦ absurd (err_is_not_ok (rw a at e))
          | inr (next ∷ more, a) ↦ subst (IsWithin base) (ok_injective (rw a at e)) (record {
            root_host = r ∙ root;
            default_port = d ∙ port;
            subdomains = subdomains ∙ ap (λ b. ok b) (sym i);
            hosts = h;
            paths = inr (
              prefixes,
              named,
              normalize_prefixes-named prefixes [] (comma_list prefixes) (λ entry m. m) tt a,
            );
          })
        ]

  -- A one-shot crawl fetches the URL that the environment gives, in a scope that keeps to that URL's
  -- host and to the default port as `for_url` sets them. Subdomains belong to it only as
  -- `EAL_CRAWL_INCLUDE_SUBDOMAINS` says, each further host is the normal form of one that
  -- `EAL_CRAWL_ALLOWED_HOSTS` lists, and its path prefixes are that of the URL, unless
  -- `EAL_CRAWL_ALLOWED_PATH_PREFIXES` is set: then each is the normal form of one that is listed there.
  pub read_request-IsWithin :
      (request : FetchRequest)
      → read_request crate env ≡ ok request
      → (base : FetchScope) × (required_env env (codes "EAL_CRAWL_URL") ≡ ok request.url)
        × (for_url crate request.url ≡ ok base)
        × IsWithin base request.scope
  unfolding read_request
  read_request-IsWithin request e = elim (Result-cases (required_env env (codes "EAL_CRAWL_URL"))) [
    | inl (_, x) ↦ absurd (err_is_not_ok (rw x at e))
    | inr (url, a) ↦ elim (Result-cases (for_url crate url)) [
      | inl (_, x) ↦ absurd (err_is_not_ok (rw (a, x) at e))
      | inr (base, b) ↦ elim (Result-cases (env_bool env (codes "EAL_CRAWL_INCLUDE_SUBDOMAINS"))) [
        | inl (_, x) ↦ absurd (err_is_not_ok (rw (a, b, x) at e))
        | inr (subdomains, c) ↦
            let scope : FetchScope = record base { include_subdomains = subdomains } in
            let paths = nonempty_env env (codes "EAL_CRAWL_ALLOWED_PATH_PREFIXES") in
            elim (Result-cases (allow_hosts crate env scope listed_hosts)) [
              | inl (_, x) ↦ absurd (err_is_not_ok (rw (a, b, c, x) at e))
              | inr (wider, d) ↦ elim (Result-cases (restrict_paths crate env wider paths)) [
                | inl (_, x) ↦ absurd (err_is_not_ok (rw (a, b, c, d, x) at e))
                | inr (restricted, f) ↦
                    let alone : All IsNamedHost base.explicitly_allowed_hosts =
                      rw (for_url-alone url b) tt in
                    let widened =
                      allow_hosts-IsWidened scope scope listed_hosts (λ entry m. m)
                        (refl, refl, refl, refl, alone) d in
                    let within_ =
                      restrict_paths-IsWithin base scope wider c (refl, refl, refl) widened paths
                        refl f in
                    let same = ok_injective (rw (a, b, c, d, f) at e) in
                    (
                      base,
                      a ∙ ap (λ (r : FetchRequest). ok r.url) same,
                      ap (λ (r : FetchRequest). for_url crate r.url) (sym same) ∙ b,
                      subst (λ (r : FetchRequest). IsWithin base r.scope) same within_,
                    )
              ]
            ]
      ]
    ]
  ]
