-- ===== src/Ingestion/Fetch/Safe.antt =====
-- What goes out on the network during a fetch.
use eal_sync.Prelude.{
  ℕ, zero, suc, ◌≤◌, ◌≡◌, refl, Bool, true, false, List, none, length, All, arith, ◌==◌, ◌⊎◌, inl,
  inr, Bool-cases, Option-cases,
}
use eal_sync.Prelude.Text.{Text, codes, text_eq, to_ascii_lowercase}
use eal_sync.Prelude.Result.{ok, Result-cases}
use eal_sync.Net.Ip.{is_public_ip}
use eal_sync.Net.Url.{UrlCrate}
use eal_sync.Ingestion.Policy.{FetchPolicy}
use eal_sync.Ingestion.Scope.{allows_url, host_of, prepare_target_url}
use eal_sync.Ingestion.Address.{resolve_public_addresses, select_address}
use eal_sync.Ingestion.Address.Laws.{resolve-public}
use eal_sync.Ingestion.Fetch.{
  FetchRequest, Response, Sent, Internet, pinned_client, prepare_request, redirect_target,
  is_redirection, follow, fetch,
}

module _ (crate : UrlCrate) (net : Internet crate) (policy : FetchPolicy)
    (request : FetchRequest) where
  -- A request stays within the scope, goes to a public address, and carries the stored validators
  -- only to the host that was asked for.
  pub record IsSafe (requested_host : Text) (sent : Sent crate) : Type 0 where
    pub in_scope : allows_url crate request.scope sent.url ≡ true
    pub public_address : is_public_ip sent.address ≡ true
    pub validators :
        ((sent.if_none_match ≡ none) × (sent.if_modified_since ≡ none))
        ⊎ (host : Text) × (host_of crate sent.url ≡ ok host)
          × (text_eq (to_ascii_lowercase host) requested_host ≡ true)

  pinned_client-public :
      (index : ℕ) (url : crate.Url) {address : _}
      → pinned_client crate net policy request index url ≡ ok address
      → is_public_ip address ≡ true
  unfolding pinned_client
  pinned_client-public index url e = elim (Result-cases (host_of crate url)) [
    | inl (x, no_host) ↦ absurd (ground (arith, no_host))
    | inr (host, has_host) ↦ elim (Option-cases (crate.port_or_known_default url)) [
      | inl no_port ↦ absurd (ground (arith, has_host, no_port))
      | inr (port, has_port) ↦
          elim (Result-cases (resolve_public_addresses (net.lookup index host port))) [
            | inl (x, failed) ↦ absurd (ground (arith, has_host, has_port, failed))
            | inr (addresses, resolved) ↦ elim (Option-cases (select_address addresses)) [
              | inl none_left ↦ absurd (ground (arith, has_host, has_port, resolved, none_left))
              | inr (selected, found) ↦
                  resolve-public _ resolved (ground (arith, has_host, has_port, resolved, found))
            ]
          ]
    ]
  ]

  prepare_request-IsSafe :
      (requested_host : Text) (index : ℕ) (url : crate.Url) {sent : Sent crate}
      → allows_url crate request.scope url ≡ true
      → prepare_request crate net policy request requested_host index url ≡ ok sent
      → IsSafe requested_host sent
  unfolding prepare_request
  prepare_request-IsSafe requested_host index url {sent} allowed e =
      elim (Result-cases (host_of crate url)) [
        | inl (x, no_host) ↦ absurd (ground (arith, no_host))
        | inr (host, has_host) ↦ elim (Bool-cases (net.has_permit (to_ascii_lowercase host))) [
          | inr closed ↦ absurd (ground (arith, has_host, closed))
          | inl permit ↦ elim (Result-cases (pinned_client crate net policy request index url)) [
            | inl (x, failed) ↦ absurd (ground (arith, has_host, permit, failed))
            | inr (address, pinned) ↦
                let at_url : sent.url ≡ url = ground (arith, has_host, permit, pinned) in
                let at_address : sent.address ≡ address =
                  ground (arith, has_host, permit, pinned) in
                record {
                  in_scope = rw at_url allowed;
                  public_address = rw at_address (pinned_client-public index url pinned);
                  validators =
                      elim (Bool-cases (text_eq (to_ascii_lowercase host) requested_host)) [
                        | inl same ↦ inr (host, rw at_url has_host, same)
                        | inr other ↦ inl (ground (arith, has_host, permit, pinned, other))
                      ];
                }
          ]
        ]
      ]

  prepare_target-allowed :
      (input : Text) {url : crate.Url}
      → prepare_target_url crate input request.scope ≡ ok url
      → allows_url crate request.scope url ≡ true
  unfolding prepare_target_url
  prepare_target-allowed input e = ground arith

  redirect_target-allowed :
      (is_last : Bool) (url : crate.Url) (response : Response) {target : crate.Url}
      → redirect_target crate net policy request is_last url response ≡ ok target
      → (is_last ≡ false) × (allows_url crate request.scope target ≡ true)
  unfolding redirect_target
  redirect_target-allowed true url response e = absurd (ground arith)
  redirect_target-allowed false url response e =
      elim (Option-cases (response.headers.header (codes "location"))) [
        | inl absent ↦ absurd (ground (arith, absent))
        | inr (value, present) ↦ elim (Option-cases value) [
          | inl hidden ↦ absurd (ground (arith, present, hidden))
          | inr (location, shown) ↦ elim (Option-cases (crate.join url location)) [
            | inl unresolved ↦ absurd (ground (arith, present, shown, unresolved))
            | inr (redirected, joined) ↦ (
              refl,
              prepare_target-allowed (crate.as_str redirected)
                  (ground (arith, present, shown, joined)),
            )
          ]
        ]
      ]

  abbrev AllSafe : Text → List (Sent crate) → Type 0
  AllSafe requested_host trace = All (IsSafe requested_host) trace

  follow-AllSafe :
      (requested : crate.Url) (requested_host : Text) (left index : ℕ) (current : crate.Url)
      → allows_url crate request.scope current ≡ true
      → AllSafe requested_host
          (follow crate net policy request requested requested_host left index current).1
  unfolding follow
  follow-AllSafe requested requested_host zero index current allowed = tt
  follow-AllSafe requested requested_host (suc left) index current allowed =
      elim (Result-cases (prepare_request crate net policy request requested_host index current)) [
        | inl (x, failed) ↦ rw (failed, follow) tt
        | inr (sent, prepared) ↦
            let safe = prepare_request-IsSafe requested_host index current allowed prepared in
            elim (Option-cases (net.send index sent)) [
              | inl lost ↦ rw (prepared, lost, follow) (safe, tt)
              | inr (response, got) ↦ elim (Bool-cases (response.status == 304)) [
                | inl fresh ↦ rw (prepared, got, fresh, follow) (safe, tt)
                | inr other ↦ elim (Bool-cases (is_redirection response.status)) [
                  | inr final ↦ rw (prepared, got, other, final, follow) (safe, tt)
                  | inl moved ↦
                      elim (Result-cases
                        (redirect_target crate net policy request (left == 0) current response)) [
                          | inl (x, blocked) ↦
                              rw (prepared, got, other, moved, blocked, follow) (safe, tt)
                          | inr (target, to) ↦
                              rw (prepared, got, other, moved, to, follow)
                                (
                                  safe,
                                  follow-AllSafe requested requested_host left (suc index) target
                                      (redirect_target-allowed (left == 0) current response to).1,
                                )
                        ]
                ]
              ]
            ]
      ]

  -- at most one request for each iteration
  follow-bound :
      (requested : crate.Url) (requested_host : Text) (left index : ℕ) (current : crate.Url)
      → length (follow crate net policy request requested requested_host left index current).1
        ≤ left
  unfolding follow
  follow-bound requested requested_host zero index current = omega arith
  follow-bound requested requested_host (suc left) index current =
      elim (Result-cases (prepare_request crate net policy request requested_host index current)) [
        | inl (x, failed) ↦ rw (failed, follow) (omega arith)
        | inr (sent, prepared) ↦ elim (Option-cases (net.send index sent)) [
          | inl lost ↦ rw (prepared, lost, follow) (omega arith)
          | inr (response, got) ↦ elim (Bool-cases (response.status == 304)) [
            | inl fresh ↦ rw (prepared, got, fresh, follow) (omega arith)
            | inr other ↦ elim (Bool-cases (is_redirection response.status)) [
              | inr final ↦ rw (prepared, got, other, final, follow) (omega arith)
              | inl moved ↦
                  elim (Result-cases
                    (redirect_target crate net policy request (left == 0) current response)) [
                      | inl (x, blocked) ↦
                          rw (prepared, got, other, moved, blocked, follow) (omega arith)
                      | inr (target, to) ↦
                          rw (prepared, got, other, moved, to, follow)
                            (omega (
                              arith,
                              follow-bound requested requested_host left (suc index) target,
                            ))
                    ]
            ]
          ]
        ]
      ]

  -- If the URL of the request is accepted and has a host, every request of the fetch, redirects
  -- included, is for a URL that the scope allows, goes to a public address, and carries the stored
  -- validators only to that host.
  pub fetch-AllSafe :
      (requested : crate.Url) (host : Text)
      → prepare_target_url crate request.url request.scope ≡ ok requested
      → host_of crate requested ≡ ok host
      → AllSafe (to_ascii_lowercase host) (fetch crate net policy request).1
  unfolding fetch
  fetch-AllSafe requested host prepared has_host =
      rw (prepared, has_host, fetch)
        (follow-AllSafe requested (to_ascii_lowercase host) (suc policy.max_redirects) 0 requested
          (prepare_target-allowed request.url prepared))

  -- A fetch makes at most one request more than the policy allows redirects, whatever the servers
  -- answer.
  pub fetch_bound : length (fetch crate net policy request).1 ≤ suc policy.max_redirects
  unfolding fetch
  fetch_bound = elim (Result-cases (prepare_target_url crate request.url request.scope)) [
    | inl (x, refused) ↦ rw (refused, fetch) (omega arith)
    | inr (requested, prepared) ↦ elim (Result-cases (host_of crate requested)) [
      | inl (x, no_host) ↦ rw (prepared, no_host, fetch) (omega arith)
      | inr (host, has_host) ↦
          rw (prepared, has_host, fetch)
            (follow-bound requested (to_ascii_lowercase host) (suc policy.max_redirects) 0
              requested)
    ]
  ]
