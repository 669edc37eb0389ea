-- ===== src/Ingestion/Fetch/Document.antt =====
-- What a fetch that succeeds returns.
use eal_sync.Prelude.{
  none_is_not_some, ◌∙◌, ℕ, zero, suc, ◌^◌, ◌-◌, ◌<◌, ◌≡◌, refl, not, List, [], ◌∷◌, some, ltb, ap,
  sym, within, arith, ◌==◌, inl, inr, Bool-cases, Option-cases,
}
use eal_sync.Prelude.Text.{Text, to_ascii_lowercase}
use eal_sync.Prelude.Result.{ok, Result-cases, guard_ok, err_is_not_ok}
use eal_sync.Net.Url.{UrlCrate}
use eal_sync.Ingestion.Policy.{FetchPolicy, validate_policy}
use eal_sync.Ingestion.Scope.{host_of, prepare_target_url}
use eal_sync.Ingestion.Fetch.{
  FetchRequest, FetchOutcome, Sent, Response, Internet, prepare_request, redirect_target,
  is_redirection, follow, fetch,
}
use eal_sync.Ingestion.Fetch.Reads.{
  IsOutcome, IsAnswered, IsReported, prepare_request-url, read_document-IsReported,
  read_not_modified-IsReported,
}

module _ (crate : UrlCrate) (net : Internet crate) (policy : FetchPolicy)
    (request : FetchRequest) where
  open crate use {as_str}

  one_answer :
      (requested : crate.Url) (sent : Sent crate) (response : Response) (index : ℕ)
      (current : crate.Url) (outcome : FetchOutcome)
      → sent.url ≡ current
      → net.send index sent ≡ some response
      → IsReported crate net policy request requested current response outcome
      → IsOutcome crate net policy request outcome
        × IsAnswered crate net policy request requested index (sent ∷ []) outcome
  one_answer requested sent response index current outcome same answered
        (stored, (asked, final, status)) =
      (
        stored,
        (
          sent,
          response,
          index,
          refl,
          omega arith,
          answered,
          (asked, final ∙ ap as_str (sym same), status),
        ),
      )

  later_answer :
      (requested : crate.Url) (sent : Sent crate) (index : ℕ) (others : List (Sent crate))
      (outcome : FetchOutcome)
      → IsAnswered crate net policy request requested (suc index) others outcome
      → IsAnswered crate net policy request requested index (sent ∷ others) outcome
  later_answer requested sent index [] outcome
        (last, response, number, e, numbered, answered, names) =
      absurd (none_is_not_some e)
  later_answer requested sent index (s ∷ others) outcome
        (last, response, number, e, numbered, answered, names) =
      (last, response, number, e, omega (arith, numbered), answered, names)

  follow-IsOutcome :
      (requested : crate.Url) (requested_host : Text) (left index : ℕ) (current : crate.Url)
      {outcome : FetchOutcome}
      → policy.max_response_bytes < 2 ^ 64 - 1
      → (follow crate net policy request requested requested_host left index current).0 ≡ ok outcome
      → IsOutcome crate net policy request outcome
        × IsAnswered crate net policy request requested index
            (follow crate net policy request requested requested_host left index current).1
            outcome
  unfolding follow
  follow-IsOutcome requested requested_host zero index current fits e = absurd (err_is_not_ok e)
  follow-IsOutcome requested requested_host (suc left) index current {outcome} fits e =
      elim (Result-cases (prepare_request crate net policy request requested_host index current)) [
        | inl (_, x) ↦ absurd (err_is_not_ok (rw (x, follow) at e))
        | inr (sent, a) ↦ elim (Option-cases (net.send index sent)) [
          | inl x ↦ absurd (err_is_not_ok (rw (a, x, follow) at e))
          | inr (response, b) ↦
              let same =
                prepare_request-url crate net policy request requested_host index current a in
              elim (Bool-cases (response.status == 304)) [
                | inl fresh ↦
                    let found =
                      read_not_modified-IsReported crate net policy request requested current
                        response (ground (arith, fresh)) (rw (a, b, fresh, follow) at e) in
                    rw (a, b, fresh, follow)
                      (one_answer requested sent response index current outcome same b found)
                | inr other ↦ elim (Bool-cases (is_redirection response.status)) [
                  | inr final ↦
                      let found =
                        read_document-IsReported crate net policy request requested current response
                          fits (rw (a, b, other, final, follow) at e) in
                      rw (a, b, other, final, follow)
                        (one_answer requested sent response index current outcome same b found)
                  | inl moved ↦
                      elim (Result-cases
                        (redirect_target crate net policy request (left == 0) current response)) [
                          | inl (_, x) ↦
                              absurd (err_is_not_ok (rw (a, b, other, moved, x, follow) at e))
                          | inr (target, to) ↦
                              let (stored, answered) =
                                follow-IsOutcome requested requested_host left (suc index) target
                                  fits (rw (a, b, other, moved, to, follow) at e) in
                              rw (a, b, other, moved, to, follow)
                                (stored, later_answer requested sent index _ outcome answered)
                        ]
                ]
              ]
        ]
      ]

  policy_fits : validate_policy policy ≡ ok tt → policy.max_response_bytes < 2 ^ 64 - 1
  unfolding validate_policy
  policy_fits e =
      let (_, rest) = guard_ok (not (ltb 20 policy.max_redirects)) _ _ e in
      let (right, _) = guard_ok (within 1_024 33_554_432 policy.max_response_bytes) _ _ rest in
      ground (arith, right)

  -- Under a valid policy, a fetch that succeeds is read from the answer to the last request that it sent:
  -- it records the URL that was asked for, as `prepare_target_url` returns it, the URL of that last
  -- request with its canonical form, and the status of the answer. Either it was not modified, with
  -- status 304, or it changed: then the status is a success, the type is accepted, the body has at most
  -- as many bytes as the policy allows, the digest is that of the text, which is not blank, the embedding
  -- inputs are what the checks of a revision accept, and the text for one embedding has at most 24000
  -- characters.
  pub fetch-IsOutcome :
      (outcome : FetchOutcome)
      → validate_policy policy ≡ ok tt
      → (fetch crate net policy request).0 ≡ ok outcome
      → IsOutcome crate net policy request outcome
        × (requested : crate.Url) × (prepare_target_url crate request.url request.scope
            ≡ ok requested)
        × IsAnswered crate net policy request requested 0 (fetch crate net policy request).1 outcome
  unfolding fetch
  fetch-IsOutcome outcome valid e =
      elim (Result-cases (prepare_target_url crate request.url request.scope)) [
        | inl (_, x) ↦ absurd (err_is_not_ok (rw (x, fetch) at e))
        | inr (requested, a) ↦ elim (Result-cases (host_of crate requested)) [
          | inl (_, x) ↦ absurd (err_is_not_ok (rw (a, x, fetch) at e))
          | inr (host, b) ↦
              let (stored, answered) =
                follow-IsOutcome requested (to_ascii_lowercase host) (suc policy.max_redirects) 0
                  requested (policy_fits valid) (rw (a, b, fetch) at e) in
              rw (a, b, fetch) (stored, requested, refl, answered)
        ]
      ]
