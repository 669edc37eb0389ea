-- ===== src/Ingestion/Fetch/Reads.antt =====
-- What one response of a fetch is read to, by `HttpFetcher::fetch` of src/ingestion/network/fetcher.rs.
use eal_sync.Prelude.{
  ℕ, suc, ◌^◌, ◌-◌, ◌≤◌, ◌<◌, ◌≡◌, refl, subst, true, false, List, [], ◌∷◌, ◌++◌, some, length,
  length-append, ltb, none, Option, ◌+◌, ap, sym, arith, inl, inr, Bool-cases, Option-cases,
}
use eal_sync.Prelude.Text.{Text, trim, is_empty, to_ascii_lowercase}
use eal_sync.Prelude.Result.{
  Result, ok, err, guard, or_fail, ◌>>=◌, Result-cases, ok_injective, err_is_not_ok,
}
use eal_sync.Net.Body.{saturating_add, read_chunks, read_bounded}
use eal_sync.Net.Url.{UrlCrate}
use eal_sync.Ingestion.Error.{error}
use eal_sync.Ingestion.Policy.{FetchPolicy}
use eal_sync.Ingestion.Headers
use eal_sync.Ingestion.Headers.{is_allowed_content_type, read_bounded_body}
use eal_sync.Ingestion.Input.Laws.{combined-short}
use eal_sync.Ingestion.Revision.{validate_embedding_inputs}
use eal_sync.Ingestion.Scope.{host_of}
use eal_sync.Ingestion.Semantic.Extract.{extract_semantic_document}
use eal_sync.Ingestion.Semantic.Extract.Laws.{semantic_document_sound}
use eal_sync.Ingestion.Fetch.{
  FetchRequest, FetchOutcome, FetchMetadata, FetchedDocument, Sent, pinned_client, not_modified,
  changed, Response, Internet, prepare_request, read_not_modified, read_document, is_success,
  exceeds, document_of,
}

-- The bytes that are read never pass the limit, errors of the stream or not.
read_chunks-short :
    {E : Type 0} (unreadable : Text → E) (too_large : E) (max_bytes : ℕ) (body : List ℕ)
    (chunks : List (Result Text (List ℕ))) {out : List ℕ}
    → max_bytes < 2 ^ 64 - 1
    → length body ≤ max_bytes
    → read_chunks unreadable too_large max_bytes body chunks ≡ ok out
    → length out ≤ max_bytes
unfolding read_chunks
read_chunks-short unreadable too_large max_bytes body [] fits h e =
    subst (λ t. length t ≤ max_bytes) (ok_injective e) h
read_chunks-short unreadable too_large max_bytes body (err why ∷ chunks) fits h e =
    absurd (err_is_not_ok e)
read_chunks-short unreadable too_large max_bytes body (ok chunk ∷ chunks) fits h e =
    elim (Bool-cases (ltb max_bytes (saturating_add (length body) (length chunk)))) [
      | inl large ↦ absurd (err_is_not_ok (rw large at e))
      | inr small ↦
          read_chunks-short unreadable too_large max_bytes (body ++ chunk) chunks fits
            (ground (arith, small, fits, length-append body chunk)) (rw small at e)
    ]

module _ (crate : UrlCrate) (net : Internet crate) (policy : FetchPolicy)
    (request : FetchRequest) where
  open crate use {as_str}

  -- A document that was stored holds no more bytes than the policy allows, is of an accepted type,
  -- came with a success status, and its text, digest and inputs belong together.
  abbrev pub IsStored : FetchedDocument → Type 0
  IsStored d =
      (is_success d.metadata.status ≡ true)
      × (d.content_bytes ≤ policy.max_response_bytes)
      × (is_allowed_content_type d.content_type ≡ true)
      × (net.canonicalize_url d.metadata.final_url ≡ some d.metadata.canonical_url)
      × (d.content_sha256 ≡ net.sha256_hex d.content_text)
      × (is_empty (trim d.content_text) ≡ false)
      × (validate_embedding_inputs d.embedding_inputs ≡ ok tt)
      × (length d.embedding_text ≤ 24_000)

  abbrev pub IsOutcome : FetchOutcome → Type 0
  IsOutcome (changed d) = IsStored d
  IsOutcome (not_modified m) =
      (m.status ≡ 304) × (net.canonicalize_url m.final_url ≡ some m.canonical_url)

  abbrev pub metadata_of : FetchOutcome → FetchMetadata
  metadata_of (changed d) = d.metadata
  metadata_of (not_modified m) = m

  -- The metadata name the URL that was asked for, the URL that answered and the status of its answer.
  abbrev pub Names : crate.Url → crate.Url → Response → FetchMetadata → Type 0
  Names requested current response m =
      (m.requested_url ≡ as_str requested)
      × (m.final_url ≡ as_str current)
      × (m.status ≡ response.status)

  abbrev pub IsReported : crate.Url → crate.Url → Response → FetchOutcome → Type 0
  IsReported requested current response outcome =
      IsOutcome outcome × Names requested current response (metadata_of outcome)

  abbrev pub last_sent : List (Sent crate) → Option (Sent crate)
  last_sent [] = none
  last_sent (s ∷ []) = some s
  last_sent (_ ∷ s ∷ others) = last_sent (s ∷ others)

  -- The outcome is read from the answer to the last of the requests that went out, the first of which
  -- has the number `index`.
  abbrev pub IsAnswered : crate.Url → ℕ → List (Sent crate) → FetchOutcome → Type 0
  IsAnswered requested index sent outcome =
      (last : Sent crate) × (response : Response) × (number : ℕ) × (last_sent sent ≡ some last)
      × (suc number ≡ index + length sent)
      × (net.send number last ≡ some response)
      × Names requested last.url response (metadata_of outcome)

  pub prepare_request-url :
      (requested_host : Text) (index : ℕ) (current : crate.Url) {sent : Sent crate}
      → prepare_request crate net policy request requested_host index current ≡ ok sent
      → sent.url ≡ current
  unfolding prepare_request
  prepare_request-url requested_host index current {sent} e =
      elim (Result-cases (host_of crate current)) [
        | inl (_, x) ↦ absurd (err_is_not_ok (rw x at e))
        | inr (host, a) ↦ elim (Bool-cases (net.has_permit (to_ascii_lowercase host))) [
          | inr x ↦ absurd (err_is_not_ok (rw (a, x) at e))
          | inl open_ ↦ elim (Result-cases (pinned_client crate net policy request index current)) [
            | inl (_, x) ↦ absurd (err_is_not_ok (rw (a, open_, x) at e))
            | inr (address, b) ↦
                ap (λ (s : Sent crate). s.url) (sym (ok_injective (rw (a, open_, b) at e)))
          ]
        ]
      ]

  read_body-IsReported :
      (requested current : crate.Url) (response : Response) {outcome : FetchOutcome}
      → policy.max_response_bytes < 2 ^ 64 - 1
      → is_success response.status ≡ true
      → (Headers.content_type response.headers policy.require_content_type >>= λ kind.
          guard (is_allowed_content_type kind) (error "unsupported_content_type") >>= λ _.
          read_bounded_body response.chunks policy.max_response_bytes >>= λ body.
          or_fail (net.canonicalize_url (as_str current)) (error "invalid_url") >>= λ canonical_url.
          extract_semantic_document crate net.char_table net.from_slice kind body canonical_url
          >>= λ semantic. ok (
              changed (
                document_of crate net policy request requested current response kind body
                  canonical_url semantic)))
        ≡ ok outcome
      → IsReported requested current response outcome
  unfolding read_bounded_body read_bounded
  read_body-IsReported requested current response fits success e =
      elim (Result-cases (Headers.content_type response.headers policy.require_content_type)) [
        | inl (_, x) ↦ absurd (err_is_not_ok (rw x at e))
        | inr (kind, a) ↦ elim (Bool-cases (is_allowed_content_type kind)) [
          | inr x ↦ absurd (err_is_not_ok (rw (a, x) at e))
          | inl allowed ↦
              elim (Result-cases (read_bounded_body response.chunks policy.max_response_bytes)) [
                | inl (_, x) ↦ absurd (err_is_not_ok (rw (a, allowed, x) at e))
                | inr (body, read) ↦ elim (Option-cases (net.canonicalize_url (as_str current))) [
                  | inl x ↦ absurd (err_is_not_ok (rw (a, allowed, read, x) at e))
                  | inr (canonical, named) ↦
                      elim (Result-cases (
                        extract_semantic_document crate net.char_table net.from_slice kind body
                          canonical)) [
                            | inl (_, x) ↦
                                absurd (err_is_not_ok (rw (a, allowed, read, named, x) at e))
                            | inr (semantic, extracted) ↦
                                let short =
                                  read_chunks-short _ _ policy.max_response_bytes [] response.chunks
                                    fits (omega arith) read in
                                let (_, filled, accepted, _, _, _) =
                                  semantic_document_sound crate net.char_table net.from_slice kind
                                    body canonical semantic extracted in
                                subst (IsReported requested current response)
                                  (ok_injective (rw (a, allowed, read, named, extracted) at e))
                                  (
                                    (
                                      success,
                                      short,
                                      allowed,
                                      named,
                                      refl,
                                      filled,
                                      accepted,
                                      combined-short semantic,
                                    ),
                                    (refl, refl, refl),
                                  )
                          ]
                ]
              ]
        ]
      ]

  pub read_document-IsReported :
      (requested current : crate.Url) (response : Response) {outcome : FetchOutcome}
      → policy.max_response_bytes < 2 ^ 64 - 1
      → read_document crate net policy request requested current response ≡ ok outcome
      → IsReported requested current response outcome
  unfolding read_document read_bounded_body read_bounded
  read_document-IsReported requested current response fits e =
      elim (Bool-cases (is_success response.status)) [
        | inr x ↦ absurd (err_is_not_ok (rw x at e))
        | inl success ↦ elim (Result-cases (Headers.content_length response.headers)) [
          | inl (_, x) ↦ absurd (err_is_not_ok (rw (success, x) at e))
          | inr (declared, a) ↦ elim (Bool-cases (exceeds policy.max_response_bytes declared)) [
            | inl x ↦ absurd (err_is_not_ok (rw (success, a, x) at e))
            | inr b ↦
                let rest = rw (success, a, b) at e in
                read_body-IsReported requested current response fits success rest
          ]
        ]
      ]

  pub read_not_modified-IsReported :
      (requested current : crate.Url) (response : Response) {outcome : FetchOutcome}
      → response.status ≡ 304
      → read_not_modified crate net policy request requested current response ≡ ok outcome
      → IsReported requested current response outcome
  unfolding read_not_modified
  read_not_modified-IsReported requested current response fresh e =
      elim (Option-cases (net.canonicalize_url (as_str current))) [
        | inl x ↦ absurd (err_is_not_ok (rw x at e))
        | inr (canonical, named) ↦
            subst (IsReported requested current response) (ok_injective (rw named at e))
              ((fresh, named), (refl, refl, refl))
      ]
