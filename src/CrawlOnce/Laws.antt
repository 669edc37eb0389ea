-- ===== src/CrawlOnce/Laws.antt =====
-- What the one-shot crawl prints.
use mathlib.Core.List.{append-nil}
use eal_sync.Prelude.{
  ℕ, zero, suc, ◌-◌, ◌+◌, ◌≤◌, ◌≡◌, refl, sym, ap, subst, ◌∙◌, true, [], ◌∷◌, ◌++◌, none, some,
  length, length-append, take, drop, arith, inl, inr, ◌⊎◌,
}
use eal_sync.Prelude.Text.{
  Text, codes, trim, trim_end, drop_while, drop_end_while, is_whitespace, byte_len,
}
use eal_sync.Prelude.Result.{ok, Result-cases, ok_injective, err_is_not_ok}
use eal_sync.Net.Url.{UrlCrate}
use eal_sync.Ingestion.Policy.{default_policy, validate_policy}
use eal_sync.Ingestion.Revision.Laws.{embedding_inputs_sound}
use eal_sync.Ingestion.Fetch.{
  FetchRequest, FetchOutcome, not_modified, changed, Internet, is_success, new_fetcher, fetch,
}
use eal_sync.Ingestion.Fetch.Reads.{IsOutcome}
use eal_sync.Ingestion.Fetch.Document.{fetch-IsOutcome}
use eal_sync.CrawlOnce.{Env, SemanticSummary, CrawlSummary, preview, summarize, read_request, main}

-- The text itself when it has at most `n` characters, and else its first `n` and an ellipsis.
abbrev pub IsPreview : ℕ → Text → Text → Type 0
IsPreview n text shown =
    ((length text ≤ n) × (shown ≡ text))
    ⊎ (start : Text) × (rest : Text) × (text ≡ start ++ rest)
      × (1 ≤ length rest)
      × (length start ≡ n)
      × (shown ≡ start ++ codes "…")

-- Where a text is cut.
cut : (n : ℕ) (s : Text) → (take n s ++ drop n s ≡ s) × (length (drop n s) ≡ length s - n)
cut zero s = (refl, omega arith)
cut (suc n) [] = (refl, omega arith)
cut (suc n) (c ∷ s) = let (whole, left) = cut n s in (ap (λ r. c ∷ r) whole, omega (arith, left))

length-start : (n : ℕ) (s : Text) → length (take n s) + length (drop n s) ≡ length s
length-start n s =
    let (whole, _) = cut n s in
    sym (length-append (take n s) (drop n s)) ∙ ap (λ (t : Text). length t) whole

append_nil : (s : Text) {t : Text} → t ≡ [] → s ++ t ≡ s
append_nil s e = ap (λ (r : Text). s ++ r) e ∙ append-nil s

preview-IsPreview : (value : Text) (n : ℕ) → IsPreview n value (preview value n)
unfolding preview
preview-IsPreview value n = go (drop n value) refl
  where
    go :
        (rest : Text)
        → drop n value ≡ rest
        → IsPreview n value
            (elim rest [ [] ↦ take n value | ◌∷◌ c more ↦ take n value ++ 0x2026 ∷ [] ])
    go [] e =
        let (whole, left) = cut n value in
        inl (
          omega (arith, left, ap (λ (t : Text). length t) e),
          sym (append_nil (take n value) e) ∙ whole,
        )
    go (c ∷ more) e =
        let (whole, left) = cut n value in
        inr (
          take n value,
          drop n value,
          sym whole,
          omega (arith, ap (λ (t : Text). length t) e),
          omega (arith, left, length-start n value, ap (λ (t : Text). length t) e),
          refl,
        )

-- What is shown of an outcome: nothing of a page that was not modified; of one that changed, the
-- start of its text, the start of its embedding text, and the number of its embedding inputs.
abbrev pub IsSummary : FetchOutcome → CrawlSummary → Type 0
IsSummary (not_modified m) s =
    (s.status ≡ 304)
    × (m.status ≡ 304)
    × (s.final_url ≡ m.final_url)
    × (s.canonical_url ≡ m.canonical_url)
    × (s.content_preview ≡ none)
    × (s.semantic ≡ none)
IsSummary (changed d) s =
    (shown : Text) × (semantic : SemanticSummary) × (is_success s.status ≡ true)
    × (s.status ≡ d.metadata.status)
    × (s.final_url ≡ d.metadata.final_url)
    × (s.canonical_url ≡ d.metadata.canonical_url)
    × (s.content_sha256 ≡ some d.content_sha256)
    × (s.content_preview ≡ some shown)
    × IsPreview 500 d.content_text shown
    × (s.semantic ≡ some semantic)
    × (semantic.embedding_input_count ≡ length d.embedding_inputs)
    × (1 ≤ semantic.embedding_input_count)
    × (semantic.embedding_input_count ≤ 96)
    × IsPreview 1_000 d.embedding_text semantic.embedding_preview

default_is_valid : validate_policy default_policy ≡ ok tt
unfolding validate_policy trim trim_end drop_while drop_end_while is_whitespace byte_len
default_is_valid = refl

module _ (crate : UrlCrate) (net : Internet crate) where
  summarize-IsSummary :
      (request : FetchRequest) (outcome : FetchOutcome)
      → IsOutcome crate net default_policy request outcome
      → IsSummary outcome (summarize outcome)
  unfolding summarize
  summarize-IsSummary request (not_modified metadata) (status, _) =
      (status, status, refl, refl, refl, refl)
  summarize-IsSummary request (changed d) (success, _, _, _, _, _, accepted, _) =
      let (some_, few, _, _) = embedding_inputs_sound d.embedding_inputs accepted in
      (
        preview d.content_text 500,
        _,
        success,
        refl,
        refl,
        refl,
        refl,
        refl,
        preview-IsPreview d.content_text 500,
        refl,
        refl,
        some_,
        few,
        preview-IsPreview d.embedding_text 1_000,
      )

  -- What a one-shot crawl prints is a summary of the outcome of its fetch, with the final and the
  -- canonical URL of that outcome: of a page that was not modified its status 304 and no content; of a
  -- page that changed its success status, its text where that has at most 500 characters and else the
  -- first 500 of it and an ellipsis, which makes 501, likewise up to 1000 characters of its embedding
  -- text, and the number of its embedding inputs, from 1 to 96.
  pub main-IsSummary :
      (env : Env) (s : CrawlSummary)
      → (main crate env net).0 ≡ ok s
      → (request : FetchRequest) × (outcome : FetchOutcome) × (read_request crate env ≡ ok request)
        × ((fetch crate net default_policy request).0 ≡ ok outcome)
        × IsSummary outcome s
  unfolding main new_fetcher
  main-IsSummary env s e = elim (Result-cases (read_request crate env)) [
    | inl (_, x) ↦ absurd (err_is_not_ok (rw (x, main) at e))
    | inr (request, a) ↦ elim (Result-cases (fetch crate net default_policy request).0) [
      | inl (_, x) ↦ absurd (err_is_not_ok (rw (a, default_is_valid, x, main) at e))
      | inr (outcome, b) ↦
          let (stored, _, _, _) =
            fetch-IsOutcome crate net default_policy request outcome default_is_valid b in
          (
            request,
            outcome,
            a,
            b,
            subst (IsSummary outcome) (ok_injective (rw (a, default_is_valid, b, main) at e))
                (summarize-IsSummary request outcome stored),
          )
    ]
  ]
