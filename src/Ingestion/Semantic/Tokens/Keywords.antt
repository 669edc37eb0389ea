-- ===== src/Ingestion/Semantic/Tokens/Keywords.antt =====
-- The keywords of a text.
use eal_sync.Prelude.{
  ℕ, ◌+◌, ◌≤◌, ◌≡◌, sym, ap, subst, ◌∙◌, true, false, List, [], ◌∷◌, length, count, All, arith,
  Bool-cases, true_is_not_false, inl, inr, ◌⊎◌,
}
use eal_sync.Prelude.Text.{Text, text_eq, text_eq→eq, text_eq_refl}
use eal_sync.Prelude.Member.{Member, All-elim, All-intro}
use eal_sync.Ingestion.Semantic.Chars.{CharTable}
use eal_sync.Ingestion.Semantic.Ranking.{add_count, take_ranked}
use eal_sync.Ingestion.Semantic.Ranking.Counts.{
  IsMap, total, add_count-All, add_count-total, add_count-IsMap,
}
use eal_sync.Ingestion.Semantic.Ranking.Laws.{length-take_ranked, take_ranked-All, take_ranked_top}
use eal_sync.Ingestion.Semantic.Tokens.{
  normalized_tokens, is_candidate, count_tokens, extract_keywords,
}

-- how often a text stands in a list
abbrev pub occurrences : Text → List Text → ℕ
occurrences text texts = count (text_eq text) texts

Member-occurrences :
    (text : Text) (texts : List Text) → Member text texts → 1 ≤ occurrences text texts
Member-occurrences text [] m = absurd m
Member-occurrences text (other ∷ texts) (inl e) =
    let hit : text_eq text other ≡ true =
      subst (λ t. text_eq text t ≡ true) e (text_eq_refl text) in
    rw hit (omega arith)
Member-occurrences text (other ∷ texts) (inr m) = omega (arith, Member-occurrences text texts m)

module _ (table : CharTable) where
  count_tokens-IsMap :
      (counts : List (Text × ℕ)) (tokens : List Text)
      → IsMap counts
      → IsMap (count_tokens table counts tokens)
  unfolding count_tokens
  count_tokens-IsMap counts [] h = h
  count_tokens-IsMap counts (token ∷ tokens) h = elim (Bool-cases (is_candidate table token)) [
    | inl hit ↦
        rw hit (count_tokens-IsMap (add_count token counts) tokens (add_count-IsMap token counts h))
    | inr miss ↦ rw miss (count_tokens-IsMap counts tokens h)
  ]

  -- A candidate is counted as often as it stands in the text.
  count_tokens-total :
      (text : Text) (counts : List (Text × ℕ)) (tokens : List Text)
      → is_candidate table text ≡ true
      → total text (count_tokens table counts tokens) ≡ occurrences text tokens + total text counts
  unfolding count_tokens
  count_tokens-total text counts [] right = omega arith
  count_tokens-total text counts (token ∷ tokens) right =
      elim (Bool-cases (is_candidate table token)) [
        | inl hit ↦ rw hit (
            ground (
              arith,
              count_tokens-total text (add_count token counts) tokens right,
              add_count-total token text counts,
            ))
        | inr miss ↦ elim (Bool-cases (text_eq text token)) [
          | inl same ↦ absurd (
              true_is_not_false
                (sym right ∙ ap (is_candidate table) (text_eq→eq text token same) ∙ miss))
          | inr differ ↦
              rw (miss, differ) (omega (arith, count_tokens-total text counts tokens right))
        ]
      ]

  -- what each keyword is: a candidate among the tokens
  abbrev pub IsKeywordOf : List Text → Text → Type 0
  IsKeywordOf tokens keyword = (is_candidate table keyword ≡ true) × Member keyword tokens

  count_tokens-All :
      (all_tokens : List Text) (counts : List (Text × ℕ)) (tokens : List Text)
      → All (λ (entry : Text × ℕ). IsKeywordOf all_tokens entry.0) counts
      → All (λ token. Member token all_tokens) tokens
      → All
          (λ (entry : Text × ℕ). IsKeywordOf all_tokens entry.0)
          (count_tokens table counts tokens)
  unfolding count_tokens
  count_tokens-All all_tokens counts [] h ms = h
  count_tokens-All all_tokens counts (token ∷ tokens) h (m, ms) =
      elim (Bool-cases (is_candidate table token)) [
        | inl hit ↦ rw hit (
            count_tokens-All all_tokens (add_count token counts) tokens
              (add_count-All (IsKeywordOf all_tokens) token counts (hit, m) h) ms)
        | inr miss ↦ rw miss (count_tokens-All all_tokens counts tokens h ms)
      ]

  -- The keywords of a text are at most as many as asked for. Each is a token of the text of at least
  -- three characters that is no stopword and not all digits, and no other such token stands in the
  -- text more often than one of them.
  pub extract_keywords_top :
      (text : Text) (limit : ℕ)
      → let tokens = normalized_tokens table text in
        let keywords = extract_keywords table text limit in
        (length keywords ≤ limit)
        × All (IsKeywordOf tokens) keywords
        × All
            (λ token.
              (is_candidate table token ≡ false)
              ⊎ (Member token keywords
                  ⊎ All
                      (λ keyword. occurrences token tokens ≤ occurrences keyword tokens)
                      keywords))
            tokens
  unfolding extract_keywords
  extract_keywords_top text limit =
      let tokens = normalized_tokens table text in
      let counts = count_tokens table [] tokens in
      let keywords = take_ranked counts limit in
      let all_keywords =
        take_ranked-All (IsKeywordOf tokens) counts limit
          (count_tokens-All tokens [] tokens tt (All-intro _ tokens (λ t m. m))) in
      (
        length-take_ranked counts limit,
        all_keywords,
        All-intro _ tokens (λ token m. elim (Bool-cases (is_candidate table token)) [
          | inr passed ↦ inl passed
          | inl right ↦
              let exact = count_tokens-total token [] tokens right in
              let some_ = Member-occurrences token tokens m in
              elim (take_ranked_top counts limit token (count_tokens-IsMap [] tokens tt)
                (omega (arith, exact, some_))) [
                  | inl kept ↦ inr (inl kept)
                  | inr less ↦ inr (
                      inr (
                        All-intro _ keywords (λ keyword k.
                          let (candidate, _) =
                            All-elim (IsKeywordOf tokens) keywords all_keywords k in
                          let counted =
                            All-elim (λ kept. total token counts ≤ total kept counts) keywords less
                              k in
                          omega (
                            arith,
                            exact,
                            counted,
                            count_tokens-total keyword [] tokens candidate,
                          ))))
                ]
        ]),
      )
