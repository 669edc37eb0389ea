-- ===== src/Ingestion/Semantic/Views/Sentences.antt =====
-- The sentences of a text.
use eal_sync.Prelude.{
  ℕ, ◌≤◌, ◌≡◌, true, List, [], ◌∷◌, ◌++◌, length, length-take-le, ltb, ◌==◌, All, All-append,
  All-take, Bool-cases, inl, inr,
}
use eal_sync.Prelude.Text.{Text}
use eal_sync.Ingestion.Content.Laws.{IsCollapsed}
use eal_sync.Ingestion.Semantic.Views.{
  collapse_whitespace, dedupe_by, dedupe_text, ends_sentence, is_sentence, collect_sentences,
  complete_sentences,
}
use eal_sync.Ingestion.Semantic.Views.Laws.{
  collapsed, IsFresh, dedupe_by-IsFresh, IsFresh-take, dedupe_by-All,
}

-- Of 6 to 110 words and 36 to 900 characters, with single spaces between the words.
abbrev pub IsSentence : Text → Type 0
IsSentence s = IsCollapsed true s × (is_sentence s ≡ true)

collect_sentences-All :
    (limit : ℕ) (sentences : List Text) (buffer text : Text)
    → All IsSentence sentences
    → All IsSentence (collect_sentences limit sentences buffer text)
unfolding collect_sentences
collect_sentences-All limit sentences buffer [] h = h
collect_sentences-All limit sentences buffer (c ∷ s) h =
    let grown = buffer ++ c ∷ [] in
    let candidate = collapse_whitespace grown in
    let found = sentences ++ candidate ∷ [] in
    elim (Bool-cases (ends_sentence c)) [
      | inl ends ↦ elim (Bool-cases (is_sentence candidate)) [
        | inl right ↦
            let more =
              All-append IsSentence sentences (candidate ∷ []) h ((collapsed grown, right), tt) in
            elim (Bool-cases (length found == limit)) [
              | inl full ↦ rw (ends, right, full) more
              | inr room ↦ rw (ends, right, room) (collect_sentences-All limit found [] s more)
            ]
        | inr wrong ↦ rw (ends, wrong) (collect_sentences-All limit sentences [] s h)
      ]
      | inr goes ↦ elim (Bool-cases (ltb 1_000 (length grown))) [
        | inl long ↦ rw (goes, long) (collect_sentences-All limit sentences [] s h)
        | inr short ↦ rw (goes, short) (collect_sentences-All limit sentences grown s h)
      ]
    ]

-- The sentences of a text are at most as many as asked for, no two of them are equal up to the case of
-- ASCII letters, and each has 6 to 110 words, 36 to 900 characters and single spaces between its words.
complete_sentences_sound :
    (text : Text) (limit : ℕ)
    → (length (complete_sentences text limit) ≤ limit)
      × IsFresh (λ s. s) [] (complete_sentences text limit)
      × All IsSentence (complete_sentences text limit)
unfolding complete_sentences dedupe_text
complete_sentences_sound text limit =
    let found = collect_sentences limit [] [] text in
    let distinct = dedupe_by (λ s. s) [] found in
    (
      length-take-le limit distinct,
      IsFresh-take (λ s. s) limit [] distinct (dedupe_by-IsFresh (λ s. s) [] found),
      All-take IsSentence limit distinct
          (dedupe_by-All (λ s. s) IsSentence [] found (collect_sentences-All limit [] [] text tt)),
    )
