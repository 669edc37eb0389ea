-- ===== src/Ingestion/Semantic/Extract/Pushes.antt =====
-- The inputs that `extract_semantic_document` pushes, chooses and numbers.
use eal_sync.Prelude.{
  ℕ, suc, ◌+◌, ◌^◌, ◌≤◌, ◌<◌, ◌≡◌, refl, sym, ap, subst, true, false, List, [], ◌∷◌, length,
  length-append, length-take-le, take, ltb, within, ◌==◌, All, All-append, All-take, arith,
  Bool-cases, inl, inr,
}
use eal_sync.Prelude.Text.{Text}
use eal_sync.Prelude.Result.{ok}
use eal_sync.Ingestion.Content.Laws.{IsCollapsed}
use eal_sync.Ingestion.Input.{
  EmbeddingInput, EmbeddingInputKind, F32, is_weight, validate_input, validate_all,
}
use eal_sync.Ingestion.Revision.{check_ordinals}
use eal_sync.Ingestion.Revision.Laws.{IsValidInput}
use eal_sync.Ingestion.Semantic.Views.{
  truncate_chars, dedupe_inputs, push_input, collapse_whitespace,
}
use eal_sync.Ingestion.Semantic.Views.Laws.{
  collapsed, collapse-again, length-truncate_chars, truncate_chars-long, truncate-IsCollapsed,
  is_not_blank, IsFresh, dedupe_by-IsFresh, IsFresh-take, dedupe_by-All,
}
use eal_sync.Ingestion.Semantic.Extract.{push_inputs, Parts, push_parts, number_inputs}

push_input-All :
    (inputs : List EmbeddingInput) (kind : EmbeddingInputKind) (text : Text) (w : F32)
    → is_weight w ≡ true
    → All IsValidInput inputs
    → All IsValidInput (push_input inputs kind text w)
unfolding push_input validate_input
push_input-All inputs kind text w right hs =
    let pushed = truncate_chars (collapse_whitespace text) 700 in
    elim (Bool-cases (ltb (length pushed) 3)) [
      | inl short ↦ rw short hs
      | inr enough ↦
          let few = length-truncate_chars (collapse_whitespace text) 700 (omega arith) in
          let filled =
            is_not_blank (truncate-IsCollapsed 700 (collapsed text)) (ground (arith, enough)) in
          let fits : ltb 700 (length pushed) ≡ false = ground (arith, few) in
          rw enough (All-append IsValidInput inputs _ hs (rw (filled, fits, right) refl, tt))
    ]

push_inputs-All :
    (inputs : List EmbeddingInput) (kind : EmbeddingInputKind) (texts : List Text) (w : F32)
    → is_weight w ≡ true
    → All IsValidInput inputs
    → All IsValidInput (push_inputs inputs kind texts w)
unfolding push_inputs
push_inputs-All inputs kind [] w right hs = hs
push_inputs-All inputs kind (text ∷ texts) w right hs =
    push_inputs-All (push_input inputs kind text w) kind texts w right
      (push_input-All inputs kind text w right hs)

push_parts-All : (parts : Parts) → All IsValidInput (push_parts parts)
unfolding push_parts
push_parts-All parts = push_input-All _ _ _ _ refl (
    push_inputs-All _ _ _ _ refl (
      push_inputs-All _ _ _ _ refl (
        push_inputs-All _ _ _ _ refl (
          push_inputs-All _ _ _ _ refl (
            push_input-All _ _ _ _ refl
              (push_inputs-All _ _ _ _ refl (push_inputs-All [] _ _ _ refl tt)))))))

push_input-some :
    (inputs : List EmbeddingInput) (kind : EmbeddingInputKind) (text : Text) (w : F32)
    → IsCollapsed true text
    → 3 ≤ length text
    → 1 ≤ length (push_input inputs kind text w)
unfolding push_input
push_input-some inputs kind text w k long =
    let pushed = truncate_chars (collapse_whitespace text) 700 in
    let enough =
      truncate_chars-long (collapse_whitespace text) 700 3 (omega arith) (omega arith)
        (subst (λ t. 3 ≤ length t) (sym (collapse-again k)) long) in
    let not_short : ltb (length pushed) 3 ≡ false = ground (arith, enough) in
    rw not_short (
      omega (
        arith,
        length-append inputs (record { kind = kind; ordinal = 0; text = pushed; weight = w } ∷ []),
      ))

-- The text of the page is pushed last.
pub push_parts-some :
    (parts : Parts)
    → IsCollapsed true (truncate_chars parts.content_text 2_000)
    → 3 ≤ length parts.content_text
    → 1 ≤ length (push_parts parts)
unfolding push_parts
push_parts-some parts k long =
    push_input-some _ _ (truncate_chars parts.content_text 2_000) _ k
      (truncate_chars-long parts.content_text 2_000 3 (omega arith) (omega arith) long)

pub not_within : (n m : ℕ) → n < 1 → m ≡ n → within 1 96 m ≡ false
not_within n m h e = ground (arith, h, e)

-- the inputs with their places as ordinals
abbrev pub numbered : ℕ → List EmbeddingInput → List EmbeddingInput
numbered n [] = []
numbered n (input ∷ inputs) = record input { ordinal = n } ∷ numbered (suc n) inputs

pub number_inputs-numbered :
    (n : ℕ) (inputs : List EmbeddingInput)
    → n + length inputs ≤ 2 ^ 16
    → number_inputs n inputs ≡ ok (numbered n inputs)
unfolding number_inputs
number_inputs-numbered n [] h = refl
number_inputs-numbered n (input ∷ inputs) h =
    let small : ltb n (2 ^ 16) ≡ true = ground (arith, h) in
    rw (small, number_inputs-numbered (suc n) inputs (omega (arith, h))) refl

pub length-numbered :
    (n : ℕ) (inputs : List EmbeddingInput) → length (numbered n inputs) ≡ length inputs
length-numbered n [] = refl
length-numbered n (input ∷ inputs) = ap suc (length-numbered (suc n) inputs)

pub numbered-All :
    (n : ℕ) (inputs : List EmbeddingInput)
    → All IsValidInput inputs
    → (check_ordinals n (numbered n inputs) ≡ ok tt) × (validate_all (numbered n inputs) ≡ ok tt)
unfolding check_ordinals validate_all validate_input
numbered-All n [] h = (refl, refl)
numbered-All n (input ∷ inputs) (h, hs) =
    let (ordered, valid) = numbered-All (suc n) inputs hs in
    let here : (n == n) ≡ true = ground arith in (rw (h, here, ordered) refl, rw (h, valid) refl)

abbrev pub text_of : EmbeddingInput → Text
text_of input = input.text

pub numbered-IsFresh :
    (n : ℕ) (seen : List Text) (inputs : List EmbeddingInput)
    → IsFresh text_of seen inputs
    → IsFresh text_of seen (numbered n inputs)
numbered-IsFresh n seen [] h = tt
numbered-IsFresh n seen (input ∷ inputs) (h, hs) = (h, numbered-IsFresh (suc n) _ inputs hs)

-- the inputs before they are numbered
abbrev pub chosen : Parts → List EmbeddingInput
chosen parts = take 96 (dedupe_inputs (push_parts parts))

pub chosen-short : (parts : Parts) → length (chosen parts) ≤ 96
chosen-short parts = length-take-le 96 (dedupe_inputs (push_parts parts))

pub chosen-All : (parts : Parts) → All IsValidInput (chosen parts)
unfolding dedupe_inputs
chosen-All parts =
    All-take IsValidInput 96 _ (dedupe_by-All text_of IsValidInput [] _ (push_parts-All parts))

pub chosen-IsFresh : (parts : Parts) → IsFresh text_of [] (chosen parts)
unfolding dedupe_inputs
chosen-IsFresh parts =
    IsFresh-take text_of 96 [] _ (dedupe_by-IsFresh text_of [] (push_parts parts))
