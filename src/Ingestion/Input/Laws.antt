-- ===== src/Ingestion/Input/Laws.antt =====
-- The text for embedders that take one text per page.
use eal_sync.Prelude.{
  ◌+◌, ◌≤◌, ◌≡◌, refl, List, [], ◌∷◌, ◌++◌, length, length-append, ltb, arith, Bool-cases, inl, inr,
  reverse,
}
use mathlib.Core.List.{reverse-cons}
use eal_sync.Prelude.Text.{
  Text, length-drop_while, is_whitespace, drop_while, drop_end_while, trim_end,
}
use eal_sync.Ingestion.Input.{
  EmbeddingInput, SemanticDocument, line_of, combine_lines, combined_embedding_text,
}

combine_lines-short :
    (output : Text) (inputs : List EmbeddingInput)
    → length output ≤ 24_000
    → length (combine_lines output inputs) ≤ 24_000
unfolding combine_lines
combine_lines-short output [] h = h
combine_lines-short output (input ∷ inputs) h =
    elim (Bool-cases (ltb 24_000 (length output + length (line_of input)))) [
      | inl long ↦ rw long h
      | inr fits ↦ rw fits (
          combine_lines-short (output ++ line_of input) inputs
            (ground (arith, fits, length-append output (line_of input))))
    ]

length-reverse : (s : Text) → length (reverse s) ≡ length s
length-reverse [] = refl
length-reverse (c ∷ s) =
    rw (reverse-cons c s) (omega (arith, length-append (reverse s) (c ∷ []), length-reverse s))

length-trim_end : (s : Text) → length (trim_end s) ≤ length s
unfolding trim_end drop_end_while
length-trim_end s = omega (
  arith,
  length-reverse (drop_while is_whitespace (reverse s)),
  length-drop_while is_whitespace (reverse s),
  length-reverse s,
)

-- The combined text of a document never has more than 24000 characters.
pub combined-short : (d : SemanticDocument) → length (combined_embedding_text d) ≤ 24_000
unfolding combined_embedding_text
combined-short d = omega (
  arith,
  length-trim_end (combine_lines [] d.embedding_inputs),
  combine_lines-short [] d.embedding_inputs (omega arith),
)
