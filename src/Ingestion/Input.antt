-- ===== src/Ingestion/Input.antt =====
-- `EmbeddingInput` and `SemanticDocument` of src/ingestion/semantic_views.rs.
pub mod Laws
use eal_sync.Prelude.{
  ℕ, ◌+◌, ◌*◌, ◌^◌, Bool, true, false, not, ◌||◌, ◌&&◌, List, [], ◌∷◌, ◌++◌, Option, ltb, leb,
  within, length, if◌then◌else◌,
}
use eal_sync.Prelude.Text.{Text, codes, trim, trim_end, is_empty}
use eal_sync.Prelude.Result.{Result, ok, guard, ◌>>=◌, ◌>>◌}
use eal_sync.Ingestion.Error.{IngestionError, error}

pub data EmbeddingInputKind : Type 0 where
  title heading summary sentence entity keyword url_signal document : EmbeddingInputKind

-- f32: a finite value is `significand * 2 ^ exponent / 2 ^ 149`, or minus that
pub data F32 : Type 0 where
  nan : F32
  infinite : Bool → F32
  finite : (negative : Bool) (significand exponent : ℕ) → F32

pub record EmbeddingInput : Type 0 where
  pub kind : EmbeddingInputKind
  pub ordinal : ℕ
  pub text : Text
  pub weight : F32

-- `weight.is_finite() && (0.1..=2.0).contains(&weight)`: the f32 nearest to 0.1 is 13421773 / 2^27
abbrev pub is_weight : F32 → Bool
is_weight nan = false
is_weight (infinite negative) = false
is_weight (finite negative significand exponent) =
    not negative && within (13_421_773 * 2 ^ 122) (2 ^ 150) (significand * 2 ^ exponent)

unfoldable pub validate_input : EmbeddingInput → Result IngestionError (Unit {0})
validate_input input = do
  guard (not (is_empty (trim input.text) || ltb 700 (length input.text)))
      (error "invalid_embedding_input")
  guard (is_weight input.weight) (error "invalid_embedding_input")

pub record SemanticDocument : Type 0 where
  pub title : Option Text
  pub content_text : Text
  pub keywords : List Text
  pub entities : List Text
  pub embedding_inputs : List EmbeddingInput

unfoldable pub validate_all : List EmbeddingInput → Result IngestionError (Unit {0})
validate_all [] = ok tt
validate_all (input ∷ inputs) = do validate_input input; validate_all inputs

-- `SemanticDocument::validate`
unfoldable pub validate_document : SemanticDocument → Result IngestionError (Unit {0})
validate_document d = do
  guard (not (is_empty (trim d.content_text))) (error "empty_content")
  guard (within 1 96 (length d.embedding_inputs)) (error "invalid_embedding_inputs")
  validate_all d.embedding_inputs

-- `input_kind_label`
abbrev pub input_kind_label : EmbeddingInputKind → Text
input_kind_label title = codes "title"
input_kind_label heading = codes "heading"
input_kind_label summary = codes "summary"
input_kind_label sentence = codes "sentence"
input_kind_label entity = codes "entities"
input_kind_label keyword = codes "keywords"
input_kind_label url_signal = codes "url"
input_kind_label document = codes "document"

abbrev pub line_of : EmbeddingInput → Text
line_of input = input_kind_label input.kind ++ codes ": " ++ input.text ++ codes "\n"

-- the loop of `combined_embedding_text`, with the text so far
unfoldable pub combine_lines : Text → List EmbeddingInput → Text
combine_lines output [] = output
combine_lines output (input ∷ inputs) =
    let rest = combine_lines (output ++ line_of input) inputs in
    if ltb 24_000 (length output + length (line_of input)) then output else rest

unfoldable pub combined_embedding_text : SemanticDocument → Text
combined_embedding_text d = trim_end (combine_lines [] d.embedding_inputs)
