-- ===== src/Ingestion/Revision.antt =====
-- src/ingestion/revision.rs: when a fetched page becomes a new revision, and what is embedded of it.
pub mod Laws
use eal_sync.Prelude.{
  ℕ, zero, suc, Bool, not, ◌||◌, ◌&&◌, List, [], ◌∷◌, Option, none, some, ◌==◌, ltb, within, length,
  all, map, if◌then◌else◌,
}
use eal_sync.Prelude.Text.{
  Text, text_eq, codes, trim, is_empty, byte_len, to_ascii_lowercase, is_ascii_digit,
}
use eal_sync.Prelude.Result.{Result, ok, guard, or_fail, ◌>>=◌, ◌>>◌}
use eal_sync.Runtime.PublicUrl.{eq_ignore_ascii_case}
use eal_sync.Ingestion.Error.{IngestionError, error}
use eal_sync.Ingestion.Input.{EmbeddingInput, validate_input}

pub data RevisionDecision : Type 0 where
  unchanged : RevisionDecision
  store_revision :
      (previous_content_sha256 : Option Text) (content_sha256 : Text) → RevisionDecision

unfoldable pub is_ascii_hexdigit : ℕ → Bool
is_ascii_hexdigit c = is_ascii_digit c || within b'a' b'f' c || within b'A' b'F' c

unfoldable pub validate_sha256 : Text → Result IngestionError (Unit {0})
validate_sha256 value =
    guard (not (not (byte_len value == 64) || not (all is_ascii_hexdigit value)))
      (error "invalid_content_hash")

unfoldable pub decide_revision : Option Text → Text → Result IngestionError RevisionDecision
decide_revision none current = do
  validate_sha256 current
  ok (store_revision none (to_ascii_lowercase current))
decide_revision (some previous) current = do
  validate_sha256 current
  validate_sha256 previous
  ok (
      if eq_ignore_ascii_case previous current
      then unchanged
      else store_revision (some (to_ascii_lowercase previous)) (to_ascii_lowercase current))

-- the loop of `validate_embedding_inputs`, with the ordinal that is expected next
unfoldable pub check_ordinals : ℕ → List EmbeddingInput → Result IngestionError (Unit {0})
check_ordinals expected_ordinal [] = ok tt
check_ordinals expected_ordinal (input ∷ inputs) = do
  validate_input input
  guard (input.ordinal == expected_ordinal) (error "invalid_embedding_inputs")
  check_ordinals (suc expected_ordinal) inputs

unfoldable pub validate_embedding_inputs : List EmbeddingInput → Result IngestionError (Unit {0})
validate_embedding_inputs inputs = do
  guard (not (length inputs == 0 || ltb 96 (length inputs))) (error "invalid_embedding_inputs")
  check_ordinals 0 inputs

unfoldable pub decide_revision_with_inputs :
    Option Text → Text → List EmbeddingInput → Result IngestionError RevisionDecision
decide_revision_with_inputs previous current inputs = do
  validate_embedding_inputs inputs
  decide_revision previous current

pub record EmbeddingWorkItem : Type 0 where
  pub tenant_id : Text
  pub source_id : Text
  pub canonical_url : Text
  pub source_revision_id : Text
  pub content_sha256 : Text
  pub content_text : Text
  pub embedding_text : Text
  pub embedding_inputs : List EmbeddingInput
  pub embedding_space_id : Text

-- the loop over the fields that must not be blank
unfoldable pub check_filled : List Text → Result IngestionError (Unit {0})
check_filled [] = ok tt
check_filled (value ∷ values) = do
  guard (not (is_empty (trim value))) (error "invalid_embedding_work_item")
  check_filled values

abbrev check_inputs : List EmbeddingInput → Result IngestionError (Unit {0})
check_inputs [] = ok tt
check_inputs (input ∷ inputs) = validate_embedding_inputs (input ∷ inputs)

-- `EmbeddingWorkItem::validate`; `canonicalize_url` of eal_semantic is an argument
unfoldable pub validate_work_item :
    (Text → Option Text) → EmbeddingWorkItem → Result IngestionError (Unit {0})
validate_work_item canonicalize_url item = do
  check_filled (
      item.tenant_id ∷ item.source_id ∷ item.canonical_url ∷ item.source_revision_id
      ∷ item.content_text ∷ item.embedding_space_id ∷ [])
  guard (not (ltb 24_000 (length item.embedding_text))) (error "invalid_embedding_work_item")
  check_inputs item.embedding_inputs
  validate_sha256 item.content_sha256
  _ ← or_fail (canonicalize_url item.canonical_url) (error "invalid_embedding_work_item")
  ok tt

unfoldable pub provider_text : EmbeddingWorkItem → Text
provider_text item =
    if is_empty (trim item.embedding_text) then item.content_text else item.embedding_text
