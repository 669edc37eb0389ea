-- ===== src/Operation.antt =====
-- `Envelope` of src/lib.rs.
use eal_sync.Prelude.{ℕ, not}
use eal_sync.Prelude.Text.{Text, codes, trim, is_empty}
use eal_sync.Prelude.Result.{Result, guard}

pub record Envelope (T : Type 0) : Type 0 where
  pub operation_id : Text
  pub revision : ℕ
  pub payload : T

-- `Envelope::validate`
unfoldable pub validate : {T : Type 0} → Envelope T → Result Text (Unit {0})
validate envelope =
    guard (not (is_empty (trim envelope.operation_id))) (codes "operation_id is required")
