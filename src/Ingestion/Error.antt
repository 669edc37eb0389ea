-- ===== src/Ingestion/Error.antt =====
-- `IngestionError` of src/ingestion/mod.rs. An error is its code: the messages show errors of other
-- crates, and no code reads them.
use eal_sync.Prelude.{String}
use eal_sync.Prelude.Text.{Text, codes}

pub record IngestionError : Type 0 where
  pub code : Text

abbrev pub error : String → IngestionError
error code = record { code = codes code }
