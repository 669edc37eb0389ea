-- ===== src/Ingestion/Content/Fragments.antt =====
-- `collect_json_text` of src/ingestion/content.rs. `depth` counts the values around this one; the
-- fragments collected so far are an argument and part of the result.
pub mod Limits
use eal_sync.Prelude.{ℕ, suc, not, List, [], ◌∷◌, ◌++◌, length, ltb, leb}
use eal_sync.Prelude.Text.{Text}
use eal_sync.Prelude.Json.{Json, Items, Fields, string, array, object, nil, cons, end, field}
use eal_sync.Prelude.Result.{Result, ok, guard, ◌>>=◌, ◌>>◌}
use eal_sync.Ingestion.Error.{IngestionError, error}

-- the two checks at each value
unfoldable pub check_limits : ℕ → List Text → Result IngestionError (Unit {0})
check_limits depth output = do
  guard (not (ltb 64 depth)) (error "json_too_deep")
  guard (not (leb 20_000 (length output))) (error "json_too_many_strings")

unfoldable mutual
  pub collect_json_text : Json → ℕ → List Text → Result IngestionError (List Text)
  collect_json_text (string text) depth output =
      check_limits depth output >> ok (output ++ text ∷ [])
  collect_json_text (array values) depth output =
      check_limits depth output >> collect_items values depth output
  collect_json_text (object fields) depth output =
      check_limits depth output >> collect_fields fields depth output
  collect_json_text _ depth output = check_limits depth output >> ok output

  -- the loop over the values of an array
  pub collect_items : Items → ℕ → List Text → Result IngestionError (List Text)
  collect_items nil depth output = ok output
  collect_items (cons value values) depth output = do
    next ← collect_json_text value (suc depth) output
    collect_items values depth next

  -- the loop over the members of an object
  pub collect_fields : Fields → ℕ → List Text → Result IngestionError (List Text)
  collect_fields end depth output = ok output
  collect_fields (field key value fields) depth output = do
    next ← collect_json_text value (suc depth) (output ++ key ∷ [])
    collect_fields fields depth next
