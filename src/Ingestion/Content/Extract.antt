-- ===== src/Ingestion/Content/Extract.antt =====
-- `extract_text` of src/ingestion/content.rs. What serde_json reads from a body is an argument.
use eal_sync.Prelude.{ℕ, Bool, ◌||◌, List, [], Option, if◌then◌else◌}
use eal_sync.Prelude.Text.{Text, codes, text_eq, ends_with}
use eal_sync.Prelude.Search.{join_texts}
use eal_sync.Prelude.Json.{Json}
use eal_sync.Prelude.Utf8.{from_utf8_lossy}
use eal_sync.Prelude.Result.{Result, ok, or_fail, ◌>>=◌}
use eal_sync.Ingestion.Error.{IngestionError, error}
use eal_sync.Ingestion.Headers.{base_content_type}
use eal_sync.Ingestion.Content.{strip_markup, collapse_whitespace}
use eal_sync.Ingestion.Content.Fragments.{collect_json_text}
use eal_sync.Ingestion.Content.Blocks.{remove_ignored_html_blocks, decode_common_entities}

unfoldable pub is_json_type : Text → Bool
is_json_type base =
    text_eq base (codes "application/json")
    || text_eq base (codes "application/feed+json")
    || ends_with (codes "+json") base

unfoldable pub is_html_type : Text → Bool
is_html_type base = text_eq base (codes "text/html") || text_eq base (codes "application/xhtml+xml")

module _ (from_slice : List ℕ → Option Json) where
  -- the text before its entities and white space are reduced
  unfoldable pub raw_text : Text → List ℕ → Result IngestionError Text
  raw_text base body =
      let decoded = from_utf8_lossy body in
      if is_json_type base
      then (or_fail (from_slice body) (error "invalid_json") >>= λ value.
          collect_json_text value 0 [] >>= λ fragments. ok (join_texts (codes " ") fragments))
      else if is_html_type base
      then ok (strip_markup (remove_ignored_html_blocks decoded))
      else if text_eq base (codes "text/plain")
      then ok decoded
      else ok (strip_markup decoded)

  unfoldable pub extract_text : Text → List ℕ → Result IngestionError Text
  extract_text content_type body = do
    text ← raw_text (base_content_type content_type) body
    ok (collapse_whitespace (decode_common_entities text))
