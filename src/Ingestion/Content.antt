-- ===== src/Ingestion/Content.antt =====
-- The text of a fetched page: `strip_markup`, `collapse_whitespace` and `collect_json_text` of
-- src/ingestion/content.rs.
pub mod Laws
pub mod Fragments
pub mod Blocks
pub mod Extract
pub mod Hrefs
pub mod Links
use eal_sync.Prelude.{
  ℕ, suc, Bool, true, false, not, List, [], ◌∷◌, ◌++◌, ◌==◌, ltb, leb, length, if◌then◌else◌,
}
use eal_sync.Prelude.Text.{Text, is_whitespace, is_empty}
use eal_sync.Prelude.Result.{Result, ok, err, guard, ◌>>=◌, ◌>>◌}
use eal_sync.Ingestion.Error.{IngestionError, error}

-- the loop of `strip_markup`: whether it stands inside a tag, and the characters to come
unfoldable pub strip_from : Bool → Text → Text
strip_from inside_tag [] = []
strip_from inside_tag (c ∷ s) =
    let opened = strip_from true s in
    let closed = strip_from false s in
    if c == b'<'
    then b' ' ∷ opened
    else if c == b'>'
    then b' ' ∷ closed
    else if inside_tag
    then opened
    else c ∷ closed

unfoldable pub strip_markup : Text → Text
strip_markup input = strip_from false input

abbrev space_if : Bool → Text
space_if true = b' ' ∷ []
space_if false = []

-- the loop of `collapse_whitespace`: whether the output is empty, whether a space is pending, and the
-- characters to come
unfoldable pub collapse_from : Bool → Bool → Text → Text
collapse_from output_empty pending_space [] = []
collapse_from output_empty pending_space (c ∷ s) =
    let skipped = collapse_from output_empty (not output_empty) s in
    let pushed = collapse_from false false s in
    if is_whitespace c then skipped else space_if pending_space ++ c ∷ pushed

unfoldable pub collapse_whitespace : Text → Text
collapse_whitespace input = collapse_from true false input
