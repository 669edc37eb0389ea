-- ===== src/Ingestion/Content/Blocks.antt =====
-- `remove_ignored_html_blocks` and `decode_common_entities` of src/ingestion/content.rs.
pub mod Gone
use eal_sync.Prelude.{
  ℕ, zero, suc, List, [], ◌∷◌, ◌++◌, Option, none, some, length, drop, if◌then◌else◌,
}
use eal_sync.Prelude.Text.{Text, codes}
use eal_sync.Prelude.Search.{find_lower, replace}

abbrev pub opening_of : Text → Text
opening_of tag = codes "<" ++ tag

abbrev pub closing_of : Text → Text
closing_of tag = codes "</" ++ tag ++ codes ">"

-- what follows the block that `from` begins with: nothing where it is not closed
unfoldable pub after_block : Text → Text → Text
after_block closing from = elim (find_lower closing from) [
  | none ↦ []
  | some (block, rest) ↦ drop (length closing) rest
]

-- the loop for one tag, with the number of rounds that are left
unfoldable pub remove_tag : Text → ℕ → Text → Text
remove_tag tag zero output = output
remove_tag tag (suc left) output = elim (find_lower (opening_of tag) output) [
  | none ↦ output
  | some (before, from) ↦ remove_tag tag left (before ++ b' ' ∷ after_block (closing_of tag) from)
]

abbrev pub ignored_tags : List Text
ignored_tags =
    codes "script" ∷ codes "style" ∷ codes "noscript" ∷ codes "template" ∷ codes "svg" ∷ []

-- a round makes the output shorter, so there are no more rounds than characters
unfoldable pub remove_tags : List Text → Text → Text
remove_tags [] output = output
remove_tags (tag ∷ tags) output = remove_tags tags (remove_tag tag (length output) output)

unfoldable pub remove_ignored_html_blocks : Text → Text
remove_ignored_html_blocks input = remove_tags ignored_tags input

abbrev replacements : List (Text × Text)
replacements =
    (codes "&nbsp;", codes " ")
    ∷ (codes "&#160;", codes " ")
    ∷ (codes "&amp;", codes "&")
    ∷ (codes "&lt;", codes "<")
    ∷ (codes "&gt;", codes ">")
    ∷ (codes "&quot;", b'"' ∷ [])
    ∷ (codes "&#39;", codes "'")
    ∷ (codes "&apos;", codes "'")
    ∷ []

-- a chain of `replace`
abbrev replace_all : List (Text × Text) → Text → Text
replace_all [] s = s
replace_all ((p, by) ∷ rest) s = replace_all rest (replace p by s)

unfoldable pub decode_common_entities : Text → Text
decode_common_entities input = replace_all replacements input
