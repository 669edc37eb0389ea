-- ===== src/Ingestion/Content/Hrefs.antt =====
-- `extract_href_values` of src/ingestion/content.rs. The cursor is the text from it on; the source
-- counts bytes, and stops only at ASCII characters.
pub mod Ends
use eal_sync.Prelude.{
  ℕ, zero, suc, Bool, false, not, ◌&&◌, ◌||◌, List, [], ◌∷◌, Option, none, some, length, drop, ◌==◌,
  if◌then◌else◌,
}
use eal_sync.Prelude.Text.{Text, codes, drop_while}
use eal_sync.Prelude.Search.{find_lower}

-- `u8::is_ascii_whitespace`
unfoldable pub is_ascii_whitespace : ℕ → Bool
is_ascii_whitespace c = c == 0x20 || c == 0x09 || c == 0x0a || c == 0x0c || c == 0x0d

abbrev is_quote : ℕ → Bool
is_quote c = c == 0x27 || c == 0x22

-- what ends a value: its quote, or white space and `>` where it has none
abbrev ends_value : Option ℕ → ℕ → Bool
ends_value (some quote) c = c == quote
ends_value none c = is_ascii_whitespace c || c == b'>'

-- the text before the first character that passes the test, and from it on
unfoldable pub span_until : (ℕ → Bool) → Text → Text × Text
span_until test [] = ([], [])
span_until test (c ∷ s) =
    let (before, from) = span_until test s in if test c then ([], c ∷ s) else (c ∷ before, from)

-- the value that starts here, and the cursor after it
unfoldable pub read_value : Text → Text × Text
read_value [] = ([], [])
read_value (c ∷ s) =
    let quoted = span_until (ends_value (some c)) s in
    let bare = span_until (ends_value none) (c ∷ s) in
    let (value, from) = if is_quote c then quoted else bare in (value, drop 1 from)

abbrev push_value : Text → List Text → List Text
push_value [] values = values
push_value (c ∷ value) values = (c ∷ value) ∷ values

-- the text after `href` and white space
abbrev pub after_name : Text → Text
after_name from = drop_while is_ascii_whitespace (drop 4 from)

-- the text after `=` and white space, if `=` stands here
unfoldable pub after_equals : Text → Option Text
after_equals [] = none
after_equals (c ∷ s) = if c == b'=' then some (drop_while is_ascii_whitespace s) else none

-- the loop, with the number of rounds that are left
unfoldable pub href_values : ℕ → Text → List Text
href_values zero rest = []
href_values (suc left) rest = elim (find_lower (codes "href") rest) [
  | none ↦ []
  | some (before, from) ↦ elim (after_equals (after_name from)) [
    | none ↦ href_values left (after_name from)
    | some start ↦ push_value (read_value start).0 (href_values left (read_value start).1)
  ]
]

-- a round moves the cursor on, so there are no more rounds than characters
unfoldable pub extract_href_values : Text → List Text
extract_href_values html = href_values (length html) html
