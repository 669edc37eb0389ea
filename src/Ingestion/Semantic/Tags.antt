-- ===== src/Ingestion/Semantic/Tags.antt =====
-- `extract_tag_texts` of src/ingestion/semantic_views.rs. The module has copies of `strip_markup` and
-- `decode_common_entities` of src/ingestion/content.rs.
use eal_sync.Prelude.{
  ℕ, zero, suc, Bool, false, ◌||◌, List, [], ◌∷◌, Option, none, some, length, drop, ◌==◌,
  if◌then◌else◌,
}
use eal_sync.Prelude.Text.{Text, codes}
use eal_sync.Prelude.Search.{find_lower, find_text}
use eal_sync.Ingestion.Content.{strip_markup}
use eal_sync.Ingestion.Content.Blocks.{closing_of, decode_common_entities, opening_of}
use eal_sync.Ingestion.Semantic.Views.{collapse_whitespace, truncate_chars}

-- whether the name of the tag ends here
abbrev is_boundary : Text → Bool
is_boundary [] = false
is_boundary (c ∷ s) = c == b'>' || c == b' ' || c == b'\t' || c == b'\r' || c == b'\n'

-- what a tag's content says
unfoldable pub text_of_content : Text → Text
text_of_content content = collapse_whitespace (decode_common_entities (strip_markup content))

abbrev push_text : Text → List Text → List Text
push_text [] texts = texts
push_text (c ∷ s) texts = truncate_chars (c ∷ s) 700 ∷ texts

-- one fewer text may follow, where this one is not empty
abbrev room_after : Text → ℕ → ℕ
room_after [] room = room
room_after (c ∷ s) room = pred room
  where
    pred : ℕ → ℕ
    pred zero = zero
    pred (suc n) = n

-- the content of the element whose tag opens here, and what follows the closing tag
unfoldable pub read_element : Text → Text → Option (Text × Text)
read_element tag from = elim (find_text (codes ">") from) [
  | none ↦ none
  | some (attributes, opened) ↦ elim (find_lower (closing_of tag) (drop 1 opened)) [
    | none ↦ none
    | some (content, closed) ↦ some (content, drop (length (closing_of tag)) closed)
  ]
]

-- The loop: the rounds that are left, the texts that may follow, and the text from the cursor on.
unfoldable pub tag_texts : Text → ℕ → ℕ → Text → List Text
tag_texts tag zero room html = []
tag_texts tag (suc left) zero html = []
tag_texts tag (suc left) (suc room) html = elim (find_lower (opening_of tag) html) [
  | none ↦ []
  | some (before, from) ↦
      let after_prefix = drop (length (opening_of tag)) from in
      let passed = tag_texts tag left (suc room) after_prefix in
      let read : List Text = elim (read_element tag from) [
        | none ↦ []
        | some (content, rest) ↦
            let text = text_of_content content in
            push_text text (tag_texts tag left (room_after text (suc room)) rest)
      ] in
      if is_boundary after_prefix then read else passed
]

-- a round moves the cursor on, so there are no more rounds than characters
unfoldable pub extract_tag_texts : Text → Text → ℕ → List Text
extract_tag_texts html tag limit = tag_texts tag (length html) limit html
