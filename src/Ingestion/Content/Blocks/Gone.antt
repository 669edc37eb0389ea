-- ===== src/Ingestion/Content/Blocks/Gone.antt =====
-- What `remove_ignored_html_blocks` leaves.
use eal_sync.Prelude.{
  ℕ, zero, suc, ◌+◌, ◌≤◌, ◌≡◌, refl, sym, ap, subst, true, false, List, [], ◌∷◌, ◌++◌, length,
  length-append, drop, ◌∙◌, All, arith, Option-cases, inl, inr,
}
use mathlib.Core.List.{append-nil, append_assoc}
use eal_sync.Prelude.Text.{Text, contains, to_ascii_lowercase}
use eal_sync.Prelude.Search.{split_before, find_lower, starts_with_lower}
use eal_sync.Prelude.Search.Laws.{
  is_solid, split_before-append, find_lower-none, contains_cut, length-drop, starts_lower-length,
}
use eal_sync.Ingestion.Content.Blocks.{
  opening_of, closing_of, after_block, remove_tag, ignored_tags, remove_tags,
  remove_ignored_html_blocks,
}

-- the text has no opening of the tag, in upper or lower case
abbrev pub Lacks : Text → Text → Type 0
Lacks tag s = contains (opening_of tag) (to_ascii_lowercase s) ≡ false

-- `rest` is `from` without a first part
abbrev IsRest : Text → Text → Type 0
IsRest from rest = (gone : Text) × (from ≡ gone ++ rest)

drop-IsRest : (k : ℕ) (s : Text) → IsRest s (drop k s)
drop-IsRest zero s = ([], refl)
drop-IsRest (suc k) [] = ([], refl)
drop-IsRest (suc k) (c ∷ s) = let (gone, e) = drop-IsRest k s in (c ∷ gone, ap (λ t. c ∷ t) e)

after_block-IsRest : (closing from : Text) → IsRest from (after_block closing from)
unfolding after_block find_lower
after_block-IsRest closing from = elim (Option-cases (find_lower closing from)) [
  | inl nothing ↦ rw (nothing, after_block) (from, sym (append-nil from))
  | inr ((block, rest), found) ↦
      let (joined, passes) = split_before-append (starts_with_lower closing) from found in
      let (gone, e) = drop-IsRest (length closing) rest in
      rw (found, after_block)
        (block ++ gone, joined ∙ ap (λ t. block ++ t) e ∙ sym (append_assoc block gone _))
]

-- A block is at least as long as an opening that is not empty and one more.
after_block-length :
    (closing from : Text)
    → 2 ≤ length from
    → 2 ≤ length closing
    → length (after_block closing from) + 2 ≤ length from
unfolding after_block find_lower
after_block-length closing from h k = elim (Option-cases (find_lower closing from)) [
  | inl nothing ↦ rw (nothing, after_block) (omega (arith, h))
  | inr ((block, rest), found) ↦
      let (joined, passes) = split_before-append (starts_with_lower closing) from found in
      let long = starts_lower-length closing rest passes in
      let cut = length-drop (length closing) rest long in
      let whole = ap length joined in
      rw (found, after_block) (omega (arith, k, long, cut, whole, length-append block rest))
]

module _ (tag : Text) where
  -- one round of the loop
  abbrev round_of : Text → Text → Text
  round_of before from = before ++ b' ' ∷ after_block (closing_of tag) from

  round-Lacks :
      (other before from : Text)
      → is_solid (opening_of other) ≡ true
      → Lacks other (before ++ from)
      → Lacks other (round_of before from)
  round-Lacks other before from solid h =
      let (gone, e) = after_block-IsRest (closing_of tag) from in
      contains_cut (opening_of other) solid before gone (after_block (closing_of tag) from)
        (subst (λ t. Lacks other (before ++ t)) e h)

  -- The loop brings no opening back that was gone.
  remove_tag-keeps :
      (other : Text) (left : ℕ) (output : Text)
      → is_solid (opening_of other) ≡ true
      → Lacks other output
      → Lacks other (remove_tag tag left output)
  unfolding remove_tag find_lower
  remove_tag-keeps other zero output solid h = h
  remove_tag-keeps other (suc left) output solid h =
      elim (Option-cases (find_lower (opening_of tag) output)) [
        | inl nothing ↦ rw (nothing, remove_tag) h
        | inr ((before, from), found) ↦
            let (joined, _) =
              split_before-append (starts_with_lower (opening_of tag)) output found in
            rw (found, remove_tag)
              (remove_tag-keeps other left (round_of before from) solid
                (round-Lacks other before from solid (subst (Lacks other) joined h)))
      ]

  -- With as many rounds as characters the loop ends by itself, and no opening is left.
  remove_tag-Lacks :
      (left : ℕ) (output : Text)
      → is_solid (opening_of tag) ≡ true
      → 1 ≤ length tag
      → length output ≤ left
      → Lacks tag (remove_tag tag left output)
  unfolding remove_tag find_lower split_before
  remove_tag-Lacks zero [] solid named h = find_lower-none (opening_of tag) solid [] refl
  remove_tag-Lacks zero (c ∷ output) solid named h = absurd (omega (arith, h))
  remove_tag-Lacks (suc left) output solid named h =
      elim (Option-cases (find_lower (opening_of tag) output)) [
        | inl nothing ↦
            rw (nothing, remove_tag) (find_lower-none (opening_of tag) solid output nothing)
        | inr ((before, from), found) ↦
            let (joined, passes) =
              split_before-append (starts_with_lower (opening_of tag)) output found in
            let long = starts_lower-length (opening_of tag) from passes in
            let cut =
              after_block-length (closing_of tag) from (omega (arith, long, named)) (omega arith) in
            let whole = ap length joined in
            rw (found, remove_tag)
              (remove_tag-Lacks left (round_of before from) solid named (
                omega (
                  arith,
                  h,
                  cut,
                  whole,
                  length-append before from,
                  length-append before (b' ' ∷ after_block (closing_of tag) from),
                )))
      ]

-- The tag has characters, none of them a space.
abbrev IsTag : Text → Type 0
IsTag tag = (is_solid (opening_of tag) ≡ true) × (1 ≤ length tag)

remove_tags-keeps :
    (other : Text) (tags : List Text) (output : Text)
    → is_solid (opening_of other) ≡ true
    → Lacks other output
    → Lacks other (remove_tags tags output)
unfolding remove_tags
remove_tags-keeps other [] output solid h = h
remove_tags-keeps other (tag ∷ tags) output solid h =
    remove_tags-keeps other tags _ solid (remove_tag-keeps tag other (length output) output solid h)

remove_tags-Lacks :
    (tags : List Text) (output : Text)
    → All IsTag tags
    → All (λ tag. Lacks tag (remove_tags tags output)) tags
unfolding remove_tags
remove_tags-Lacks [] output h = tt
remove_tags-Lacks (tag ∷ tags) output ((solid, named), hs) = (
  remove_tags-keeps tag tags _ solid
      (remove_tag-Lacks tag (length output) output solid named (omega arith)),
  remove_tags-Lacks tags _ hs,
)

-- No opening of a script, style, noscript, template or svg element is left, in upper or lower case,
-- not even one that a removal could have joined.
pub remove_blocks_gone :
    (input : Text) → All (λ tag. Lacks tag (remove_ignored_html_blocks input)) ignored_tags
unfolding remove_ignored_html_blocks
remove_blocks_gone input = remove_tags-Lacks ignored_tags input (
  (refl, omega arith),
  ((refl, omega arith), ((refl, omega arith), ((refl, omega arith), ((refl, omega arith), tt)))),
)
