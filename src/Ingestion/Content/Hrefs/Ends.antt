-- ===== src/Ingestion/Content/Hrefs/Ends.antt =====
-- How often the loop of `extract_href_values` runs.
use eal_sync.Prelude.{
  ℕ, zero, suc, ◌+◌, ◌≤◌, ◌≡◌, refl, ap, subst, Bool, [], ◌∷◌, ◌++◌, none, some, length,
  length-append, drop, ◌==◌, arith, Bool-cases, Option-cases, inl, inr,
}
use eal_sync.Prelude.Text.{Text, length-drop_while, codes, drop_while}
use eal_sync.Prelude.Search.{split_before, find_lower, starts_with_lower}
use eal_sync.Prelude.Search.Laws.{split_before-append, length-drop, starts_lower-length}
use eal_sync.Ingestion.Content.Hrefs.{
  is_ascii_whitespace, is_quote, ends_value, span_until, read_value, push_value, after_name,
  after_equals, href_values, extract_href_values,
}

length-drop-le : (k : ℕ) (s : Text) → length (drop k s) ≤ length s
length-drop-le zero s = omega arith
length-drop-le (suc k) [] = omega arith
length-drop-le (suc k) (c ∷ s) = omega (arith, length-drop-le k s)

after_equals-length : (s t : Text) → after_equals s ≡ some t → suc (length t) ≤ length s
unfolding after_equals
after_equals-length [] t e = absurd (ground (arith, e))
after_equals-length (c ∷ s) t e = elim (Bool-cases (c == b'=')) [
  | inl hit ↦
      let same : drop_while is_ascii_whitespace s ≡ t = ground (arith, e, hit) in
      subst (λ r. suc (length r) ≤ suc (length s)) same
        (omega (arith, length-drop_while is_ascii_whitespace s))
  | inr miss ↦ absurd (ground (arith, e, miss))
]

span_until-length : (test : ℕ → Bool) (s : Text) → length (span_until test s).1 ≤ length s
unfolding span_until
span_until-length test [] = omega arith
span_until-length test (c ∷ s) = elim (Bool-cases (test c)) [
  | inl ends ↦ rw ends (omega arith)
  | inr goes ↦ rw goes (omega (arith, span_until-length test s))
]

read_value-length : (s : Text) → length (read_value s).1 ≤ length s
unfolding read_value
read_value-length [] = omega arith
read_value-length (c ∷ s) = elim (Bool-cases (is_quote c)) [
  | inl quoted ↦ rw quoted (
      omega (
        arith,
        length-drop-le 1 (span_until (ends_value (some c)) s).1,
        span_until-length (ends_value (some c)) s,
      ))
  | inr bare ↦ rw bare (
      omega (
        arith,
        length-drop-le 1 (span_until (ends_value none) (c ∷ s)).1,
        span_until-length (ends_value none) (c ∷ s),
      ))
]

find_href-length :
    (s before from : Text)
    → find_lower (codes "href") s ≡ some (before, from)
    → 4 + length (drop 4 from) ≤ length s
unfolding find_lower
find_href-length s before from e =
    let (joined, passes) = split_before-append (starts_with_lower (codes "href")) s e in
    let long : 4 ≤ length from = starts_lower-length (codes "href") from passes in
    let whole : length s ≡ length (before ++ from) = ap length joined in
    omega (arith, long, whole, length-append before from, length-drop 4 from long)

-- Once there are as many rounds as characters, more rounds find no more values.
more_rounds :
    (more left : ℕ) (s : Text)
    → length s ≤ left
    → left ≤ more
    → href_values more s ≡ href_values left s
unfolding href_values find_lower split_before
more_rounds zero zero s h k = refl
more_rounds (suc more) zero [] h k = refl
more_rounds more zero (c ∷ s) h k = absurd (omega (arith, h))
more_rounds zero (suc left) s h k = absurd (omega (arith, k))
more_rounds (suc more) (suc left) s h k = elim (Option-cases (find_lower (codes "href") s)) [
  | inl nothing ↦ rw (nothing, href_values) refl
  | inr ((before, from), found) ↦
      let step = find_href-length s before from found in
      let spaces = length-drop_while is_ascii_whitespace (drop 4 from) in
      elim (Option-cases (after_equals (after_name from))) [
        | inl nothing ↦
            rw (found, nothing, href_values)
              (more_rounds more left (after_name from) (omega (arith, h, step, spaces))
                (omega (arith, k)))
        | inr (start, equals) ↦
            let gone = after_equals-length (after_name from) start equals in
            let value = read_value-length start in
            rw (found, equals, href_values)
              (ap (push_value (read_value start).0) (
                more_rounds more left (read_value start).1
                  (omega (arith, h, step, spaces, gone, value)) (omega (arith, k))))
      ]
]

-- The loop over the `href` attributes of a page ends within as many rounds as the page has
-- characters: any larger number of rounds gives the same values.
pub extract_href_values_ends :
    (html : Text) (k : ℕ) → href_values (length html + k) html ≡ extract_href_values html
unfolding extract_href_values
extract_href_values_ends html k =
    more_rounds (length html + k) (length html) html (omega arith) (omega arith)
