-- ===== src/Ingestion/Content/Laws.antt =====
-- What is left of a page after its markup and its white space are reduced.
use eal_sync.Prelude.{
  ℕ, ◌≡◌, ◌∙◌, ap, refl, Bool, true, false, not, ◌&&◌, ◌||◌, [], ◌∷◌, ◌++◌, All, keep, ◌==◌,
  Bool-cases, inl, inr,
}
use eal_sync.Prelude.Text.{Text, is_whitespace}
use eal_sync.Ingestion.Content.{
  strip_from, strip_markup, space_if, collapse_from, collapse_whitespace,
}

abbrev pub is_angle : ℕ → Bool
is_angle c = c == b'<' || c == b'>'

strip_from-plain : (inside : Bool) (s : Text) → All (λ c. is_angle c ≡ false) (strip_from inside s)
unfolding strip_from
strip_from-plain inside [] = tt
strip_from-plain inside (c ∷ s) = elim (Bool-cases (c == b'<')) [
  | inl open_ ↦ rw open_ (refl, strip_from-plain true s)
  | inr other ↦ elim (Bool-cases (c == b'>')) [
    | inl close ↦ rw (other, close) (refl, strip_from-plain false s)
    | inr plain ↦ elim (Bool-cases inside) [
      | inl within_ ↦ rw (other, plain, within_) (strip_from-plain true s)
      | inr outside ↦ rw (other, plain, outside) (rw (other, plain) refl, strip_from-plain false s)
    ]
  ]
]

-- `strip_markup` leaves no angle bracket.
strip_markup-plain : (s : Text) → All (λ c. is_angle c ≡ false) (strip_markup s)
unfolding strip_markup
strip_markup-plain s = strip_from-plain false s

-- Single spaces between words and none at the ends: `first` where nothing has been written yet.
pub data IsCollapsed : Bool → Text → Type 0 where
  done : {first : Bool} → IsCollapsed first []
  char :
      {first : Bool} (c : ℕ) (s : Text)
      → is_whitespace c ≡ false
      → IsCollapsed false s
      → IsCollapsed first (c ∷ s)
  space :
      (c : ℕ) (s : Text)
      → is_whitespace c ≡ false
      → IsCollapsed false s
      → IsCollapsed false (b' ' ∷ c ∷ s)

push-IsCollapsed :
    (pending : Bool) (c : ℕ) (s : Text)
    → is_whitespace c ≡ false
    → IsCollapsed false s
    → IsCollapsed false (space_if pending ++ c ∷ s)
push-IsCollapsed true c s word k = space c s word k
push-IsCollapsed false c s word k = char c s word k

collapse_from-IsCollapsed :
    (first pending : Bool) (s : Text)
    → (first && pending) ≡ false
    → IsCollapsed first (collapse_from first pending s)
unfolding collapse_from
collapse_from-IsCollapsed first pending [] h = done
collapse_from-IsCollapsed true pending (c ∷ s) h = elim (Bool-cases (is_whitespace c)) [
  | inl blank ↦ rw blank (collapse_from-IsCollapsed true false s refl)
  | inr word ↦ rw (word, h) (char c _ word (collapse_from-IsCollapsed false false s refl))
]
collapse_from-IsCollapsed false pending (c ∷ s) h = elim (Bool-cases (is_whitespace c)) [
  | inl blank ↦ rw blank (collapse_from-IsCollapsed false true s refl)
  | inr word ↦
      rw word (push-IsCollapsed pending c _ word (collapse_from-IsCollapsed false false s refl))
]

is_space : is_whitespace b' ' ≡ true
unfolding is_whitespace
is_space = refl

pub collapse-fixed :
    {first : Bool} {s : Text} → IsCollapsed first s → collapse_from first false s ≡ s
unfolding collapse_from
collapse-fixed done = refl
collapse-fixed (char c s word k) = rw (word, collapse_from, collapse-fixed k) refl
collapse-fixed (space c s word k) = rw (is_space, word, collapse_from, collapse-fixed k) refl

abbrev pub is_word_char : ℕ → Bool
is_word_char c = not (is_whitespace c)

pushed_keep :
    (pending : Bool) (c : ℕ) (s : Text)
    → is_whitespace c ≡ false
    → keep is_word_char (space_if pending ++ c ∷ s) ≡ c ∷ keep is_word_char s
pushed_keep true c s word = rw (is_space, word) refl
pushed_keep false c s word = rw word refl

collapse_from-keep :
    (first pending : Bool) (s : Text)
    → keep is_word_char (collapse_from first pending s) ≡ keep is_word_char s
unfolding collapse_from
collapse_from-keep first pending [] = refl
collapse_from-keep first true (c ∷ s) = elim (Bool-cases (is_whitespace c)) [
  | inl blank ↦ rw (blank, collapse_from-keep first (not first) s) refl
  | inr word ↦
      rw word (pushed_keep true c _ word ∙ ap (λ t. c ∷ t) (collapse_from-keep false false s))
]
collapse_from-keep first false (c ∷ s) = elim (Bool-cases (is_whitespace c)) [
  | inl blank ↦ rw (blank, collapse_from-keep first (not first) s) refl
  | inr word ↦
      rw word (pushed_keep false c _ word ∙ ap (λ t. c ∷ t) (collapse_from-keep false false s))
]

-- The result of `collapse_whitespace` has single spaces between words and none at its ends; it
-- keeps every character that is not white space, and to collapse it again changes nothing.
pub collapse_whitespace-IsCollapsed :
    (s : Text)
    → IsCollapsed true (collapse_whitespace s)
      × (keep is_word_char (collapse_whitespace s) ≡ keep is_word_char s)
      × (collapse_whitespace (collapse_whitespace s) ≡ collapse_whitespace s)
unfolding collapse_whitespace
collapse_whitespace-IsCollapsed s =
    let k = collapse_from-IsCollapsed true false s refl in
    (k, collapse_from-keep true false s, collapse-fixed k)
