-- ===== src/Ingestion/Semantic/Views/Laws.antt =====
-- What the helpers of a document's views return.
use eal_sync.Prelude.{
  ℕ, zero, suc, ◌-◌, ◌≤◌, ◌≡◌, refl, sym, ap, subst, ◌∙◌, Bool, true, false, List, [], ◌∷◌, ◌++◌,
  reverse, length, length-append, length-take-le, length-take, take, leb, All, arith, Bool-cases,
  inl, inr, ◌⊎◌,
}
use mathlib.Core.List.{reverse-cons, reverse-append, reverse-reverse}
use eal_sync.Prelude.Text.{
  Text, is_whitespace, is_empty, trim, trim_end, drop_while, drop_end_while, to_ascii_lowercase,
}
use eal_sync.Prelude.Search.{text_in}
use eal_sync.Ingestion.Content
use eal_sync.Ingestion.Content.Laws.{
  IsCollapsed, done, char, space, collapse_whitespace-IsCollapsed, collapse-fixed,
}
use eal_sync.Ingestion.Semantic.Views.{truncate_chars, dedupe_by, collapse_whitespace}

-- a collapsed text that is not empty ends with a character that is not white space
ends_in_word :
    {first : Bool} {s : Text}
    → IsCollapsed first s
    → (s ≡ []) ⊎ ((before : Text) × (c : ℕ) × (s ≡ before ++ c ∷ []) × (is_whitespace c ≡ false))
ends_in_word done = inl refl
ends_in_word (char c s word k) = elim (ends_in_word k) [
  | inl e ↦ inr ([], c, ap (λ t. c ∷ t) e, word)
  | inr (before, d, e, last) ↦ inr (c ∷ before, d, ap (λ t. c ∷ t) e, last)
]
ends_in_word (space c s word k) = elim (ends_in_word k) [
  | inl e ↦ inr (b' ' ∷ [], c, ap (λ t. b' ' ∷ c ∷ t) e, word)
  | inr (before, d, e, last) ↦ inr (b' ' ∷ c ∷ before, d, ap (λ t. b' ' ∷ c ∷ t) e, last)
]

trim_end-word :
    (before : Text) (c : ℕ)
    → is_whitespace c ≡ false
    → trim_end (before ++ c ∷ []) ≡ before ++ c ∷ []
unfolding trim_end drop_end_while drop_while
trim_end-word before c word =
    rw (reverse-append before (c ∷ []))
      (rw word (reverse-cons c (reverse before) ∙ ap (λ t. t ++ c ∷ []) (reverse-reverse before)))

trim-IsCollapsed : {s : Text} → IsCollapsed true s → trim s ≡ s
unfolding trim drop_while trim_end drop_end_while
trim-IsCollapsed done = refl
trim-IsCollapsed (char c s word k) = elim (ends_in_word (char {first = true} c s word k)) [
  | inl e ↦ absurd (ground (arith, e))
  | inr (before, d, e, last) ↦ rw word (rw e (trim_end-word before d last))
]

-- The two functions of the program that collapse white space agree: the trimming of the second does
-- nothing.
collapse-agrees : (s : Text) → collapse_whitespace s ≡ Content.collapse_whitespace s
unfolding collapse_whitespace
collapse-agrees s = trim-IsCollapsed (collapse_whitespace-IsCollapsed s).0

pub collapsed : (s : Text) → IsCollapsed true (collapse_whitespace s)
collapsed s =
    subst (IsCollapsed true) (sym (collapse-agrees s)) (collapse_whitespace-IsCollapsed s).0

pub collapse-again : {s : Text} → IsCollapsed true s → collapse_whitespace s ≡ s
unfolding Content.collapse_whitespace Content.collapse_from
collapse-again {s} k = collapse-agrees s ∙ collapse-fixed k

-- The limit is at least one character.
pub length-truncate_chars : (value : Text) (n : ℕ) → 1 ≤ n → length (truncate_chars value n) ≤ n
unfolding truncate_chars
length-truncate_chars value n h = elim (Bool-cases (leb (length value) n)) [
  | inl fits ↦ rw fits (ground (arith, fits))
  | inr long ↦ rw long (
      omega
        (arith, h, length-append (take (n - 1) value) (0x2026 ∷ []), length-take-le (n - 1) value))
]

pub truncate_chars-long :
    (value : Text) (n m : ℕ)
    → m ≤ n
    → 1 ≤ n
    → m ≤ length value
    → m ≤ length (truncate_chars value n)
unfolding truncate_chars
truncate_chars-long value n m h k few = elim (Bool-cases (leb (length value) n)) [
  | inl fits ↦ rw fits few
  | inr long ↦ rw long (
      ground (
        arith,
        long,
        h,
        k,
        length-append (take (n - 1) value) (0x2026 ∷ []),
        length-take (n - 1) value,
      ))
]

ellipsis_is_word : is_whitespace 0x2026 ≡ false
unfolding is_whitespace
ellipsis_is_word = refl

take-IsCollapsed :
    {first : Bool} (n : ℕ) {s : Text}
    → IsCollapsed first s
    → IsCollapsed first (take n s ++ 0x2026 ∷ [])
take-IsCollapsed zero k = char 0x2026 [] ellipsis_is_word done
take-IsCollapsed (suc n) done = char 0x2026 [] ellipsis_is_word done
take-IsCollapsed (suc n) (char c s word k) = char c _ word (take-IsCollapsed n k)
take-IsCollapsed (suc zero) (space c s word k) = space 0x2026 [] ellipsis_is_word done
take-IsCollapsed (suc (suc n)) (space c s word k) = space c _ word (take-IsCollapsed n k)

pub truncate-IsCollapsed :
    (n : ℕ) {s : Text} → IsCollapsed true s → IsCollapsed true (truncate_chars s n)
unfolding truncate_chars
truncate-IsCollapsed n {s} k = elim (Bool-cases (leb (length s) n)) [
  | inl fits ↦ rw fits k
  | inr long ↦ rw long (take-IsCollapsed (n - 1) k)
]

-- A collapsed text that is not empty is not blank.
pub is_not_blank : {s : Text} → IsCollapsed true s → 1 ≤ length s → is_empty (trim s) ≡ false
is_not_blank done h = absurd (omega (arith, h))
is_not_blank (char c s word k) h = rw (trim-IsCollapsed (char {first = true} c s word k)) refl

module _ {ℓ} {A : Type ℓ} (text_of : A → Text) where
  -- No two of the items have one text, up to the case of ASCII letters, and none is in the set.
  abbrev pub IsFresh : List Text → List A → Type 0
  IsFresh seen [] = Unit
  IsFresh seen (item ∷ items) =
      (text_in (to_ascii_lowercase (text_of item)) seen ≡ false)
      × IsFresh (to_ascii_lowercase (text_of item) ∷ seen) items

  pub dedupe_by-IsFresh :
      (seen : List Text) (items : List A) → IsFresh seen (dedupe_by text_of seen items)
  unfolding dedupe_by
  dedupe_by-IsFresh seen [] = tt
  dedupe_by-IsFresh seen (item ∷ items) =
      let key = to_ascii_lowercase (text_of item) in
      elim (Bool-cases (text_in key seen)) [
        | inl old ↦ rw old (dedupe_by-IsFresh seen items)
        | inr new ↦ rw new (new, dedupe_by-IsFresh (key ∷ seen) items)
      ]

  pub IsFresh-take :
      (n : ℕ) (seen : List Text) (items : List A) → IsFresh seen items → IsFresh seen (take n items)
  IsFresh-take zero seen items h = tt
  IsFresh-take (suc n) seen [] h = tt
  IsFresh-take (suc n) seen (item ∷ items) (h, hs) = (h, IsFresh-take n _ items hs)

  pub dedupe_by-All {κ} :
      (P : A → Type κ) (seen : List Text) (items : List A)
      → All P items
      → All P (dedupe_by text_of seen items)
  unfolding dedupe_by
  dedupe_by-All P seen [] h = tt
  dedupe_by-All P seen (item ∷ items) (h, hs) =
      let key = to_ascii_lowercase (text_of item) in
      elim (Bool-cases (text_in key seen)) [
        | inl old ↦ rw old (dedupe_by-All P seen items hs)
        | inr new ↦ rw new (h, dedupe_by-All P (key ∷ seen) items hs)
      ]

  -- Something is left of a list that is not empty.
  pub dedupe_by-some : (items : List A) → 1 ≤ length items → 1 ≤ length (dedupe_by text_of [] items)
  unfolding dedupe_by
  dedupe_by-some [] h = h
  dedupe_by-some (item ∷ items) h = omega arith
