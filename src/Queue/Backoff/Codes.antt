-- ===== src/Queue/Backoff/Codes.antt =====
-- `sanitize_code` of runtime-worker/src/queue.rs: which part of an error code is stored.
use eal_sync.Prelude.{
  ℕ, zero, suc, ◌≤◌, ◌≡◌, ◌⊎◌, ◌∙◌, refl, ap, true, false, [], ◌∷◌, ◌++◌, keep, take, length, All,
  arith, Bool-cases, inl, inr,
}
use eal_sync.Prelude.Text.{Text, codes, is_ascii_alphanumeric, is_ascii_alphabetic, is_ascii_digit}
use eal_sync.Queue.Backoff.{is_code_char, or_default, sanitize_code}

-- A letter, a digit, `_` or `-`.
abbrev pub IsCodeChar : ℕ → Type 0
IsCodeChar c =
    ((b'A' ≤ c) × (c ≤ b'Z'))
    ⊎ ((b'a' ≤ c) × (c ≤ b'z'))
    ⊎ ((b'0' ≤ c) × (c ≤ b'9'))
    ⊎ (c ≡ b'_')
    ⊎ (c ≡ b'-')

-- `kept` has the characters of a text that a code may have, in their order, and no other.
pub data Keeps : Text → Text → Type 0 where
  ends : Keeps [] []
  keeps : {c : ℕ} {s kept : Text} → IsCodeChar c → Keeps s kept → Keeps (c ∷ s) (c ∷ kept)
  drops : {c : ℕ} {s kept : Text} → ¬ IsCodeChar c → Keeps s kept → Keeps (c ∷ s) kept

code_char : (c : ℕ) → is_code_char c ≡ true → IsCodeChar c
unfolding is_ascii_alphanumeric is_ascii_alphabetic is_ascii_digit
code_char c h = ground arith

not-IsCodeChar : (c : ℕ) → is_code_char c ≡ false → ¬ IsCodeChar c
unfolding is_ascii_alphanumeric is_ascii_alphabetic is_ascii_digit
not-IsCodeChar c h = ground arith

is_code_char_complete : (c : ℕ) → IsCodeChar c → is_code_char c ≡ true
is_code_char_complete c p = elim (Bool-cases (is_code_char c)) [
  | inl hit ↦ hit
  | inr miss ↦ absurd (not-IsCodeChar c miss p)
]

keep-Keeps : (s : Text) → Keeps s (keep is_code_char s)
keep-Keeps [] = ends
keep-Keeps (c ∷ s) = elim (Bool-cases (is_code_char c)) [
  | inl hit ↦ rw hit (keeps (code_char c hit) (keep-Keeps s))
  | inr miss ↦ rw miss (drops (not-IsCodeChar c miss) (keep-Keeps s))
]

Keeps-All : {s kept : Text} → Keeps s kept → All IsCodeChar kept
Keeps-All ends = tt
Keeps-All (keeps p k) = (p, Keeps-All k)
Keeps-All (drops p k) = Keeps-All k

keep-clean : (s : Text) → All IsCodeChar s → keep is_code_char s ≡ s
keep-clean [] h = refl
keep-clean (c ∷ s) (p, h) = rw (is_code_char_complete c p) (ap (λ r. c ∷ r) (keep-clean s h))

-- The first `n` characters of a text, and what follows them.
record IsStart (n : ℕ) (s start : Text) : Type 0 where
  rest : Text
  whole : s ≡ start ++ rest
  full : (rest ≡ []) ⊎ (length start ≡ n)

take-IsStart : (n : ℕ) (s : Text) → IsStart n s (take n s)
take-IsStart zero s = record { rest = s; whole = refl; full = inr refl }
take-IsStart (suc n) [] = record { rest = []; whole = refl; full = inl refl }
take-IsStart (suc n) (c ∷ s) =
    let i = take-IsStart n s in
    record {
      rest = i.rest;
      whole = ap (λ r. c ∷ r) i.whole;
      full = elim i.full [ inl e ↦ inl e | inr e ↦ inr (omega (arith, e)) ];
    }

take-short : (n : ℕ) (s : Text) → length s ≤ n → take n s ≡ s
take-short zero [] h = refl
take-short zero (c ∷ s) h = absurd (omega (arith, h))
take-short (suc n) [] h = refl
take-short (suc n) (c ∷ s) h = ap (λ r. c ∷ r) (take-short n s (omega (arith, h)))

take-le : (n : ℕ) (s : Text) → length (take n s) ≤ n
take-le zero s = omega arith
take-le (suc n) [] = omega arith
take-le (suc n) (c ∷ s) = omega (arith, take-le n s)

All-take : (n : ℕ) (s : Text) → All IsCodeChar s → All IsCodeChar (take n s)
All-take zero s h = tt
All-take (suc n) [] h = tt
All-take (suc n) (c ∷ s) (p, h) = (p, All-take n s h)

-- A code that can be stored: 1 to 128 characters, each of them a letter, a digit, `_` or `-`.
abbrev pub IsErrorCode : Text → Type 0
IsErrorCode code = (1 ≤ length code) × (length code ≤ 128) × All IsCodeChar code

-- The code is the first 128 of the characters that are kept, or `crawl_failed` if none are.
abbrev pub IsStored : Text → Text → Type 0
IsStored kept code =
    ((kept ≡ []) × (code ≡ codes "crawl_failed"))
    ⊎ (rest : Text) × (kept ≡ code ++ rest) × ((rest ≡ []) ⊎ (length code ≡ 128))

or_default_lem :
    (kept : Text)
    → All IsCodeChar kept
    → IsStored kept (or_default (take 128 kept)) × IsErrorCode (or_default (take 128 kept))
or_default_lem [] h = (inl (refl, refl), (omega arith, omega arith, ground arith))
or_default_lem (c ∷ kept) h =
    let i = take-IsStart 128 (c ∷ kept) in
    (
      inr (i.rest, i.whole, i.full),
      (omega arith, take-le 128 (c ∷ kept), All-take 128 (c ∷ kept) h),
    )

or_default_nonempty : (s : Text) → 1 ≤ length s → or_default s ≡ s
or_default_nonempty [] h = absurd (omega (arith, h))
or_default_nonempty (c ∷ s) h = refl

-- A code that can be stored is stored as it is.
stored_as_is : (code : Text) → IsErrorCode code → sanitize_code code ≡ code
unfolding sanitize_code
stored_as_is code (some_, short, plain) =
    ap (λ s. or_default (take 128 s)) (keep-clean code plain)
    ∙ ap or_default (take-short 128 code short)
    ∙ or_default_nonempty code some_

-- Whatever the error code was, what is stored is the first 128 of its letters, digits, `_` and `-` in
-- their order, or `crawl_failed` if it has none of these. It has 1 to 128 characters, all of them of
-- that kind, and storing it again changes nothing.
pub sanitize_code-IsErrorCode :
    (value : Text)
    → (kept : Text) × Keeps value kept
      × IsStored kept (sanitize_code value)
      × IsErrorCode (sanitize_code value)
      × (sanitize_code (sanitize_code value) ≡ sanitize_code value)
unfolding sanitize_code
sanitize_code-IsErrorCode value =
    let k = keep-Keeps value in
    let (stored, code) = or_default_lem (keep is_code_char value) (Keeps-All k) in
    (keep is_code_char value, k, stored, code, stored_as_is (sanitize_code value) code)
