-- ===== src/Ingestion/Revision/Laws.antt =====
-- When a fetched page is stored, and under which hash.
use eal_sync.Prelude.{
  ℕ, suc, ◌≤◌, ◌≡◌, refl, sym, true, List, [], ◌∷◌, All, subst, Option, none, some, all, map,
  length, arith, Bool-cases, inl, inr, ◌↔◌,
}
use eal_sync.Prelude.Text.{
  Text, text_eq→eq, text_eq_refl, byte_len, to_ascii_lower, to_ascii_lowercase, is_ascii_digit,
}
use eal_sync.Prelude.Result.{ok, Result-cases}
use eal_sync.Runtime.PublicUrl.{eq_ignore_ascii_case}
use eal_sync.Ingestion.Input.{EmbeddingInput, validate_input}
use eal_sync.Ingestion.Revision.{
  unchanged, store_revision, is_ascii_hexdigit, validate_sha256, decide_revision, check_ordinals,
  validate_embedding_inputs,
}

lower_idempotent : (c : ℕ) → to_ascii_lower (to_ascii_lower c) ≡ to_ascii_lower c
unfolding to_ascii_lower
lower_idempotent c = ground arith

lowercase_idempotent : (s : Text) → to_ascii_lowercase (to_ascii_lowercase s) ≡ to_ascii_lowercase s
unfolding to_ascii_lowercase
lowercase_idempotent [] = refl
lowercase_idempotent (c ∷ s) = rw (lower_idempotent c, lowercase_idempotent s) refl

lower_hexdigit : (c : ℕ) → is_ascii_hexdigit c ≡ true → is_ascii_hexdigit (to_ascii_lower c) ≡ true
unfolding is_ascii_hexdigit is_ascii_digit to_ascii_lower
lower_hexdigit c h = ground arith

lower_hexdigits :
    (s : Text)
    → all is_ascii_hexdigit s ≡ true
    → all is_ascii_hexdigit (to_ascii_lowercase s) ≡ true
unfolding to_ascii_lowercase
lower_hexdigits [] h = refl
lower_hexdigits (c ∷ s) h = ground (arith, lower_hexdigit c, lower_hexdigits s)

lower-byte_len : (s : Text) → byte_len (to_ascii_lowercase s) ≡ byte_len s
unfolding byte_len to_ascii_lowercase to_ascii_lower
lower-byte_len [] = refl
lower-byte_len (c ∷ s) = ground (arith, lower-byte_len s)

-- 64 hexadecimal digits
abbrev pub IsSha256 : Text → Type 0
IsSha256 s = (byte_len s ≡ 64) × (all is_ascii_hexdigit s ≡ true)

validate_sha256_sound : (s : Text) → validate_sha256 s ≡ ok tt → IsSha256 s
unfolding validate_sha256
validate_sha256_sound s e = ground arith

validate_sha256_complete : (s : Text) → IsSha256 s → validate_sha256 s ≡ ok tt
unfolding validate_sha256
validate_sha256_complete s h = ground arith

-- Of two valid digests, a page is unchanged exactly when they are equal up to the case of letters.
unchanged_iff :
    (previous current : Text)
    → IsSha256 previous
    → IsSha256 current
    → (decide_revision (some previous) current ≡ ok unchanged)
      ↔ (to_ascii_lowercase previous ≡ to_ascii_lowercase current)
unfolding decide_revision eq_ignore_ascii_case
unchanged_iff previous current p c = (forth, back)
  where
    valid_p : validate_sha256 previous ≡ ok tt
    valid_p = validate_sha256_complete previous p

    valid_c : validate_sha256 current ≡ ok tt
    valid_c = validate_sha256_complete current c

    forth :
        decide_revision (some previous) current ≡ ok unchanged
        → to_ascii_lowercase previous ≡ to_ascii_lowercase current
    forth e = elim (Bool-cases (eq_ignore_ascii_case previous current)) [
      | inl same ↦ text_eq→eq (to_ascii_lowercase previous) (to_ascii_lowercase current) same
      | inr other ↦ absurd (ground (arith, valid_p, valid_c, other))
    ]

    back :
        to_ascii_lowercase previous ≡ to_ascii_lowercase current
        → decide_revision (some previous) current ≡ ok unchanged
    back e = rw (valid_c, valid_p, e, text_eq_refl (to_ascii_lowercase current)) refl

stored_is :
    (previous : Option Text) (current : Text) (linked : Option Text) (stored : Text)
    → decide_revision previous current ≡ ok (store_revision linked stored)
    → (to_ascii_lowercase current ≡ stored) × (validate_sha256 current ≡ ok tt)
unfolding decide_revision
stored_is none current linked stored e = ground arith
stored_is (some previous) current linked stored e =
    elim (Bool-cases (eq_ignore_ascii_case previous current)) [
      | inl same ↦ absurd (ground (arith, same))
      | inr other ↦ ground (arith, other)
    ]

lower-IsSha256 :
    (s : Text) → byte_len s ≡ 64 → all is_ascii_hexdigit s ≡ true → IsSha256 (to_ascii_lowercase s)
lower-IsSha256 s len hex = (rw (lower-byte_len s) len, lower_hexdigits s hex)

-- What is stored of a page is a digest in lower case, and the same content is unchanged when it is
-- fetched again.
pub stored-unchanged :
    (previous : Option Text) (current : Text) (linked : Option Text) (stored : Text)
    → decide_revision previous current ≡ ok (store_revision linked stored)
    → (decide_revision (some stored) current ≡ ok unchanged)
      × IsSha256 stored
      × (to_ascii_lowercase stored ≡ stored)
stored-unchanged previous current linked stored e =
    let (same, valid) = stored_is previous current linked stored e in
    let (len, hex) = validate_sha256_sound current valid in
    let digest : IsSha256 stored = subst IsSha256 same (lower-IsSha256 current len hex) in
    let lower : to_ascii_lowercase stored ≡ stored = rw (sym same) (lowercase_idempotent current) in
    (
      (unchanged_iff stored current digest (validate_sha256_sound current valid)).1
          (rw (lower, same) refl),
      digest,
      lower,
    )

-- the numbers from `n` on
abbrev pub counted : ℕ → List EmbeddingInput → List ℕ
counted n [] = []
counted n (input ∷ inputs) = n ∷ counted (suc n) inputs

abbrev pub IsValidInput : EmbeddingInput → Type 0
IsValidInput input = validate_input input ≡ ok tt

ordinals_from :
    (n : ℕ) (inputs : List EmbeddingInput)
    → check_ordinals n inputs ≡ ok tt
    → All IsValidInput inputs × (map (λ (i : EmbeddingInput). i.ordinal) inputs ≡ counted n inputs)
unfolding check_ordinals
ordinals_from n [] e = (tt, refl)
ordinals_from n (input ∷ inputs) e = elim (Result-cases (validate_input input)) [
  | inl (x, refused) ↦ absurd (ground (arith, refused))
  | inr (u, valid) ↦
      let here : input.ordinal ≡ n = ground (arith, valid) in
      let (valids, rest) = ordinals_from (suc n) inputs (ground (arith, valid)) in
      ((valid, valids), rw (here, rest) refl)
]

-- Inputs that are accepted are 1 to 96, each is valid, and they are numbered from 0 in order.
pub embedding_inputs_sound :
    (inputs : List EmbeddingInput)
    → validate_embedding_inputs inputs ≡ ok tt
    → (1 ≤ length inputs)
      × (length inputs ≤ 96)
      × All IsValidInput inputs
      × (map (λ (i : EmbeddingInput). i.ordinal) inputs ≡ counted 0 inputs)
unfolding validate_embedding_inputs
embedding_inputs_sound inputs e =
    let (few, many) : (1 ≤ length inputs) × (length inputs ≤ 96) = ground arith in
    let (valids, order) = ordinals_from 0 inputs (ground arith) in (few, many, valids, order)
