-- ===== src/Ingestion/Content/Fragments/Limits.antt =====
-- The limits on what is collected from a JSON value.
use eal_sync.Prelude.{
  ℕ, suc, max, ◌+◌, ◌≤◌, ◌≡◌, List, [], ◌∷◌, ◌++◌, length, length-append, arith, inl, inr,
}
use eal_sync.Prelude.Text.{Text}
use eal_sync.Prelude.Json.{
  Json, Items, Fields, null, boolean, number, string, array, object, nil, cons, end, field,
}
use eal_sync.Prelude.Result.{ok, Result-cases}
use eal_sync.Ingestion.Content.Fragments.{
  check_limits, collect_json_text, collect_items, collect_fields,
}

-- how many arrays and objects stand around the innermost value
unfoldable mutual
  pub nesting : Json → ℕ
  nesting (array values) = items_nesting values
  nesting (object fields) = fields_nesting fields
  nesting _ = 0

  pub items_nesting : Items → ℕ
  items_nesting nil = 0
  items_nesting (cons value values) = max (suc (nesting value)) (items_nesting values)

  pub fields_nesting : Fields → ℕ
  fields_nesting end = 0
  fields_nesting (field key value fields) = max (suc (nesting value)) (fields_nesting fields)

-- The fragments are few, and `depth` with what it contains is small.
abbrev Within : ℕ → ℕ → List Text → Type 0
Within depth inner output = (length output ≤ 20_000) × (depth + inner ≤ 64)

check_limits_sound :
    (depth : ℕ) (output : List Text)
    → check_limits depth output ≡ ok tt
    → (suc (length output) ≤ 20_000) × (depth ≤ 64)
unfolding check_limits
check_limits_sound depth output e = ground arith

mutual
  unfolding collect_json_text collect_items collect_fields nesting items_nesting fields_nesting

  value_Within :
      (value : Json) (depth : ℕ) (output : List Text) (out : List Text)
      → collect_json_text value depth output ≡ ok out
      → Within depth (nesting value) out
  value_Within null depth output out e = elim (Result-cases (check_limits depth output)) [
    | inl (x, refused) ↦ absurd (ground (arith, refused))
    | inr (u, passed) ↦ ground (arith, passed, check_limits_sound depth output)
  ]
  value_Within (boolean b) depth output out e = elim (Result-cases (check_limits depth output)) [
    | inl (x, refused) ↦ absurd (ground (arith, refused))
    | inr (u, passed) ↦ ground (arith, passed, check_limits_sound depth output)
  ]
  value_Within (number n) depth output out e = elim (Result-cases (check_limits depth output)) [
    | inl (x, refused) ↦ absurd (ground (arith, refused))
    | inr (u, passed) ↦ ground (arith, passed, check_limits_sound depth output)
  ]
  value_Within (string text) depth output out e = elim (Result-cases (check_limits depth output)) [
    | inl (x, refused) ↦ absurd (ground (arith, refused))
    | inr (u, passed) ↦
        ground (arith, passed, check_limits_sound depth output, length-append output (text ∷ []))
  ]
  value_Within (array values) depth output out e = elim (Result-cases (check_limits depth output)) [
    | inl (x, refused) ↦ absurd (ground (arith, refused))
    | inr (u, passed) ↦
        let (few, shallow) = check_limits_sound depth output passed in
        items_Within values depth output out (omega (arith, few)) shallow (ground (arith, passed))
  ]
  value_Within (object fields) depth output out e =
      elim (Result-cases (check_limits depth output)) [
        | inl (x, refused) ↦ absurd (ground (arith, refused))
        | inr (u, passed) ↦
            let (few, shallow) = check_limits_sound depth output passed in
            fields_Within fields depth output out (omega (arith, few)) shallow
              (ground (arith, passed))
      ]

  items_Within :
      (values : Items) (depth : ℕ) (output : List Text) (out : List Text)
      → length output ≤ 20_000
      → depth ≤ 64
      → collect_items values depth output ≡ ok out
      → Within depth (items_nesting values) out
  items_Within nil depth output out few shallow e = ground (arith, few, shallow)
  items_Within (cons value values) depth output out few shallow e =
      elim (Result-cases (collect_json_text value (suc depth) output)) [
        | inl (x, refused) ↦ absurd (ground (arith, refused))
        | inr (next, collected) ↦
            let (m, inner) = value_Within value (suc depth) output next collected in
            let (n, rest) =
              items_Within values depth next out m shallow (ground (arith, collected)) in
            (n, omega (arith, inner, rest))
      ]

  fields_Within :
      (fields : Fields) (depth : ℕ) (output : List Text) (out : List Text)
      → length output ≤ 20_000
      → depth ≤ 64
      → collect_fields fields depth output ≡ ok out
      → Within depth (fields_nesting fields) out
  fields_Within end depth output out few shallow e = ground (arith, few, shallow)
  fields_Within (field key value fields) depth output out few shallow e =
      elim (Result-cases (collect_json_text value (suc depth) (output ++ key ∷ []))) [
        | inl (x, refused) ↦ absurd (ground (arith, refused))
        | inr (next, collected) ↦
            let (m, inner) = value_Within value (suc depth) (output ++ key ∷ []) next collected in
            let (n, rest) =
              fields_Within fields depth next out m shallow (ground (arith, collected)) in
            (n, omega (arith, inner, rest))
      ]

-- A JSON value from which text is collected without an error nests at most 64 deep and yields at
-- most 20000 fragments.
pub collect_json_text_bounded :
    (value : Json) (out : List Text)
    → collect_json_text value 0 [] ≡ ok out
    → (length out ≤ 20_000) × (nesting value ≤ 64)
collect_json_text_bounded value out e =
    let (few, shallow) = value_Within value 0 [] out e in (few, omega (arith, shallow))
