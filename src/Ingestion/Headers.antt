-- ===== src/Ingestion/Headers.antt =====
-- src/ingestion/network/response.rs. Of a header map the code asks for the first value under a name:
-- `none` where there is none, and then whether that value is visible ASCII.
use eal_sync.Prelude.{
  ℕ, ◌+◌, ◌-◌, ◌*◌, ◌^◌, Bool, ◌||◌, ◌&&◌, List, [], ◌∷◌, Option, none, some, any, all, ltb,
  if◌then◌else◌,
}
use eal_sync.Prelude.Text.{
  Text, codes, text_eq, to_ascii_lowercase, trim, is_ascii_digit, ends_with, split, strip_prefix,
}
use eal_sync.Prelude.Result.{Result, ok, err, or_fail, ◌>>=◌}
use eal_sync.Net.Body.{read_bounded}
use eal_sync.Ingestion.Error.{IngestionError, error}

pub record HeaderMap : Type 0 where
  pub header : Text → Option (Option Text)

unfoldable pub header_string : HeaderMap → Text → Option Text
header_string headers name = elim (headers.header name) [ none ↦ none | some value ↦ value ]

abbrev digits_value : ℕ → Text → ℕ
digits_value n [] = n
digits_value n (c ∷ s) = digits_value (n * 10 + (c - b'0')) s

-- the digits of a number that fits 64 bits
abbrev parse_digits : Text → Option ℕ
parse_digits [] = none
parse_digits (c ∷ s) =
    if all is_ascii_digit (c ∷ s) && ltb (digits_value 0 (c ∷ s)) (2 ^ 64)
    then some (digits_value 0 (c ∷ s))
    else none

-- `str::parse::<u64>`, which takes a leading plus sign
unfoldable pub parse_u64 : Text → Option ℕ
parse_u64 s = elim (strip_prefix (codes "+") s) [
  | some rest ↦ parse_digits rest
  | none ↦ parse_digits s
]

unfoldable pub content_length : HeaderMap → Result IngestionError (Option ℕ)
content_length headers = elim (headers.header (codes "content-length")) [
  | none ↦ ok none
  | some value ↦ or_fail value (error "invalid_content_length") >>= λ text.
      or_fail (parse_u64 text) (error "invalid_content_length") >>= λ n. ok (some n)
]

unfoldable pub content_type : HeaderMap → Bool → Result IngestionError Text
content_type headers required = elim (headers.header (codes "content-type")) [
  | some value ↦
      or_fail value (error "invalid_content_type") >>= λ text. ok (to_ascii_lowercase text)
  | none ↦ if required then err (error "missing_content_type") else ok (codes "text/plain")
]

-- `value.split(';').next().unwrap_or(value).trim()`
abbrev first_part : Text → List Text → Text
first_part default [] = default
first_part default (p ∷ ps) = p

unfoldable pub base_content_type : Text → Text
base_content_type value = trim (first_part value (split b';' value))

abbrev ingestible_types : List Text
ingestible_types =
    codes "text/html"
    ∷ codes "application/xhtml+xml"
    ∷ codes "text/plain"
    ∷ codes "application/json"
    ∷ codes "application/feed+json"
    ∷ codes "application/xml"
    ∷ codes "text/xml"
    ∷ codes "application/rss+xml"
    ∷ codes "application/atom+xml"
    ∷ []

unfoldable pub is_allowed_content_type : Text → Bool
is_allowed_content_type value =
    let base = base_content_type value in
    any (text_eq base) ingestible_types
    || ends_with (codes "+json") base
    || ends_with (codes "+xml") base

unfoldable pub read_bounded_body : List (Result Text (List ℕ)) → ℕ → Result IngestionError (List ℕ)
read_bounded_body chunks max_bytes =
    read_bounded (λ _. error "body_read_failed") (error "response_too_large") max_bytes chunks
