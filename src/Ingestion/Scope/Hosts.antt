-- ===== src/Ingestion/Scope/Hosts.antt =====
-- The form of a host that a scope stores and compares.
use eal_sync.Prelude.{
  ℕ, ◌≤◌, ◌≡◌, refl, Bool, true, false, ◌||◌, List, [], ◌∷◌, none, some, all, All, All-map_lem,
  subst, Option, ◌==◌, within, arith, Bool-cases, inl, inr,
}
use eal_sync.Prelude.Text.{
  Text, split, contains, trim, drop_end_while, to_ascii_lower, to_ascii_lowercase, is_ascii_digit,
  is_ascii_alphabetic, is_ascii_alphanumeric, byte_len, is_some,
}
use eal_sync.Prelude.Result.{ok}
use eal_sync.Net.IpText.{parse_ip}
use eal_sync.Ingestion.Scope.{is_label, is_dot, normalize_host}

-- what a character of a label is
abbrev is_label_char : ℕ → Bool
is_label_char c = is_ascii_alphanumeric c || c == b'-'

-- a lower-case letter, a digit, a hyphen or a dot
abbrev pub is_dns_char : ℕ → Bool
is_dns_char c = within b'a' b'z' c || within b'0' b'9' c || c == b'-' || c == b'.'

abbrev HasLabels : List Text → Type 0
HasLabels parts = all (λ p. all is_label_char p) parts ≡ true

split_cons : (s : Text) → (p : Text) × (ps : List Text) × (split b'.' s ≡ p ∷ ps)
unfolding split
split_cons [] = ([], [], refl)
split_cons (c ∷ s) = elim (Bool-cases (c == b'.')) [
  | inl dot ↦ ([], split b'.' s, rw (dot, split) refl)
  | inr char ↦ let (p, ps, e) = split_cons s in (c ∷ p, ps, rw (char, split, e) refl)
]

-- The characters of the parts, and the separators between them, are all that a text has.
split-chars :
    (s : Text) → HasLabels (split b'.' s) → All (λ c. (is_label_char c || c == b'.') ≡ true) s
unfolding split
split-chars [] h = tt
split-chars (c ∷ s) h = elim (Bool-cases (c == b'.')) [
  | inl dot ↦ (rw dot (ground arith), split-chars s (ground (arith, dot)))
  | inr char ↦
      let (p, ps, e) = split_cons s in
      let (head, tail) : (is_label_char c ≡ true) × HasLabels (p ∷ ps) = ground (arith, char, e) in
      (rw head refl, split-chars s (rw e tail))
]

labels-HasLabels : (parts : List Text) → all is_label parts ≡ true → HasLabels parts
unfolding is_label
labels-HasLabels [] h = refl
labels-HasLabels (p ∷ ps) h = ground (arith, labels-HasLabels ps)

lower-not_upper : (c : ℕ) → within b'A' b'Z' (to_ascii_lower c) ≡ false
unfolding to_ascii_lower
lower-not_upper c = ground arith

dns_chars :
    (s : Text)
    → All (λ c. (is_label_char c || c == b'.') ≡ true) s
    → All (λ c. within b'A' b'Z' c ≡ false) s
    → All (λ c. is_dns_char c ≡ true) s
unfolding is_ascii_alphanumeric is_ascii_alphabetic is_ascii_digit
dns_chars [] l u = tt
dns_chars (c ∷ s) (l, ls) (u, us) = (ground arith, dns_chars s ls us)

-- A DNS name of at least two labels, in lower case, that no parser takes for an address.
pub record IsDnsName (host : Text) : Type 0 where
  pub chars : All (λ c. is_dns_char c ≡ true) host
  pub labels : all is_label (split b'.' host) ≡ true
  pub dotted : contains (b'.' ∷ []) host ≡ true
  pub short : byte_len host ≤ 253
  pub no_address : parse_ip host ≡ none

is_some-none : {A : Type 0} (o : Option A) → is_some o ≡ false → o ≡ none
is_some-none none h = refl
is_some-none (some a) h = cc

module _ (host : Text) {name : Text} (e : normalize_host host ≡ ok name) where
  abbrev lowered : Text
  lowered = to_ascii_lowercase (drop_end_while is_dot (trim host))

  lowered-name : lowered ≡ name
  unfolding normalize_host
  lowered-name = ground arith

  checked :
      (all is_label (split b'.' lowered) ≡ true)
      × (contains (b'.' ∷ []) lowered ≡ true)
      × (byte_len lowered ≤ 253)
      × (is_some (parse_ip lowered) ≡ false)
  unfolding normalize_host
  checked = ground arith

  lowered-IsDnsName : IsDnsName lowered
  unfolding to_ascii_lowercase
  lowered-IsDnsName =
      let (labels, dotted, short, no_address) = checked in
      record {
        chars =
            dns_chars lowered (split-chars lowered (labels-HasLabels (split b'.' lowered) labels)) (
              All-map_lem (λ c. within b'A' b'Z' c ≡ false) to_ascii_lower
                (drop_end_while is_dot (trim host)) lower-not_upper);
        labels = labels;
        dotted = dotted;
        short = short;
        no_address = is_some-none (parse_ip lowered) no_address;
      }

  -- A host that is accepted is stored as a DNS name: lower case, at least two labels of letters, digits
  -- and inner hyphens, at most 253 bytes, and no IP address.
  pub normalize_host-IsDnsName : IsDnsName name
  normalize_host-IsDnsName = subst IsDnsName lowered-name lowered-IsDnsName
