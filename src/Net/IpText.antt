-- ===== src/Net/IpText.antt =====
-- `str::parse::<std::net::IpAddr>`, after the parser of the standard library: an IPv4 address is four
-- decimal octets with no leading zero, an IPv6 address is eight groups of hexadecimal digits with at
-- most one `::` and an optional IPv4 tail.
use eal_sync.Prelude.{
  ℕ, zero, suc, ◌+◌, ◌-◌, ◌*◌, ◌≡◌, refl, Bool, true, false, ◌&&◌, ◌||◌, List, [], ◌∷◌, ◌++◌,
  Option, none, some, ◌==◌, ltb, leb, within, if◌then◌else◌, length,
}
use eal_sync.Prelude.Text.{Text, is_ascii_digit, codes}
use eal_sync.Net.Ip.{Ipv4Addr, Ipv6Addr, IpAddr, v4, v6}

-- A reader gives the value and the rest of the text, or fails and leaves its caller's position.
abbrev Reader : Type 0 → Type 0
Reader A = Text → Option (A × Text)

abbrev digit_value : ℕ → ℕ → Option ℕ
digit_value radix c =
    if is_ascii_digit c && ltb (c - b'0') radix
    then some (c - b'0')
    else if within b'a' b'f' c && ltb (c - b'a' + 10) radix
    then some (c - b'a' + 10)
    else if within b'A' b'F' c && ltb (c - b'A' + 10) radix
    then some (c - b'A' + 10)
    else none

-- `read_number`: up to `room` digits, with the digits read so far and their value
digits_from : ℕ → ℕ → ℕ → ℕ → Text → (ℕ × ℕ) × Text
digits_from room radix seen value [] = ((seen, value), [])
digits_from zero radix seen value (c ∷ s) = ((seen, value), c ∷ s)
digits_from (suc room) radix seen value (c ∷ s) = elim (digit_value radix c) [
  | none ↦ ((seen, value), c ∷ s)
  | some d ↦ digits_from room radix (seen + 1) (value * radix + d) s
]

abbrev starts_with_digit_zero : Text → Bool
starts_with_digit_zero [] = false
starts_with_digit_zero (c ∷ s) = c == b'0'

-- A decimal octet: at most three digits, no leading zero before another digit, below 256.
read_octet : Reader ℕ
unfolding digits_from is_ascii_digit
read_octet s =
    let ((seen, value), rest) = digits_from 4 10 0 0 s in
    if seen == 0 || ltb 3 seen || (starts_with_digit_zero s && ltb 1 seen) || ltb 255 value
    then none
    else some (value, rest)

abbrev read_char : ℕ → Text → Option Text
read_char c [] = none
read_char c (d ∷ s) = if d == c then some s else none

infixl 5 ◌>>=◌
abbrev ◌>>=◌ {ℓ κ} : {A : Type ℓ} {B : Type κ} → Option A → (A → Option B) → Option B
none >>= k = none
some a >>= k = k a

read_ipv4 : Reader Ipv4Addr
unfolding read_octet
read_ipv4 s = do
  (a, s) ← read_octet s
  s ← read_char b'.' s
  (b, s) ← read_octet s
  s ← read_char b'.' s
  (c, s) ← read_octet s
  s ← read_char b'.' s
  (d, s) ← read_octet s
  some (record { a = a; b = b; c = c; d = d }, s)

-- `read_separator`: the colon before every group but the first
abbrev read_separator : ℕ → Text → Option Text
read_separator zero s = some s
read_separator (suc i) s = read_char b':' s

read_hex_group : Reader ℕ
unfolding digits_from is_ascii_digit
read_hex_group s =
    let ((seen, value), rest) = digits_from 5 16 0 0 s in
    if seen == 0 || ltb 4 seen then none else some (value, rest)

-- What `read_groups` returns: the groups, whether an IPv4 tail ended them, and the rest.
record Groups : Type 0 where
  words : List ℕ
  ipv4_tail : Bool
  rest : Text

abbrev stop_at : List ℕ → Bool → Text → Groups
stop_at words tail s = record { words = words; ipv4_tail = tail; rest = s }

-- the IPv4 tail, tried while at least two groups are left
abbrev try_ipv4 : ℕ → ℕ → Text → Option (Ipv4Addr × Text)
try_ipv4 left i s = if leb 2 left then read_separator i s >>= read_ipv4 else none

-- `read_groups` with `left` slots left and `i` groups read
read_groups : ℕ → ℕ → List ℕ → Text → Groups
unfolding read_ipv4 read_hex_group
read_groups zero i words s = stop_at words false s
read_groups (suc left) i words s = elim (try_ipv4 (suc left) i s) [
  | some (x, rest) ↦ stop_at (words ++ (x.a * 256 + x.b) ∷ (x.c * 256 + x.d) ∷ []) true rest
  | none ↦ elim (read_separator i s >>= read_hex_group) [
    | none ↦ stop_at words false s
    | some (g, rest) ↦ read_groups left (i + 1) (words ++ g ∷ []) rest
  ]
]

abbrev zeros : ℕ → List ℕ
zeros zero = []
zeros (suc n) = 0 ∷ zeros n

abbrev words_to_addr : List ℕ → Option Ipv6Addr
words_to_addr (a ∷ b ∷ c ∷ d ∷ e ∷ f ∷ g ∷ h ∷ []) =
    some (record { s0 = a; s1 = b; s2 = c; s3 = d; s4 = e; s5 = f; s6 = g; s7 = h })
words_to_addr _ = none

read_ipv6 : Reader Ipv6Addr
unfolding read_groups
read_ipv6 s =
    let head = read_groups 8 0 [] s in
    let head_size = length head.words in
    if head_size == 8
    then (words_to_addr head.words >>= λ x. some (x, head.rest))
    else if head.ipv4_tail
    then none
    else do
      s ← read_char b':' head.rest
      s ← read_char b':' s
      let tail = read_groups (7 - head_size) 0 [] s
      let gap = zeros (8 - head_size - length tail.words)
      x ← words_to_addr (head.words ++ gap ++ tail.words)
      some (x, tail.rest)

-- `parse_with`: all of the text must be read.
abbrev at_end {ℓ} : {A : Type ℓ} → A × Text → Option A
at_end (a, []) = some a
at_end (a, (_ ∷ _)) = none

unfoldable pub parse_ip : Text → Option IpAddr
unfolding read_ipv4 read_ipv6
parse_ip s = elim (read_ipv4 s) [
  | some (x, rest) ↦ at_end (v4 x, rest)
  | none ↦ elim (read_ipv6 s) [ some (x, rest) ↦ at_end (v6 x, rest) | none ↦ none ]
]

-- `host_str` writes an IPv6 host in brackets, and a text in brackets is no address.
pub parse_ip_bracket : (s : Text) → parse_ip (b'[' ∷ s) ≡ none
unfolding parse_ip
parse_ip_bracket s = refl

loopback_parses : parse_ip (codes "127.0.0.1") ≡ some (v4 (record { a = 127; b = 0; c = 0; d = 1 }))
unfolding parse_ip
loopback_parses = refl

mapped_parses :
    parse_ip (codes "::ffff:1.2.3.4")
    ≡ some (
        v6 (record { s0 = 0; s1 = 0; s2 = 0; s3 = 0; s4 = 0; s5 = 0xffff; s6 = 0x102; s7 = 0x304 }))
unfolding parse_ip
mapped_parses = refl

not_addresses :
    (parse_ip (codes "01.2.3.4") ≡ none)
    × (parse_ip (codes "1.2.3") ≡ none)
    × (parse_ip (codes "1:2:3:4:5:6:7") ≡ none)
    × (parse_ip (codes "1::2::3") ≡ none)
    × (parse_ip (codes "256.1.1.1") ≡ none)
unfolding parse_ip
not_addresses = (refl, refl, refl, refl, refl)

compressed_parses :
    parse_ip (codes "2001:db8::1")
    ≡ some (v6 (record { s0 = 0x2001; s1 = 0xdb8; s2 = 0; s3 = 0; s4 = 0; s5 = 0; s6 = 0; s7 = 1 }))
unfolding parse_ip
compressed_parses = refl
