-- ===== src/Prelude/Utf8.antt =====
-- `String::from_utf8_lossy`: UTF-8 with U+FFFD in place of each maximal ill-formed part.
use Prim.Native.Nat.{ℕ, zero, suc, ◌+◌, ◌-◌, ◌*◌}
use mathlib.Core.List.{List, [], ◌∷◌, ◌++◌}
use mathlib.Core.Path.{◌≡◌, refl}
use eal_sync.Prelude.Booleans.{ltb, ◌==◌, within, if◌then◌else◌}
use eal_sync.Prelude.Text.{Text}

-- A sequence that has begun: `left` more bytes are wanted, the next of them between `lo` and `hi`.
record Pending : Type 0 where
  left : ℕ
  value : ℕ
  lo : ℕ
  hi : ℕ

abbrev idle : Pending
idle = record { left = 0; value = 0; lo = 0; hi = 0 }

abbrev begun : ℕ → ℕ → ℕ → ℕ → Text × Pending
begun left value lo hi = ([], record { left = left; value = value; lo = lo; hi = hi })

abbrev replacement : ℕ
replacement = 0xfffd

first_byte : ℕ → Text × Pending
first_byte b =
    if ltb b 0x80
    then (b ∷ [], idle)
    else if within 0xc2 0xdf b
    then begun 1 (b - 0xc0) 0x80 0xbf
    else if b == 0xe0
    then begun 2 0 0xa0 0xbf
    else if b == 0xed
    then begun 2 0xd 0x80 0x9f
    else if within 0xe1 0xef b
    then begun 2 (b - 0xe0) 0x80 0xbf
    else if b == 0xf0
    then begun 3 0 0x90 0xbf
    else if within 0xf1 0xf3 b
    then begun 3 (b - 0xf0) 0x80 0xbf
    else if b == 0xf4
    then begun 3 4 0x80 0x8f
    else (replacement ∷ [], idle)

abbrev continued : ℕ → ℕ → Text × Pending
continued zero value = (value ∷ [], idle)
continued (suc left) value = begun (suc left) value 0x80 0xbf

abbrev restart : Text × Pending → Text × Pending
restart (out, p) = (replacement ∷ out, p)

next_byte : ℕ → Pending → ℕ → Text × Pending
unfolding first_byte
next_byte zero p b = first_byte b
next_byte (suc left) p b =
    if within p.lo p.hi b
    then continued left (p.value * 64 + (b - 0x80))
    else restart (first_byte b)

abbrev flush : ℕ → Text
flush zero = []
flush (suc left) = replacement ∷ []

decode_from : Pending → List ℕ → Text
decode_from p [] = flush p.left
decode_from p (b ∷ bs) = let (out, q) = next_byte p.left p b in out ++ decode_from q bs

unfoldable pub from_utf8_lossy : List ℕ → Text
unfolding decode_from next_byte
from_utf8_lossy bytes = decode_from idle bytes

decodes :
    from_utf8_lossy (0x68 ∷ 0xc3 ∷ 0xa9 ∷ 0xf0 ∷ 0x9f ∷ 0x94 ∷ 0x94 ∷ [])
    ≡ 0x68 ∷ 0xe9 ∷ 0x1f514 ∷ []
unfolding from_utf8_lossy
decodes = refl

replaces :
    from_utf8_lossy (0xe2 ∷ 0x82 ∷ 0x41 ∷ 0xff ∷ 0xc3 ∷ []) ≡ 0xfffd ∷ 0x41 ∷ 0xfffd ∷ 0xfffd ∷ []
unfolding from_utf8_lossy
replaces = refl
