-- ===== src/Prelude/Int.antt =====
-- Signed machine integers, with the range test of the program's option checks.
use Prim.Native.Nat.{ℕ}
use mathlib.Core.Bool.{Bool, false}
use eal_sync.Prelude.Booleans.{within}

-- `negsuc n` is -(n + 1).
pub data ℤ : Type 0 where
  pos : ℕ → ℤ
  negsuc : ℕ → ℤ

abbrev pub pos_part : ℤ → ℕ
pos_part (pos n) = n
pos_part (negsuc n) = 0

-- `(lo..=hi).contains(&n)` for bounds that are not negative
abbrev pub within_ℤ : ℕ → ℕ → ℤ → Bool
within_ℤ lo hi (pos n) = within lo hi n
within_ℤ lo hi (negsuc n) = false
