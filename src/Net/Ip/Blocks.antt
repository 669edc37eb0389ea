-- ===== src/Net/Ip/Blocks.antt =====
-- The IPv4 test against the list of address blocks that it stands for.
use eal_sync.Prelude.{
  ℕ, ◌+◌, ◌-◌, ◌*◌, ◌/◌, ◌^◌, ◌<◌, ◌≡◌, Bool, not, ◌||◌, List, [], ◌∷◌, ◌==◌, any, leb, within,
  ◌&&◌, arith,
}
use mathlib.Core.Bool.{or_assoc, or-false}
use eal_sync.Net.Ip.{Ipv4Addr, is_public_ipv4}

-- The address as a number of 32 bits.
abbrev pub number_of : Ipv4Addr → ℕ
number_of x = x.a * 2 ^ 24 + x.b * 2 ^ 16 + x.c * 2 ^ 8 + x.d

-- A block in CIDR notation: its first address and the bits that follow its prefix.
pub record Block : Type 0 where
  pub base : Ipv4Addr
  pub host_bits : ℕ

abbrev pub lies_in : Ipv4Addr → Block → Bool
lies_in x k = number_of x / 2 ^ k.host_bits == number_of k.base / 2 ^ k.host_bits

abbrev block : ℕ → ℕ → ℕ → ℕ → Block
block a b c prefix = record {
  base = record { a = a; b = b; c = c; d = 0 };
  host_bits = 32 - prefix;
}

-- The special-purpose blocks, with multicast and the reserved class E as 224.0.0.0/3.
abbrev pub reserved_blocks : List Block
reserved_blocks =
    block 0 0 0 8
    ∷ block 10 0 0 8
    ∷ block 127 0 0 8
    ∷ block 100 64 0 10
    ∷ block 169 254 0 16
    ∷ block 172 16 0 12
    ∷ block 192 0 0 24
    ∷ block 192 0 2 24
    ∷ block 192 88 99 24
    ∷ block 192 168 0 16
    ∷ block 198 18 0 15
    ∷ block 198 51 100 24
    ∷ block 203 0 113 24
    ∷ block 224 0 0 3
    ∷ []

pub record IsOctets (x : Ipv4Addr) : Type 0 where
  pub a_lt : x.a < 256
  pub b_lt : x.b < 256
  pub c_lt : x.c < 256
  pub d_lt : x.d < 256

-- Each block, as the comparison of octets that the code writes for it.
module _ (x : Ipv4Addr) (h : IsOctets x) where
  in_0_0_0_8 : lies_in x (block 0 0 0 8) ≡ (x.a == 0)
  in_0_0_0_8 = ground arith

  in_10_0_0_8 : lies_in x (block 10 0 0 8) ≡ (x.a == 10)
  in_10_0_0_8 = ground arith

  in_127_0_0_8 : lies_in x (block 127 0 0 8) ≡ (x.a == 127)
  in_127_0_0_8 = ground arith

  in_100_64_0_10 : lies_in x (block 100 64 0 10) ≡ (x.a == 100 && within 64 127 x.b)
  in_100_64_0_10 = ground arith

  in_169_254_0_16 : lies_in x (block 169 254 0 16) ≡ (x.a == 169 && x.b == 254)
  in_169_254_0_16 = ground arith

  in_172_16_0_12 : lies_in x (block 172 16 0 12) ≡ (x.a == 172 && within 16 31 x.b)
  in_172_16_0_12 = ground arith

  in_192_0_0_24 : lies_in x (block 192 0 0 24) ≡ (x.a == 192 && x.b == 0 && x.c == 0)
  in_192_0_0_24 = ground arith

  in_192_0_2_24 : lies_in x (block 192 0 2 24) ≡ (x.a == 192 && x.b == 0 && x.c == 2)
  in_192_0_2_24 = ground arith

  in_192_88_99_24 : lies_in x (block 192 88 99 24) ≡ (x.a == 192 && x.b == 88 && x.c == 99)
  in_192_88_99_24 = ground arith

  in_192_168_0_16 : lies_in x (block 192 168 0 16) ≡ (x.a == 192 && x.b == 168)
  in_192_168_0_16 = ground arith

  in_198_18_0_15 : lies_in x (block 198 18 0 15) ≡ (x.a == 198 && (x.b == 18 || x.b == 19))
  in_198_18_0_15 = ground arith

  in_198_51_100_24 : lies_in x (block 198 51 100 24) ≡ (x.a == 198 && x.b == 51 && x.c == 100)
  in_198_51_100_24 = ground arith

  in_203_0_113_24 : lies_in x (block 203 0 113 24) ≡ (x.a == 203 && x.b == 0 && x.c == 113)
  in_203_0_113_24 = ground arith

  in_224_0_0_3 : lies_in x (block 224 0 0 3) ≡ (leb 224 x.a)
  in_224_0_0_3 = ground arith

-- An IPv4 address of four octets is public exactly when it lies in none of the reserved blocks.
pub is_public_ipv4-blocks :
    (x : Ipv4Addr) → IsOctets x → is_public_ipv4 x ≡ not (any (lies_in x) reserved_blocks)
unfolding is_public_ipv4
is_public_ipv4-blocks x h =
    rw
      (
        in_0_0_0_8 x h,
        in_10_0_0_8 x h,
        in_127_0_0_8 x h,
        in_100_64_0_10 x h,
        in_169_254_0_16 x h,
        in_172_16_0_12 x h,
        in_192_0_0_24 x h,
        in_192_0_2_24 x h,
        in_192_88_99_24 x h,
        in_192_168_0_16 x h,
        in_198_18_0_15 x h,
        in_198_51_100_24 x h,
        in_203_0_113_24 x h,
        in_224_0_0_3 x h,
      )
      (simp (or_assoc, or-false))
