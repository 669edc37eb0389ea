-- ===== src/Prelude/Search/Order.antt =====
-- The order of texts.
use mathlib.Core.Path.{◌≡◌, refl}
use mathlib.Core.Logic.{inl, inr}
use mathlib.Core.Bool.{true, false}
use mathlib.Core.List.{[], ◌∷◌}
use native.Mathlib.Omega.{arith}
use eal_sync.Prelude.Booleans.{◌==◌, Bool-cases}
use eal_sync.Prelude.Text.{Text, text_eq}
use eal_sync.Prelude.Search.{text_ltb}

pub text_ltb_total : (s t : Text) → text_ltb s t ≡ false → text_eq s t ≡ false → text_ltb t s ≡ true
unfolding text_ltb text_eq
text_ltb_total [] [] h k = absurd (ground arith)
text_ltb_total [] (b ∷ t) h k = absurd (ground arith)
text_ltb_total (a ∷ s) [] h k = refl
text_ltb_total (a ∷ s) (b ∷ t) h k = elim (Bool-cases (a == b)) [
  | inl same ↦ ground (arith, h, k, same, text_ltb_total s t)
  | inr other ↦ ground (arith, h, k, other)
]

pub text_ltb_irrefl : (s : Text) → text_ltb s s ≡ false
unfolding text_ltb
text_ltb_irrefl [] = refl
text_ltb_irrefl (a ∷ s) = ground (arith, text_ltb_irrefl s)

pub text_ltb_trans :
    (s t u : Text) → text_ltb s t ≡ true → text_ltb t u ≡ true → text_ltb s u ≡ true
unfolding text_ltb
text_ltb_trans [] [] u h k = absurd (ground (arith, h))
text_ltb_trans [] (b ∷ t) [] h k = absurd (ground (arith, k))
text_ltb_trans [] (b ∷ t) (c ∷ u) h k = refl
text_ltb_trans (a ∷ s) [] u h k = absurd (ground (arith, h))
text_ltb_trans (a ∷ s) (b ∷ t) [] h k = absurd (ground (arith, k))
text_ltb_trans (a ∷ s) (b ∷ t) (c ∷ u) h k = ground (arith, h, k, text_ltb_trans s t u)
