-- ===== src/Net/Body/Laws.antt =====
-- When a body is read whole.
use eal_sync.Prelude.{
  ℕ, ◌≤◌, ◌<◌, ◌≡◌, refl, false, List, [], ◌∷◌, ◌++◌, length, length-append, ltb, leb,
  if◌then◌else◌, arith, Bool-cases, inl, inr,
}
use eal_sync.Prelude.Text.{Text}
use eal_sync.Prelude.Result.{ok, err}
use mathlib.Core.List.{append_assoc, append-nil}
use eal_sync.Net.Body.{usize_max, saturating_add, read_chunks, read_bounded, delivered, joined}

module _ {E : Type 0} (unreadable : Text → E) (too_large : E) (max_bytes : ℕ)
    (fits : max_bytes < usize_max) where
  read_within :
      (body : List ℕ) (chunks : List (List ℕ))
      → length (body ++ joined chunks) ≤ max_bytes
      → read_chunks unreadable too_large max_bytes body (delivered chunks)
        ≡ ok (body ++ joined chunks)
  unfolding read_chunks
  read_within body [] h = rw (append-nil body) refl
  read_within body (c ∷ cs) h =
      let assoc = append_assoc body c (joined cs) in
      let small : ltb max_bytes (saturating_add (length body) (length c)) ≡ false =
        ground (arith, h, length-append body (c ++ joined cs), length-append c (joined cs)) in
      rw (small, read_within (body ++ c) cs (rw assoc h), assoc) refl

  read_beyond :
      (body : List ℕ) (chunks : List (List ℕ))
      → length body ≤ max_bytes
      → max_bytes < length (body ++ joined chunks)
      → read_chunks unreadable too_large max_bytes body (delivered chunks) ≡ err too_large
  unfolding read_chunks
  read_beyond body [] k h = absurd (omega (arith, h, length-append body []))
  read_beyond body (c ∷ cs) k h =
      elim (Bool-cases (ltb max_bytes (saturating_add (length body) (length c)))) [
        | inl large ↦ rw large refl
        | inr small ↦ rw small (
            read_beyond (body ++ c) cs (ground (arith, small, fits, length-append body c))
              (rw (append_assoc body c (joined cs)) h))
      ]

  -- For a limit below the greatest usize, a stream that delivers its chunks is read whole if they
  -- sum to at most the limit, however they are cut, and is refused as too large otherwise.
  pub read_bounded-exact :
      (chunks : List (List ℕ))
      → read_bounded unreadable too_large max_bytes (delivered chunks)
        ≡ (if leb (length (joined chunks)) max_bytes then ok (joined chunks) else err too_large)
  unfolding read_bounded
  read_bounded-exact chunks = elim (Bool-cases (leb (length (joined chunks)) max_bytes)) [
    | inl within_ ↦ rw (within_, read_within [] chunks (ground (arith, within_))) refl
    | inr beyond ↦ rw (beyond, read_beyond [] chunks (omega arith) (ground (arith, beyond))) refl
  ]
