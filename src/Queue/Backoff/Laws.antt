-- ===== src/Queue/Backoff/Laws.antt =====
-- The retry schedule.
use eal_sync.Prelude.{
  ℕ, zero, suc, ◌-◌, ◌*◌, ◌^◌, ◌+◌, ◌≤◌, ◌<◌, ◌≡◌, ◌∙◌, ==_iff, subst, refl, Bool, true, ◌&&◌, min,
  ◌==◌, ltb, arith, Bool-cases, inl, inr,
}
use native.Mathlib.Nat.{pow-suc}
use eal_sync.Prelude.Int.{ℤ, pos, negsuc}
use eal_sync.Queue.Backoff.{retry_backoff_seconds, exponent}

-- The schedule by its exponent, for the sixteen values that the clamp leaves.
delay : ℕ → ℕ
delay e = min (30 * 2 ^ e) 86_400

-- The schedule is right below a given number of doublings.
follows_upto : ℕ → Bool
follows_upto zero = true
follows_upto (suc k) = follows_upto k && retry_backoff_seconds (pos (k + 1)) == delay k

follows_below :
    (k : ℕ) {n : ℕ} → n < k → follows_upto k ≡ true → retry_backoff_seconds (pos (n + 1)) ≡ delay n
unfolding follows_upto
follows_below zero {n} lt table = absurd (omega (arith, lt))
follows_below (suc k) {n} lt table = elim (Bool-cases (n == k)) [
  | inl last ↦
      let same : k ≡ n = ground (arith, last) in
      subst (λ i. retry_backoff_seconds (pos (i + 1)) ≡ delay i) same
        ((==_iff _ _).0 (ground (arith, table)))
  | inr earlier ↦ follows_below k (ground (arith, lt, earlier)) (ground (arith, table))
]

follows_sixteen : follows_upto 16 ≡ true
unfolding follows_upto retry_backoff_seconds delay
follows_sixteen = refl

in_table : (n : ℕ) → ltb n 16 ≡ true → retry_backoff_seconds (pos (n + 1)) ≡ delay n
in_table n h = follows_below 16 (ground (arith, h)) follows_sixteen

-- From the sixteenth doubling on the delay is past the cap.
pow_large : (n : ℕ) → 65_536 ≤ 2 ^ (n + 16)
pow_large zero = omega arith
pow_large (suc n) =
    let e : suc n + 16 ≡ suc (n + 16) = omega arith in rw (e, pow-suc) (omega (arith, pow_large n))

pow_past_cap : (n : ℕ) → 16 ≤ n → 65_536 ≤ 2 ^ n
pow_past_cap n h =
    let e : n - 16 + 16 ≡ n = omega arith in subst (λ k. 65_536 ≤ 2 ^ k) e (pow_large (n - 16))

pow_pos : (n : ℕ) → 1 ≤ 2 ^ n
pow_pos zero = omega arith
pow_pos (suc n) = rw pow-suc (omega (arith, pow_pos n))

pow_mono : (m n : ℕ) → m ≤ n → 2 ^ m ≤ 2 ^ n
pow_mono zero n h = pow_pos n
pow_mono (suc m) zero h = absurd (omega arith)
pow_mono (suc m) (suc n) h =
    rw (pow-suc 2 m, pow-suc 2 n) (omega (arith, pow_mono m n (omega arith)))

clamped : (n : ℕ) → 16 ≤ n → retry_backoff_seconds (pos (suc n)) ≡ 86_400
unfolding retry_backoff_seconds
clamped n h = let e : exponent (pos (suc n)) ≡ 16 = omega arith in rw e

-- The retry delay for attempt n + 1 is thirty seconds doubled n times and capped at a day, for
-- every n.
pub retry_backoff_doubles : (n : ℕ) → retry_backoff_seconds (pos (suc n)) ≡ min (30 * 2 ^ n) 86_400
retry_backoff_doubles n = elim (Bool-cases (ltb n 16)) [
  | inl small ↦
      let e : n + 1 ≡ suc n = omega arith in
      subst (λ k. retry_backoff_seconds (pos k) ≡ min (30 * 2 ^ n) 86_400) e
        (unfold delay in in_table n small)
  | inr large ↦
      let past : 65_536 ≤ 2 ^ n = pow_past_cap n (ground arith) in
      clamped n (ground arith) ∙ omega arith
]

-- The retry delay of any attempt, negative ones included, lies between thirty seconds and a day.
retry_backoff_bounds :
    (attempt : ℤ) → (30 ≤ retry_backoff_seconds attempt) × (retry_backoff_seconds attempt ≤ 86_400)
unfolding retry_backoff_seconds
retry_backoff_bounds (negsuc n) = omega arith
retry_backoff_bounds (pos zero) = omega arith
retry_backoff_bounds (pos (suc n)) = omega (arith, retry_backoff_doubles n, pow_pos n)

-- The retry delay of a later attempt is never less.
retry_backoff_mono :
    (m n : ℕ) → m ≤ n → retry_backoff_seconds (pos m) ≤ retry_backoff_seconds (pos n)
unfolding retry_backoff_seconds
retry_backoff_mono zero n h = omega (arith, retry_backoff_bounds (pos n))
retry_backoff_mono (suc m) zero h = absurd (omega arith)
retry_backoff_mono (suc m) (suc n) h =
    omega (arith, retry_backoff_doubles m, retry_backoff_doubles n, pow_mono m n (omega arith))
