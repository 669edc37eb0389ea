-- ===== src/Ingestion/Limiter/Permits.antt =====
-- How many permits of a host are held.
use eal_sync.Prelude.{
  ℕ, suc, ◌+◌, ◌≤◌, ◌≡◌, refl, sym, subst, ◌∙◌, true, false, List, [], ◌∷◌, none, some, count,
  arith, Bool-cases, Option-cases, some_injective, none_is_not_some, true_is_not_false, inl, inr,
  ◌⊎◌, ◌≢◌,
}
use eal_sync.Prelude.Text.{Text, text_eq, text_eq→eq, text_eq_refl}
use eal_sync.Prelude.Member.{Member}
use eal_sync.Ingestion.Limiter.{
  SemaphoreCrate, Limiters, find_limiter, set_limiter, or_new, acquire_host_permit, remove_one,
  drop_permit, acquired, dropped, Reach, start, step,
}

module _ (crate : SemaphoreCrate) where
  open crate use {Semaphore, new, available_permits, acquire, release}

  -- the permits of a host that are held
  abbrev pub in_use : Text → Limiters crate → ℕ
  in_use host fetcher = count (text_eq host) fetcher.held

  find-set_same :
      (host : Text) (s : Semaphore) (limiters : List (Text × Semaphore))
      → find_limiter crate host (set_limiter crate host s limiters) ≡ some s
  find-set_same host s [] = rw (text_eq_refl host) refl
  find-set_same host s ((other, t) ∷ limiters) = elim (Bool-cases (text_eq host other)) [
    | inl same ↦ rw same (rw same refl)
    | inr differ ↦ rw differ (rw differ (find-set_same host s limiters))
  ]

  find-set_other :
      (host third : Text) (s : Semaphore) (limiters : List (Text × Semaphore))
      → text_eq third host ≡ false
      → find_limiter crate third (set_limiter crate host s limiters)
        ≡ find_limiter crate third limiters
  find-set_other host third s [] h = rw h refl
  find-set_other host third s ((other, t) ∷ limiters) h = elim (Bool-cases (text_eq host other)) [
    | inl same ↦
        let h2 : text_eq third other ≡ false =
          subst (λ t. text_eq third t ≡ false) (text_eq→eq host other same) h in
        rw (same, h2) refl
    | inr differ ↦ rw differ (rw (find-set_other host third s limiters h) refl)
  ]

  -- The permits that a host's limiter has left and those that are held sum to the limit.
  abbrev Balanced : ℕ → Text → Limiters crate → Type 0
  Balanced max host fetcher =
      available_permits (or_new crate max (find_limiter crate host fetcher.host_limiters))
        + in_use host fetcher
      ≡ max

  -- A change of one host's limiter and permits keeps the others balanced.
  set_limiter-Balanced :
      (max : ℕ) (host third : Text) (s : Semaphore) (held : List Text) (f : Limiters crate)
      → Balanced max third f
      → (text_eq third host ≡ false → count (text_eq third) held ≡ in_use third f)
      → (third ≡ host → available_permits s + count (text_eq third) held ≡ max)
      → Balanced max third
          (record { host_limiters = set_limiter crate host s f.host_limiters; held = held })
  set_limiter-Balanced max host third s held f h others own =
      elim (Bool-cases (text_eq third host)) [
        | inl same ↦
            let e = text_eq→eq third host same in
            let found : find_limiter crate third (set_limiter crate host s f.host_limiters)
                ≡ some s =
              subst (λ t. find_limiter crate t (set_limiter crate host s f.host_limiters) ≡ some s)
                (sym e) (find-set_same host s f.host_limiters) in
            rw found (own e)
        | inr differ ↦ rw (find-set_other host third s f.host_limiters differ, others differ) h
      ]

  acquired-Balanced :
      (max : ℕ) (host third : Text) (f g : Limiters crate)
      → acquire_host_permit crate max host f ≡ some g
      → Balanced max third f
      → Balanced max third g
  unfolding acquire_host_permit
  acquired-Balanced max host third f g e h =
      let limiter = or_new crate max (find_limiter crate host f.host_limiters) in
      elim (Option-cases (acquire limiter)) [
        | inl waits ↦ absurd (none_is_not_some (rw (waits, acquire_host_permit) at e))
        | inr (s, taken) ↦
            subst (Balanced max third) (some_injective (rw (taken, acquire_host_permit) at e)) (
              set_limiter-Balanced max host third s (host ∷ f.held) f h
                (λ differ. rw differ (omega arith))
                (λ same.
                  subst (λ t. available_permits s + count (text_eq t) (host ∷ f.held) ≡ max)
                    (sym same) (taken_own s taken (subst (λ t. Balanced max t f) same h))))
      ]
    where
      taken_own :
          (s : Semaphore)
          → acquire (or_new crate max (find_limiter crate host f.host_limiters)) ≡ some s
          → Balanced max host f
          → available_permits s + count (text_eq host) (host ∷ f.held) ≡ max
      taken_own s taken own =
          rw (text_eq_refl host) (omega (arith, own, crate.available-acquire _ s taken))

  remove_one-other :
      (host third : Text) (held : List Text)
      → text_eq third host ≡ false
      → count (text_eq third) (remove_one crate host held) ≡ count (text_eq third) held
  remove_one-other host third [] h = refl
  remove_one-other host third (other ∷ held) h = elim (Bool-cases (text_eq host other)) [
    | inl same ↦
        let h2 : text_eq third other ≡ false =
          subst (λ t. text_eq third t ≡ false) (text_eq→eq host other same) h in
        rw (same, h2) (omega arith)
    | inr differ ↦ rw differ (omega (arith, remove_one-other host third held h))
  ]

  remove_one-same :
      (host : Text) (held : List Text)
      → Member host held
      → suc (count (text_eq host) (remove_one crate host held)) ≡ count (text_eq host) held
  remove_one-same host [] m = absurd m
  remove_one-same host (other ∷ held) m = elim (Bool-cases (text_eq host other)) [
    | inl same ↦ rw same (omega arith)
    | inr differ ↦ elim m [
      | inl e ↦ absurd (
          true_is_not_false
            (sym (subst (λ t. text_eq host t ≡ true) e (text_eq_refl host)) ∙ differ))
      | inr n ↦ rw (differ, differ) (omega (arith, remove_one-same host held n))
    ]
  ]

  dropped-Balanced :
      (max : ℕ) (host third : Text) (f : Limiters crate)
      → Member host f.held
      → Balanced max host f
      → Balanced max third f
      → Balanced max third (drop_permit crate host f)
  unfolding drop_permit
  dropped-Balanced max host third f m own h =
      elim (Option-cases (find_limiter crate host f.host_limiters)) [
        | inl nothing ↦ rw (nothing, drop_permit) h
        | inr (s, found) ↦
            let one_less = remove_one-same host f.held m in
            let own2 : available_permits s + in_use host f ≡ max = rw found at own in
            rw (found, drop_permit)
              (set_limiter-Balanced max host third (release s) (remove_one crate host f.held) f h
                (remove_one-other host third f.held)
                (λ same.
                  subst
                    (λ t.
                      available_permits (release s)
                        + count (text_eq t) (remove_one crate host f.held)
                      ≡ max)
                    (sym same) (omega (arith, own2, one_less, crate.available-release s))))
      ]

  Reach-Balanced :
      (max : ℕ) (host : Text) (f : Limiters crate) → Reach crate max f → Balanced max host f
  Reach-Balanced max host f start = omega (arith, crate.available-new max)
  Reach-Balanced max host _ (step _ _ r (acquired other f g e)) =
      acquired-Balanced max other host f g e (Reach-Balanced max host f r)
  Reach-Balanced max host _ (step _ _ r (dropped other f m)) =
      dropped-Balanced max other host f m (Reach-Balanced max other f r)
        (Reach-Balanced max host f r)

  -- Whatever fetches run at once, of one host they hold at most as many permits as the policy allows,
  -- and one of them waits for a permit of a host only while exactly that many are held.
  pub permits_bound :
      (max : ℕ) (f : Limiters crate) (host : Text)
      → Reach crate max f
      → (in_use host f ≤ max)
        × ((acquire_host_permit crate max host f ≢ none) ⊎ (in_use host f ≡ max))
  unfolding acquire_host_permit
  permits_bound max f host r =
      let balance = Reach-Balanced max host f r in
      let limiter = or_new crate max (find_limiter crate host f.host_limiters) in
      (
        omega (arith, balance),
        elim (Option-cases (acquire limiter)) [
          | inl waits ↦ inr (omega (arith, balance, crate.acquire-none limiter waits))
          | inr (s, taken) ↦
              inl (λ e. none_is_not_some (sym (rw (taken, acquire_host_permit) at e)))
        ],
      )
