-- ===== src/Queue/Invariant/Reaping.antt =====
-- `reap_expired` of runtime-worker/src/queue.rs and the invariant of the tables.
use eal_sync.Prelude.{
  ℕ, ◌≡◌, refl, sym, subst, true, false, ◌&&◌, List, Option, none, some, ◌==◌, All, any, keep,
  count, arith, is_some_of, Bool-ext, ◌∙◌,
}
use mathlib.Core.Bool.{false≢true}
use eal_sync.Prelude.Member.{
  Member, update, All-update, All-update-All, All-elim, All-intro, any-Member, Member-any,
  Member-keep, keep-Member, any-update, update-agree, count-agree, map-update, Distinct-Member,
}
use eal_sync.Queue.Tables.{Job, Attempt, Db}
use eal_sync.Queue.Finish.{
  is_expired, is_abandoned, is_reaped, close_abandoned, reschedule_expired, reap_expired,
}
use eal_sync.Queue.Invariant.{
  IsJobRow, IsAttemptRow, IsConsistent, IsLinked, is_open_under, has_open_attempt,
}

module _ (db : Db) (now : ℕ) (k : IsConsistent db) where
  abbrev expired : List Job
  expired = keep (is_expired now) db.jobs

  abbrev found : List Attempt
  found = keep (is_abandoned expired) db.attempts

  reaped-expired : (j : Job) → Member j db.jobs → is_reaped found j ≡ true → is_expired now j ≡ true
  reaped-expired j m h =
      let (a, in_found, r) =
        any-Member (λ (x : Attempt). j.id == x.job_id && is_some_of x.lease_token j.lease_token)
          found h in
      let (_, lost) = keep-Member (is_abandoned expired) {x = a} db.attempts in_found in
      let (i, in_expired, s) =
        any-Member (λ (x : Job). a.job_id == x.id && is_some_of a.lease_token x.lease_token) expired
          (ground arith) in
      let (n, e) = keep-Member (is_expired now) {x = i} db.jobs in_expired in
      let same : i ≡ j = Distinct-Member (λ (x : Job). x.id) db.jobs k.job_ids n m (ground arith) in
      subst (λ x. is_expired now x ≡ true) same e

  expired-token : (j : Job) → is_expired now j ≡ true → (t : ℕ) × (j.lease_token ≡ some t)
  expired-token j e = ground arith

  open-found :
      (j : Job) (a : Attempt) {t : ℕ}
      → Member j expired
      → j.lease_token ≡ some t
      → Member a db.attempts
      → is_open_under j.id t a ≡ true
      → Member a found
  open-found j a {t} m e n h =
      let hit : any (λ (x : Job). a.job_id == x.id && is_some_of a.lease_token x.lease_token)
            expired
          ≡ true =
        Member-any (λ (x : Job). a.job_id == x.id && is_some_of a.lease_token x.lease_token) expired
          m (rw e (ground arith)) in
      Member-keep (is_abandoned expired) db.attempts n (rw hit (ground arith))

  linked-open :
      (j : Job) {t : ℕ}
      → Member j db.jobs
      → j.lease_token ≡ some t
      → any (is_open_under j.id t) db.attempts ≡ true
  linked-open j m e = rw e at (All-elim (IsLinked db.attempts) db.jobs k.linked m)

  expired-reaped : (j : Job) → Member j db.jobs → is_expired now j ≡ true → is_reaped found j ≡ true
  expired-reaped j m e =
      let (t, held) = expired-token j e in
      let (a, n, h) = any-Member (is_open_under j.id t) db.attempts (linked-open j m held) in
      Member-any (λ (x : Attempt). j.id == x.job_id && is_some_of x.lease_token j.lease_token) found
        (open-found j a (Member-keep (is_expired now) db.jobs m e) held n h)
        (rw held (ground arith))

  reaped-agree : All (λ j. is_reaped found j ≡ is_expired now j) db.jobs
  reaped-agree = All-intro _ db.jobs λ j m. Bool-ext _ _ (reaped-expired j m) (expired-reaped j m)

  -- In consistent tables a reap reschedules each job whose lease has expired, and no other job,
  -- and returns their number.
  pub reap_jobs :
      ((reap_expired db now).1.jobs ≡ update (is_expired now) (reschedule_expired now) db.jobs)
      × ((reap_expired db now).0 ≡ count (is_expired now) db.jobs)
  unfolding reap_expired
  reap_jobs = (
    update-agree (is_reaped found) (is_expired now) (reschedule_expired now) db.jobs reaped-agree,
    count-agree (is_reaped found) (is_expired now) db.jobs reaped-agree,
  )

  kept_link :
      (j : Job) (token : Option ℕ)
      → Member (record j { lease_token = token }) db.jobs
      → is_expired now (record j { lease_token = token }) ≡ false
      → has_open_attempt db.attempts j.id token ≡ true
      → has_open_attempt
          (update (is_abandoned expired) (close_abandoned now) db.attempts)
          j.id
          token
        ≡ true
  kept_link j none m miss h = refl
  kept_link j (some t) m miss h =
      any-update (is_open_under j.id t) (is_abandoned expired) (close_abandoned now) db.attempts
        (λ a n open_under lost. absurd (still_live a open_under lost)) h
    where
      still_live : (a : Attempt) → is_open_under j.id t a ≡ true → is_abandoned expired a ≡ true → ⊥
      still_live a open_under lost =
          let (i, in_expired, s) =
            any-Member (λ (x : Job). a.job_id == x.id && is_some_of a.lease_token x.lease_token)
              expired (ground arith) in
          let (n, e) = keep-Member (is_expired now) {x = i} db.jobs in_expired in
          let same : i ≡ record j { lease_token = some t } =
            Distinct-Member (λ (x : Job). x.id) db.jobs k.job_ids n m (ground arith) in
          false≢true (sym miss ∙ subst (λ x. is_expired now x ≡ true) same e)

  pub reap-IsConsistent : IsConsistent (reap_expired db now).1
  unfolding reap_expired
  reap-IsConsistent = record {
    job_rows =
        All-update IsJobRow (is_reaped found) (reschedule_expired now) db.jobs
          (λ j m r hit. ground (arith, reaped-expired j m hit)) k.job_rows;
    attempt_rows =
        All-update IsAttemptRow (is_abandoned expired) (close_abandoned now) db.attempts
          (λ a _ _ _. refl) k.attempt_rows;
    job_ids =
        rw
          (map-update (λ (j : Job). j.id) (is_reaped found) (reschedule_expired now) db.jobs
            (λ j. refl))
          k.job_ids;
    attempt_ids =
        rw
          (map-update (λ (a : Attempt). a.id) (is_abandoned expired) (close_abandoned now)
            db.attempts (λ a. refl))
          k.attempt_ids;
    linked =
        All-update-All (IsLinked (update (is_abandoned expired) (close_abandoned now) db.attempts))
          (is_reaped found) (reschedule_expired now) db.jobs (λ j _ _. refl)
          (λ j m miss.
            kept_link j j.lease_token m
              (sym (All-elim (λ i. is_reaped found i ≡ is_expired now i) db.jobs reaped-agree m)
                ∙ miss)
              (All-elim (IsLinked db.attempts) db.jobs k.linked m));
  }
