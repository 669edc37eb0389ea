-- ===== src/Queue/Board/Refines.antt =====
-- The transactions of the queue as moves of the abstract board.
use eal_sync.Prelude.{
  ℕ, ◌≡◌, refl, sym, subst, Bool, true, false, List, [], ◌∷◌, ◌++◌, Option, ◌==◌, ltb, find, arith,
  Bool-cases, Option-cases, inl, inr,
}
use eal_sync.Prelude.Member.{Member, update, All-elim, Distinct-Member}
use eal_sync.Net.Url.{UrlCrate}
use eal_sync.Queue.Tables.{Job, Db, CrawlJob, holds_lease}
use eal_sync.Queue.Seed.{new_job}
use eal_sync.Queue.Lease.{LeaseArgs, grant, is_ready, lease}
use eal_sync.Queue.Finish.{finish, complete, fail, is_expired, reschedule_expired, reap_expired}
use eal_sync.Queue.Rows.{finish_cases, seed_cases, lease_row_cases}
use eal_sync.Queue.Invariant.{IsJobRow, IsConsistent}
use eal_sync.Queue.Invariant.Grants.{candidate-ready, lease_cases}
use eal_sync.Queue.Invariant.Reaping.{reap_jobs}
use eal_sync.Queue.Invariant.Steps.{
  World, Inv, Step, seeds, leases, leases_unseen, completes, fails, reaps,
}
use eal_sync.Queue.Board.{
  unknown, waiting, leased_until, Move, stays, seeded, granted, taken_over, finished, expired,
  state_of, state_of_row, job_state,
}

module _ (held : List CrawlJob) (now id : ℕ) where
  abbrev row_of : List Job → Option Job
  row_of jobs = find (λ j. j.id == id) jobs

  -- Where each row of the job makes a move, so does the job.
  update-Move :
      (test : Job → Bool) (set : Job → Job) (jobs : List Job)
      → ((x : Job) → Member x jobs → test x ≡ true → (set x).id ≡ x.id)
      → ((x : Job)
          → Member x jobs
          → x.id ≡ id
          → test x ≡ true
          → Move held now id (state_of x) (state_of (set x)))
      → Move held now id (state_of_row (row_of jobs)) (state_of_row (row_of (update test set jobs)))
  update-Move test set [] ids moves = stays unknown
  update-Move test set (x ∷ jobs) ids moves = elim (Bool-cases (x.id == id)) [
    | inl here ↦ elim (Bool-cases (test x)) [
      | inl hit ↦
          let same : ((set x).id == id) ≡ true = rw (ids x (inl refl) hit) here in
          rw (here, hit) (rw same (moves x (inl refl) (ground (arith, here)) hit))
      | inr miss ↦ rw (here, miss) (rw here (stays (state_of x)))
    ]
    | inr other ↦
        let rest = update-Move test set jobs (λ y m. ids y (inr m)) (λ y m. moves y (inr m)) in
        elim (Bool-cases (test x)) [
          | inl hit ↦
              let same : ((set x).id == id) ≡ false = rw (ids x (inl refl) hit) other in
              rw (other, hit) (rw same rest)
          | inr miss ↦ rw (other, miss) (rw other rest)
        ]
  ]

  append-Move :
      (jobs : List Job) (new : Job)
      → state_of new ≡ waiting
      → Move held now id (state_of_row (row_of jobs)) (state_of_row (row_of (jobs ++ new ∷ [])))
  append-Move [] new fresh = elim (Bool-cases (new.id == id)) [
    | inl here ↦ rw (here, fresh) seeded
    | inr other ↦ rw other (stays unknown)
  ]
  append-Move (x ∷ jobs) new fresh = elim (Bool-cases (x.id == id)) [
    | inl here ↦ rw here (stays (state_of x))
    | inr other ↦ rw other (append-Move jobs new fresh)
  ]

  ready-Move :
      (args : LeaseArgs) (x : Job)
      → args.now ≡ now
      → IsJobRow x
      → is_ready args.now x ≡ true
      → Move held now id (state_of x) (state_of (grant args x))
  unfolding is_ready
  ready-Move args x at_now row ready = elim (Option-cases x.lease_token) [
    | inl idle ↦ rw idle (granted args.lease_token _)
    | inr (token, leased) ↦ elim (Option-cases x.lease_expires_at) [
      | inl no_expiry ↦ rw (leased, no_expiry) (granted args.lease_token _)
      | inr (expiry, until) ↦
          let past : ltb expiry now ≡ true =
            subst (λ t. ltb expiry t ≡ true) at_now (ground (arith, ready, leased, until)) in
          rw (leased, until) (taken_over token expiry args.lease_token _ past)
    ]
  ]

  lease-Move :
      (db : Db) (args : LeaseArgs)
      → args.now ≡ now
      → IsConsistent db
      → Move held now id (job_state id db) (job_state id (lease db args).1)
  lease-Move db args at_now k =
      lease_cases (λ d. Move held now id (job_state id db) (job_state id d)) db args (stays _)
        λ j found.
          let (m, ready, _) = candidate-ready args.locked args.now db.jobs found in
          lease_row_cases (λ d. Move held now id (job_state id db) (job_state id d)) db args j
            (stays _)
            λ _.
              update-Move (λ x. x.id == j.id) (grant args) db.jobs (λ x n h. refl)
                (λ x n here h.
                  let same : j ≡ x =
                    Distinct-Member (λ (y : Job). y.id) db.jobs k.job_ids m n (ground (arith, h)) in
                  ready-Move args x at_now (All-elim IsJobRow db.jobs k.job_rows n)
                    (subst (λ y. is_ready args.now y ≡ true) same ready))

  finish-Move :
      (db : Db) (job : CrawlJob) (close : _) (reschedule : Job → Job)
      → IsConsistent db
      → Member job held
      → ((x : Job) → (reschedule x).id ≡ x.id)
      → ((x : Job) → state_of (reschedule x) ≡ waiting)
      → Move held now id (job_state id db) (job_state id (finish db job close reschedule).1)
  finish-Move db job close reschedule k m ids clears =
      finish_cases (λ d. Move held now id (job_state id db) (job_state id d)) db job close
        reschedule (stays _)
        λ _ _.
          update-Move (holds_lease job.id job.lease_token) reschedule db.jobs (λ x n h. ids x)
            (λ x n here h. rw (clears x) (holder-Move x job m (ground (arith, here, h)) h))
    where
      holder-Move :
          (x : Job) (job : CrawlJob)
          → Member job held
          → job.id ≡ id
          → holds_lease job.id job.lease_token x ≡ true
          → Move held now id (state_of x) waiting
      holder-Move x job m own h = elim (Option-cases x.lease_token) [
        | inl idle ↦ absurd (ground (arith, h, idle))
        | inr (token, leased) ↦ elim (Option-cases x.lease_expires_at) [
          | inl no_expiry ↦ rw (leased, no_expiry) (stays waiting)
          | inr (expiry, until) ↦
              let same : job.lease_token ≡ token = ground (arith, h, leased) in
              rw (leased, until)
                (subst (λ t. Move held now id (leased_until t expiry) waiting) same
                  (finished job expiry m own))
        ]
      ]

  reap-Move :
      (db : Db)
      → IsConsistent db
      → Move held now id (job_state id db) (job_state id (reap_expired db now).1)
  reap-Move db k =
      let (rows, _) = reap_jobs db now k in
      subst (λ jobs. Move held now id (job_state id db) (state_of_row (row_of jobs))) (sym rows)
        (update-Move (is_expired now) (reschedule_expired now) db.jobs (λ x n h. refl)
          (λ x n here h. expired-Move x h))
    where
      expired-Move : (x : Job) → is_expired now x ≡ true → Move held now id (state_of x) waiting
      expired-Move x h = elim (Option-cases x.lease_token) [
        | inl idle ↦ absurd (ground (arith, h, idle))
        | inr (token, leased) ↦ elim (Option-cases x.lease_expires_at) [
          | inl no_expiry ↦ absurd (ground (arith, h, leased, no_expiry))
          | inr (expiry, until) ↦
              let past : ltb expiry now ≡ true = ground (arith, h, leased, until) in
              rw (leased, until) (expired token expiry past)
        ]
      ]

-- the time of a transaction
abbrev pub time_of : (crate : UrlCrate) {w v : World} → Step crate w v → ℕ
time_of crate (seeds now new args) = now
time_of crate (leases args job e) = args.now
time_of crate (leases_unseen args) = args.now
time_of crate (completes now job diagnostic receipt m) = now
time_of crate (fails now job code details m) = now
time_of crate (reaps now) = now

-- Every transaction of the queue, seen from one job, is a move of the board, in a world where the
-- invariant holds: a lease takes a job that waits or whose lease is past, only a holder of the lease
-- finishes it, and the reaper frees only a lease that is past.
pub Step-Move :
    (crate : UrlCrate) {w v : World} (id : ℕ) (s : Step crate w v)
    → Inv w
    → Move w.held (time_of crate s) id (job_state id w.db) (job_state id v.db)
unfolding complete fail
Step-Move crate {w} id (seeds now new args) i =
    seed_cases (λ d. Move w.held now id (job_state id w.db) (job_state id d)) crate w.db now new
      args (stays _)
      (λ url. update-Move w.held now id _ _ w.db.jobs (λ x n h. refl) (λ x n here h. stays _))
      (λ url. append-Move w.held now id w.db.jobs (new_job now new args url) refl)
Step-Move crate {w} id (leases args job e) i =
    lease-Move w.held args.now id w.db args refl i.consistent
Step-Move crate {w} id (leases_unseen args) i =
    lease-Move w.held args.now id w.db args refl i.consistent
Step-Move crate {w} id (completes now job diagnostic receipt m) i =
    finish-Move w.held now id w.db job _ _ i.consistent m (λ x. refl) (λ x. refl)
Step-Move crate {w} id (fails now job code details m) i =
    finish-Move w.held now id w.db job _ _ i.consistent m (λ x. refl) (λ x. refl)
Step-Move crate {w} id (reaps now) i = reap-Move w.held now id w.db i.consistent
