-- ===== src/Queue/Invariant/Grants.antt =====
-- `lease` of runtime-worker/src/queue.rs and the invariant of the tables.
use eal_sync.Prelude.{
  ℕ, ◌≡◌, ◌⊎◌, refl, sym, subst, Bool, true, false, not, ◌&&◌, List, [], ◌∷◌, ◌++◌, Option, none,
  some, ◌==◌, ==_iff, All-append, any, arith, Bool-cases, Option-cases, inl, inr,
}
use eal_sync.Prelude.Result.{ok, Result-cases}
use eal_sync.Prelude.Member.{
  Member, update, All-update-All, All-elim, any-append, map-update, keep-Member, any-false_mono,
  Distinct-append, Distinct-Member,
}
use eal_sync.Queue.Tables.{Job, Attempt, Db, CrawlJob}
use eal_sync.Queue.Lease.{
  is_ready, sooner, earliest, candidate, LeaseArgs, grant, new_attempt, conflicts, crawl_job,
  lease_row, check_lease, lease,
}
use eal_sync.Queue.Invariant.{
  IsJobRow, IsAttemptRow, IsConsistent, IsLinked, is_open_under, has_open_attempt,
}

sooner_cases : (k : Job) (o : Option Job) {j : Job} → sooner k o ≡ some j → (j ≡ k) ⊎ (o ≡ some j)
sooner_cases k none e = ground arith
sooner_cases k (some i) e = ground arith

pub earliest-Member : (js : List Job) {j : Job} → earliest js ≡ some j → Member j js
unfolding earliest
earliest-Member [] e = cc
earliest-Member (k ∷ ks) {j} e = elim (sooner_cases k (earliest ks) e) [
  | inl here ↦ inl here
  | inr later ↦ inr (earliest-Member ks {j = j} later)
]

-- What is found is a row of the table, ready, and not locked by another transaction.
pub candidate-ready :
    (locked : ℕ → Bool) (now : ℕ) (jobs : List Job) {j : Job}
    → candidate locked now jobs ≡ some j
    → Member j jobs × (is_ready now j ≡ true) × (locked j.id ≡ false)
unfolding candidate
candidate-ready locked now jobs {j} e =
    let (m, h) =
      keep-Member (λ k. is_ready now k && not (locked k.id)) {x = j} jobs (earliest-Member _ e) in
    (m, ground arith, ground arith)

grant-IsJobRow :
    (args : LeaseArgs) (j : Job) → IsJobRow j → is_ready args.now j ≡ true → IsJobRow (grant args j)
unfolding is_ready
grant-IsJobRow args j r h = ground arith

-- More attempts keep a link.
has_open_attempt-append :
    (xs ys : List Attempt) (id : ℕ) (token : Option ℕ)
    → has_open_attempt xs id token ≡ true
    → has_open_attempt (xs ++ ys) id token ≡ true
has_open_attempt-append xs ys id none h = refl
has_open_attempt-append xs ys id (some t) h = rw (any-append (is_open_under id t) xs ys, h)

granted-IsLinked :
    (args : LeaseArgs) (xs : List Attempt) (j : Job)
    → IsLinked (xs ++ new_attempt args j.id ∷ []) (grant args j)
granted-IsLinked args xs j =
    rw (any-append (is_open_under j.id args.lease_token) xs (new_attempt args j.id ∷ []))
      (ground arith)

module _ (db : Db) (args : LeaseArgs) (j : Job) (k : IsConsistent db) (m : Member j db.jobs)
    (h : is_ready args.now j ≡ true) where
  same_row : (i : Job) → Member i db.jobs → (i.id == j.id) ≡ true → j ≡ i
  same_row i n e =
      Distinct-Member (λ (r : Job). r.id) db.jobs k.job_ids m n (sym ((==_iff i.id j.id).0 e))

  lease_row-IsConsistent : IsConsistent (lease_row db args j).1
  unfolding lease_row
  lease_row-IsConsistent = elim (Bool-cases (any (conflicts args j.id) db.attempts)) [
    | inl taken ↦ rw (taken, lease_row) k
    | inr fresh ↦
        rw (fresh, lease_row)
          (record {
            job_rows =
                All-update-All IsJobRow (λ i. i.id == j.id) (grant args) db.jobs
                  (λ i n e.
                    subst (λ r. IsJobRow (grant args r)) (same_row i n e)
                      (grant-IsJobRow args j (All-elim IsJobRow db.jobs k.job_rows m) h))
                  (λ i n _. All-elim IsJobRow db.jobs k.job_rows n);
            attempt_rows =
                All-append IsAttemptRow db.attempts (new_attempt args j.id ∷ []) k.attempt_rows
                  (refl, tt);
            job_ids =
                rw
                  (map-update (λ (i : Job). i.id) (λ i. i.id == j.id) (grant args) db.jobs
                    (λ i. refl))
                  k.job_ids;
            attempt_ids =
                Distinct-append (λ (a : Attempt). a.id) db.attempts (new_attempt args j.id)
                  k.attempt_ids
                  (any-false_mono (λ (a : Attempt). a.id == args.attempt_id) (conflicts args j.id)
                    db.attempts (λ a e. rw e) fresh);
            linked =
                All-update-All (IsLinked (db.attempts ++ new_attempt args j.id ∷ []))
                  (λ i. i.id == j.id) (grant args) db.jobs
                  (λ i n e.
                    subst (λ r. IsLinked (db.attempts ++ new_attempt args j.id ∷ []) (grant args r))
                      (same_row i n e) (granted-IsLinked args db.attempts j))
                  (λ i n _.
                    has_open_attempt-append db.attempts (new_attempt args j.id ∷ []) i.id
                      i.lease_token (All-elim (IsLinked db.attempts) db.jobs k.linked n));
          })
  ]

-- The three ways in which `lease` ends.
pub lease_cases {ℓ} :
    (P : Db → Type ℓ) (db : Db) (args : LeaseArgs)
    → P db
    → ((j : Job) → candidate args.locked args.now db.jobs ≡ some j → P (lease_row db args j).1)
    → P (lease db args).1
unfolding lease
lease_cases P db args same granted = elim (Result-cases (check_lease args)) [
  | inl (e, refused) ↦ rw (refused, lease) same
  | inr (u, checked) ↦ elim (Option-cases (candidate args.locked args.now db.jobs)) [
    | inl nothing ↦ rw (checked, lease, nothing) same
    | inr (j, found) ↦ rw (checked, lease, found) (granted j found)
  ]
]

pub lease-IsConsistent :
    (db : Db) (args : LeaseArgs) → IsConsistent db → IsConsistent (lease db args).1
lease-IsConsistent db args k = lease_cases IsConsistent db args k λ j found.
    let (m, ready, _) = candidate-ready args.locked args.now db.jobs found in
    lease_row-IsConsistent db args j k m ready

-- What a successful `lease` has found and done.
pub record IsGranted (db : Db) (args : LeaseArgs) (job : CrawlJob) : Type 0 where
  pub row : Job
  pub is_candidate : candidate args.locked args.now db.jobs ≡ some row
  pub fresh : any (conflicts args row.id) db.attempts ≡ false
  pub handed_out : job ≡ crawl_job args row
  pub jobs_after : (lease db args).1.jobs ≡ update (λ k. k.id == row.id) (grant args) db.jobs
  pub attempts_after : (lease db args).1.attempts ≡ db.attempts ++ new_attempt args row.id ∷ []

pub lease-IsGranted :
    (db : Db) (args : LeaseArgs) (job : CrawlJob)
    → (lease db args).0 ≡ ok (some job)
    → IsGranted db args job
unfolding lease lease_row
lease-IsGranted db args job e = elim (Option-cases (candidate args.locked args.now db.jobs)) [
  | inl nothing ↦ absurd (ground arith)
  | inr (j, found) ↦ record {
    row = j;
    is_candidate = found;
    fresh = ground arith;
    handed_out = ground arith;
    jobs_after = ground arith;
    attempts_after = ground arith;
  }
]
