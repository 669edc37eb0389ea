-- ===== src/Runtime/Worker/Closed.antt =====
-- What a transaction that ends a job has written, as the worker of runtime-worker/src/main.rs sees it.
use eal_sync.Prelude.{
  ◌≤◌, ◌≡◌, refl, Bool, true, List, [], ◌∷◌, ◌==◌, count, arith, Bool-cases, inl, inr,
}
use eal_sync.Prelude.Result.{ok, err_is_not_ok}
use eal_sync.Prelude.Member.{Member, Member-update}
use eal_sync.Queue.Tables.{Job, Attempt, Db, CrawlJob, is_open_attempt, holds_lease}
use eal_sync.Queue.Finish.{finish}
use eal_sync.Queue.Invariant.Steps.{World}
use eal_sync.Runtime.Worker.{finished}

count-Member :
    {A : Type 0} (p : A → Bool) (xs : List A)
    → 1 ≤ count p xs
    → (x : A) × Member x xs × (p x ≡ true)
count-Member p [] h = absurd (omega (arith, h))
count-Member p (x ∷ xs) h = elim (Bool-cases (p x)) [
  | inl hit ↦ (x, inl refl, hit)
  | inr miss ↦ let (y, m, e) = count-Member p xs (ground (arith, miss, h)) in (y, inr m, e)
]

-- An attempt of the job that was open, and a row of the job that was leased, have been written.
pub record IsClosed (job : CrawlJob) (close : Attempt → Attempt) (reschedule : Job → Job) (db : Db)
    : Type 0 where
  pub attempt : Attempt
  pub row : Job
  pub was_open : is_open_attempt job.attempt_id job.lease_token attempt ≡ true
  pub was_leased : holds_lease job.id job.lease_token row ≡ true
  pub closed : Member (close attempt) db.attempts
  pub rescheduled : Member (reschedule row) db.jobs

pub finished-IsClosed :
    (db : Db) (job : CrawlJob) (close : Attempt → Attempt) (reschedule : Job → Job) (w : World)
    → (finished (finish db job close reschedule) w).0 ≡ ok true
    → IsClosed job close reschedule (finished (finish db job close reschedule) w).1.db
unfolding finish
finished-IsClosed db job close reschedule w e =
    elim (Bool-cases (count (is_open_attempt job.attempt_id job.lease_token) db.attempts == 1)) [
      | inr lost ↦ absurd (err_is_not_ok (rw (lost, finish) at e))
      | inl one ↦ elim (Bool-cases (count (holds_lease job.id job.lease_token) db.jobs == 1)) [
        | inr gone ↦ absurd (err_is_not_ok (rw (one, gone, finish) at e))
        | inl held ↦
            let (attempt, in_attempts, was_open) =
              count-Member (is_open_attempt job.attempt_id job.lease_token) db.attempts
                (ground (arith, one)) in
            let (row, in_jobs, was_leased) =
              count-Member (holds_lease job.id job.lease_token) db.jobs (ground (arith, held)) in
            rw (one, held, finish)
              (record {
                attempt = attempt;
                row = row;
                was_open = was_open;
                was_leased = was_leased;
                closed =
                    Member-update (is_open_attempt job.attempt_id job.lease_token) close db.attempts
                      in_attempts was_open;
                rescheduled =
                    Member-update (holds_lease job.id job.lease_token) reschedule db.jobs in_jobs
                      was_leased;
              })
      ]
    ]
