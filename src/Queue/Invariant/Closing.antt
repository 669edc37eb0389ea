-- ===== src/Queue/Invariant/Closing.antt =====
-- `complete` and `fail` of runtime-worker/src/queue.rs and the invariant of the tables.
use eal_sync.Prelude.{ℕ, ◌≡◌, refl, ap, true, false, Option, none, some, ◌==◌, arith, ◌∙◌}
use eal_sync.Prelude.Text.{Text}
use eal_sync.Prelude.Json.{Json}
use eal_sync.Prelude.Member.{
  Member, update, All-update, All-update-All, All-elim, any-Member, any-update, map-update,
  Distinct-Member,
}
use eal_sync.Queue.Tables.{Job, Attempt, Db, CrawlJob, is_open_attempt, holds_lease}
use eal_sync.Queue.Rows.{finish_cases}
use eal_sync.Queue.Finish.{finish, close_succeeded, reschedule_succeeded, complete, fail}
use eal_sync.Queue.Invariant.{
  IsJobRow, IsAttemptRow, IsConsistent, IsLinked, IsGenuine, records, is_open_under,
  has_open_attempt,
}

-- A genuine job's attempt row is the one with its attempt id.
module _ (db : Db) (job : CrawlJob) (k : IsConsistent db) (g : IsGenuine db.attempts job) where
  pub attempt_job :
      (a : Attempt) → Member a db.attempts → (a.id == job.attempt_id) ≡ true → a.job_id ≡ job.id
  attempt_job a m e =
      let (b, n, r) = any-Member (records job) db.attempts g in
      let same : a ≡ b =
        Distinct-Member (λ (x : Attempt). x.id) db.attempts k.attempt_ids m n (ground arith) in
      ap (λ (x : Attempt). x.job_id) same ∙ ground arith

  module _ (close : Attempt → Attempt) (reschedule : Job → Job) where
    -- What the two ways to finish share: the identity of a row stays, and the lease is given up.
    record Closes : Type 0 where
      attempt_row : (a : Attempt) → IsAttemptRow (close a)
      attempt_id : (a : Attempt) → (close a).id ≡ a.id
      job_id : (j : Job) → (reschedule j).id ≡ j.id
      released : (j : Job) → (reschedule j).lease_token ≡ none
      job_row :
          (j : Job)
          → holds_lease job.id job.lease_token j ≡ true
          → IsJobRow j
          → IsJobRow (reschedule j)

    -- Another job's link is not to the attempt that is closed.
    other_link :
        (j : Job) (token : Option ℕ)
        → holds_lease job.id job.lease_token (record j { lease_token = token }) ≡ false
        → has_open_attempt db.attempts j.id token ≡ true
        → has_open_attempt
            (update (is_open_attempt job.attempt_id job.lease_token) close db.attempts)
            j.id
            token
          ≡ true
    other_link j none miss h = refl
    other_link j (some t) miss h =
        any-update (is_open_under j.id t) (is_open_attempt job.attempt_id job.lease_token) close
          db.attempts (λ a m open_under hit. absurd (ground (arith, attempt_job a m))) h

    finish-IsConsistent : Closes → IsConsistent (finish db job close reschedule).1
    finish-IsConsistent c =
        finish_cases IsConsistent db job close reschedule k λ one_attempt one_job. record {
          job_rows =
              All-update IsJobRow (holds_lease job.id job.lease_token) reschedule db.jobs
                (λ j _ r hit. c.job_row j hit r) k.job_rows;
          attempt_rows =
              All-update IsAttemptRow (is_open_attempt job.attempt_id job.lease_token) close
                db.attempts (λ a _ _ _. c.attempt_row a) k.attempt_rows;
          job_ids =
              rw
                (map-update (λ (j : Job). j.id) (holds_lease job.id job.lease_token) reschedule
                  db.jobs c.job_id)
                k.job_ids;
          attempt_ids =
              rw
                (map-update (λ (a : Attempt). a.id) (is_open_attempt job.attempt_id job.lease_token)
                  close db.attempts c.attempt_id)
                k.attempt_ids;
          linked =
              All-update-All
                (IsLinked
                  (update (is_open_attempt job.attempt_id job.lease_token) close db.attempts))
                (holds_lease job.id job.lease_token) reschedule db.jobs (λ j _ _. rw (c.released j))
                (λ j m miss.
                  other_link j j.lease_token miss
                    (All-elim (IsLinked db.attempts) db.jobs k.linked m));
        }

  pub complete-IsConsistent :
      (now : ℕ) (diagnostic receipt : Json)
      → IsConsistent (complete db now job diagnostic receipt).1
  unfolding complete
  complete-IsConsistent now diagnostic receipt =
      finish-IsConsistent (close_succeeded now receipt diagnostic) (reschedule_succeeded now)
        (record {
          attempt_row = λ a. refl;
          attempt_id = λ a. refl;
          job_id = λ j. refl;
          released = λ j. refl;
          job_row = λ j hit r. ground arith;
        })

  pub fail-IsConsistent :
      (now : ℕ) (code : Text) (details : Json) → IsConsistent (fail db now job code details).1
  unfolding fail
  fail-IsConsistent now code details = finish-IsConsistent _ _ (record {
    attempt_row = λ a. refl;
    attempt_id = λ a. refl;
    job_id = λ j. refl;
    released = λ j. refl;
    job_row = λ j hit r. ground arith;
  })
