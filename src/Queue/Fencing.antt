-- ===== src/Queue/Fencing.antt =====
-- What `complete` and `fail` of runtime-worker/src/queue.rs do once a lease is lost or used.
use mathlib.Core.Bool.{false≢true}
use eal_sync.Prelude.{
  ℕ, ◌≡◌, ap, ◌&&◌, refl, sym, Bool, true, false, List, [], ◌∷◌, ◌==◌, All, any, count, keep, arith,
  is_some_of, Bool-cases, inl, inr, ◌∙◌,
}
use eal_sync.Prelude.Text.{Text}
use eal_sync.Prelude.Json.{Json}
use eal_sync.Prelude.Result.{ok, err}
use eal_sync.Prelude.Member.{Member, update, All-update-All, Member-any, Member-keep}
use eal_sync.Queue.Tables.{Job, Attempt, Db, CrawlJob, attempt_lost, is_open_attempt, holds_lease}
use eal_sync.Queue.Finish.{
  finish, close_succeeded, complete, fail, is_expired, is_abandoned, close_abandoned,
  reschedule_expired, reap_expired,
}
use eal_sync.Queue.Invariant.{IsConsistent, IsGenuine}
use eal_sync.Queue.Invariant.Closing.{attempt_job}
use eal_sync.Queue.Invariant.Reaping.{reap_jobs}

pub count-none :
    {A : Type 0} (p : A → Bool) (xs : List A) → All (λ x. p x ≡ false) xs → count p xs ≡ 0
count-none p [] h = refl
count-none p (x ∷ xs) (h, hs) = rw (h, count-none p xs hs)

-- An update after which no row passes the test.
count-update :
    {A : Type 0} (p test : A → Bool) (set : A → A) (xs : List A)
    → ((x : A) → Member x xs → test x ≡ true → p (set x) ≡ false)
    → ((x : A) → Member x xs → test x ≡ false → p x ≡ false)
    → count p (update test set xs) ≡ 0
count-update p test set xs hits misses =
    count-none p (update test set xs) (All-update-All (λ x. p x ≡ false) test set xs hits misses)

-- Both ways to finish are refused, and change nothing, where no open attempt is left.
finish_lost :
    (db : Db) (job : CrawlJob) (close : Attempt → Attempt) (reschedule : Job → Job)
    → count (is_open_attempt job.attempt_id job.lease_token) db.attempts ≡ 0
    → finish db job close reschedule ≡ (err attempt_lost, db)
unfolding finish
finish_lost db job close reschedule none_left = rw none_left

finish_done :
    (db : Db) (job : CrawlJob) (close : Attempt → Attempt) (reschedule : Job → Job)
    → (finish db job close reschedule).0 ≡ ok tt
    → (finish db job close reschedule).1 ≡ record {
      jobs = update (holds_lease job.id job.lease_token) reschedule db.jobs;
      attempts = update (is_open_attempt job.attempt_id job.lease_token) close db.attempts;
    }
unfolding finish
finish_done db job close reschedule e = ground arith

-- The result of a job is recorded at most once: after a `complete` that succeeds, `complete` and
-- `fail` are refused for the same job and leave the tables alone.
pub complete_once :
    (db : Db) (now later : ℕ) (job : CrawlJob) (diagnostic receipt : Json) (code : Text)
    (details : Json)
    → (complete db now job diagnostic receipt).0 ≡ ok tt
    → let after = (complete db now job diagnostic receipt).1 in
      (complete after later job diagnostic receipt ≡ (err attempt_lost, after))
      × (fail after later job code details ≡ (err attempt_lost, after))
unfolding complete fail
complete_once db now later job diagnostic receipt code details e =
    (finish_lost _ _ _ _ closed, finish_lost _ _ _ _ closed)
  where
    closed :
        count
          (is_open_attempt job.attempt_id job.lease_token)
          (complete db now job diagnostic receipt).1.attempts
        ≡ 0
    closed = rw (ap (λ (d : Db). d.attempts) (finish_done db job _ _ e)) (
        count-update (is_open_attempt job.attempt_id job.lease_token) _
          (close_succeeded now receipt diagnostic) db.attempts (λ a m hit. ground arith)
          (λ a m miss. miss))

module _ (db : Db) (job : CrawlJob) (row : Job) (now : ℕ) (k : IsConsistent db)
    (g : IsGenuine db.attempts job) where
  -- In consistent tables that have the attempt of a job on record: if the row of the job is leased
  -- under its token and that lease has expired, then after a reap both `complete` and `fail` are
  -- refused for that job and leave the tables alone.
  pub finish_after_reap :
      (later : ℕ) (diagnostic receipt : Json) (code : Text) (details : Json)
      → Member row db.jobs
      → holds_lease job.id job.lease_token row ≡ true
      → is_expired now row ≡ true
      → let after = (reap_expired db now).1 in
        (complete after later job diagnostic receipt ≡ (err attempt_lost, after))
        × (fail after later job code details ≡ (err attempt_lost, after))
  unfolding complete fail
  finish_after_reap later diagnostic receipt code details m h e =
      (finish_lost _ _ _ _ (lost m h e), finish_lost _ _ _ _ (lost m h e))
    where
      abandoned_attempt :
          Member row db.jobs
          → holds_lease job.id job.lease_token row ≡ true
          → is_expired now row ≡ true
          → (a : Attempt) → Member a db.attempts
          → is_open_attempt job.attempt_id job.lease_token a ≡ true
          → is_abandoned (keep (is_expired now) db.jobs) a ≡ true
      abandoned_attempt m h e a n open_a =
          let same : a.job_id ≡ job.id = attempt_job db job k g a n (ground arith) in
          let hit : any (λ (x : Job). a.job_id == x.id && is_some_of a.lease_token x.lease_token)
                (keep (is_expired now) db.jobs)
              ≡ true =
            Member-any (λ (x : Job). a.job_id == x.id && is_some_of a.lease_token x.lease_token) _
              (Member-keep (is_expired now) db.jobs m e) (ground arith) in
          rw hit (ground arith)

      lost :
          Member row db.jobs
          → holds_lease job.id job.lease_token row ≡ true
          → is_expired now row ≡ true
          → count (is_open_attempt job.attempt_id job.lease_token) (reap_expired db now).1.attempts
            ≡ 0
      lost m h e =
          unfold reap_expired in
          count-update (is_open_attempt job.attempt_id job.lease_token)
            (is_abandoned (keep (is_expired now) db.jobs)) (close_abandoned now) db.attempts
            (λ a n hit. ground arith)
            (λ a n miss. elim (Bool-cases (is_open_attempt job.attempt_id job.lease_token a)) [
              | inl open_a ↦ absurd (false≢true (sym miss ∙ abandoned_attempt m h e a n open_a))
              | inr shut ↦ shut
            ])

-- In consistent tables no lease is left after a reap that had expired by then.
pub reap_frees :
    (db : Db) (now : ℕ)
    → IsConsistent db
    → All (λ j. is_expired now j ≡ false) (reap_expired db now).1.jobs
reap_frees db now k = rw ((reap_jobs db now k).0) (
    All-update-All (λ j. is_expired now j ≡ false) (is_expired now) (reschedule_expired now) db.jobs
      (λ j m hit. refl) (λ j m miss. miss))
