-- ===== src/Queue/Invariant.antt =====
-- The invariant of the queue's tables between transactions: the constraints of
-- runtime-worker/migrations/001_runtime.sql and the link from leases to attempts.
pub mod Jobs
pub mod Grants
pub mod Closing
pub mod Reaping
pub mod Keys
pub mod Steps
use eal_sync.Prelude.{
  ℕ, ◌≤◌, ◌<◌, ◌≡◌, Bool, true, false, ◌&&◌, List, map, Option, none, some, ◌==◌, All, any, is_none,
}
use eal_sync.Prelude.Text.{Text, codes, starts_with}
use eal_sync.Prelude.Member.{Distinct}
use eal_sync.Queue.Tables.{Job, Attempt, Db, CrawlJob, is_leased}

-- The CHECK constraints of `eal_crawl_jobs`, and the bound on `attempt_count` that keeps the i32 of
-- the column from overflowing.
pub record IsJobRow (j : Job) : Type 0 where
  pub interval_min : 60 ≤ j.interval_seconds
  pub interval_max : j.interval_seconds ≤ 2_592_000
  pub attempts_min : 1 ≤ j.max_attempts
  pub attempts_max : j.max_attempts ≤ 100
  pub https_only : starts_with (codes "https://") j.start_url ≡ true
  pub counted : j.attempt_count ≤ 100
  pub counted_lease : is_none j.lease_token ≡ false → j.attempt_count < 100
  pub owner_shape : is_none j.lease_owner ≡ is_none j.lease_token
  pub expiry_shape : is_none j.lease_expires_at ≡ is_none j.lease_token

-- The CHECK constraint of `eal_crawl_attempts`: an attempt is finished once it is not leased.
abbrev pub IsAttemptRow : Attempt → Type 0
IsAttemptRow a = is_none a.finished_at ≡ is_leased a.status

abbrev pub is_open_under : ℕ → ℕ → Attempt → Bool
is_open_under job_id token a = a.job_id == job_id && a.lease_token == token && is_leased a.status

abbrev pub has_open_attempt : List Attempt → ℕ → Option ℕ → Bool
has_open_attempt attempts job_id none = true
has_open_attempt attempts job_id (some token) = any (is_open_under job_id token) attempts

-- A job that is leased has an open attempt under its token.
abbrev pub IsLinked : List Attempt → Job → Type 0
IsLinked attempts j = has_open_attempt attempts j.id j.lease_token ≡ true

pub record IsConsistent (db : Db) : Type 0 where
  pub job_rows : All IsJobRow db.jobs
  pub attempt_rows : All IsAttemptRow db.attempts
  pub job_ids : Distinct (map (λ j. j.id) db.jobs)
  pub attempt_ids : Distinct (map (λ a. a.id) db.attempts)
  pub linked : All (IsLinked db.attempts) db.jobs

abbrev pub records : CrawlJob → Attempt → Bool
records job a = a.id == job.attempt_id && a.job_id == job.id && a.lease_token == job.lease_token

-- What a worker holds comes from a lease: its attempt is on record.
abbrev pub IsGenuine : List Attempt → CrawlJob → Type 0
IsGenuine attempts job = any (records job) attempts ≡ true
