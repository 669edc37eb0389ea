-- ===== src/Queue/Finish.antt =====
-- `CrawlQueue::complete`, `fail` and `reap_expired` of runtime-worker/src/queue.rs.
use eal_sync.Prelude.{
  ℕ, ◌+◌, Bool, not, ◌&&◌, List, none, some, ◌==◌, any, count, keep, is_none, is_some_of,
  if◌then◌else◌,
}
use eal_sync.Prelude.Int.{pos}
use eal_sync.Prelude.Text.{Text, codes}
use eal_sync.Prelude.Json.{Json, string, object, field, end}
use eal_sync.Prelude.Result.{Result, ok, err}
use eal_sync.Prelude.Member.{update}
use eal_sync.Queue.Tables.{
  Job, Attempt, Db, CrawlJob, succeeded, failed, abandoned, QueueError, attempt_lost, job_lost,
  seconds, release, is_past, is_leased, is_open_attempt, holds_lease,
}
use eal_sync.Queue.Backoff.{retry_backoff_seconds, next_attempt, sanitize_code}

-- The transaction that `complete` and `fail` share: one attempt and one job must be updated.
unfoldable pub finish :
    Db → CrawlJob → (Attempt → Attempt) → (Job → Job) → Result QueueError (Unit {0}) × Db
finish db job close reschedule =
    let is_attempt = is_open_attempt job.attempt_id job.lease_token in
    let is_job = holds_lease job.id job.lease_token in
    if not (count is_attempt db.attempts == 1)
    then (err attempt_lost, db)
    else if not (count is_job db.jobs == 1)
    then (err job_lost, db)
    else (
      ok tt,
      record {
        jobs = update is_job reschedule db.jobs;
        attempts = update is_attempt close db.attempts;
      },
    )

abbrev pub close_succeeded : ℕ → Json → Json → Attempt → Attempt
close_succeeded now api_receipt diagnostic a = record a {
  status = succeeded;
  finished_at = some now;
  api_receipt = some api_receipt;
  details = diagnostic;
}

abbrev pub reschedule_succeeded : ℕ → Job → Job
reschedule_succeeded now j = record (release j) {
  next_run_at = now + seconds j.interval_seconds;
  attempt_count = 0;
  last_error_code = none;
}

unfoldable pub complete : Db → ℕ → CrawlJob → Json → Json → Result QueueError (Unit {0}) × Db
complete db now job diagnostic api_receipt =
    finish db job (close_succeeded now api_receipt diagnostic) (reschedule_succeeded now)

abbrev pub close_failed : ℕ → Text → Json → Attempt → Attempt
close_failed now error_code details a = record a {
  status = failed;
  finished_at = some now;
  error_code = some error_code;
  details = details;
}

abbrev pub reschedule_failed : ℕ → ℕ → Text → Job → Job
reschedule_failed now backoff_seconds error_code j = record (release j) {
  next_run_at = now + seconds backoff_seconds;
  attempt_count = j.attempt_count + 1;
  last_error_code = some error_code;
}

unfoldable pub fail : Db → ℕ → CrawlJob → Text → Json → Result QueueError (Unit {0}) × Db
fail db now job error_code details =
    let code = sanitize_code error_code in
    let backoff_seconds = retry_backoff_seconds (pos (next_attempt job.attempt_count)) in
    finish db job (close_failed now code details) (reschedule_failed now backoff_seconds code)

-- the rows of `expired`
abbrev pub is_expired : ℕ → Job → Bool
is_expired now j = not (is_none j.lease_token) && is_past now j.lease_expires_at

-- the rows of `abandoned`: open attempts under the token of an expired job
abbrev pub is_abandoned : List Job → Attempt → Bool
is_abandoned expired a =
    any (λ j. a.job_id == j.id && is_some_of a.lease_token j.lease_token) expired
    && is_leased a.status

abbrev pub is_reaped : List Attempt → Job → Bool
is_reaped found j = any (λ a. j.id == a.job_id && is_some_of a.lease_token j.lease_token) found

abbrev expiry_details : Json
expiry_details = object (field (codes "reason") (string (codes "worker lease expired")) end)

abbrev pub close_abandoned : ℕ → Attempt → Attempt
close_abandoned now a = record a {
  status = abandoned;
  finished_at = some now;
  error_code = some (codes "lease_expired");
  details = expiry_details;
}

abbrev pub reschedule_expired : ℕ → Job → Job
reschedule_expired now j = record (release j) {
  attempt_count = j.attempt_count + 1;
  next_run_at = now + seconds 60;
  last_error_code = some (codes "lease_expired");
}

-- one statement: every part of it sees the tables as they were before
unfoldable pub reap_expired : Db → ℕ → ℕ × Db
reap_expired db now =
    let expired = keep (is_expired now) db.jobs in
    let found = keep (is_abandoned expired) db.attempts in
    (
      count (is_reaped found) db.jobs,
      record {
        jobs = update (is_reaped found) (reschedule_expired now) db.jobs;
        attempts = update (is_abandoned expired) (close_abandoned now) db.attempts;
      },
    )
