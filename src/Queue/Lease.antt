-- ===== src/Queue/Lease.antt =====
-- `CrawlQueue::lease` of runtime-worker/src/queue.rs. Rows that another transaction has locked are
-- skipped: `locked` says which.
use eal_sync.Prelude.{
  ℕ, ◌+◌, Bool, not, ◌&&◌, ◌||◌, List, [], ◌∷◌, ◌++◌, Option, none, some, ◌==◌, ltb, leb, any, keep,
  is_none, if◌then◌else◌,
}
use eal_sync.Prelude.Int.{ℤ, pos_part, within_ℤ}
use eal_sync.Prelude.Text.{Text, trim, byte_len, is_empty}
use eal_sync.Prelude.Json.{object, end}
use eal_sync.Prelude.Result.{Result, ok, err, guard, ◌>>◌}
use eal_sync.Prelude.Member.{update}
use eal_sync.Queue.Tables.{
  Job, Attempt, Db, CrawlJob, leased, QueueError, invalid_owner, invalid_lease_seconds,
  constraint_violation, seconds, is_past,
}

-- the `WHERE` clause of the candidate
unfoldable pub is_ready : ℕ → Job → Bool
is_ready now j =
    j.enabled
    && leb j.next_run_at now
    && ltb j.attempt_count j.max_attempts
    && (is_none j.lease_token || is_past now j.lease_expires_at)

-- `ORDER BY next_run_at ASC, id ASC`
abbrev pub runs_before : Job → Job → Bool
runs_before a b =
    ltb a.next_run_at b.next_run_at || (a.next_run_at == b.next_run_at && ltb a.id b.id)

-- `LIMIT 1`
abbrev pub sooner : Job → Option Job → Option Job
sooner j none = some j
sooner j (some k) = if runs_before k j then some k else some j

unfoldable pub earliest : List Job → Option Job
earliest [] = none
earliest (j ∷ js) = sooner j (earliest js)

unfoldable pub candidate : (ℕ → Bool) → ℕ → List Job → Option Job
candidate locked now jobs = earliest (keep (λ j. is_ready now j && not (locked j.id)) jobs)

pub record LeaseArgs : Type 0 where
  pub now : ℕ
  pub locked : ℕ → Bool
  pub owner : Text
  pub lease_seconds : ℤ
  -- the two calls of `Uuid::new_v4`
  pub lease_token : ℕ
  pub attempt_id : ℕ

abbrev pub grant : LeaseArgs → Job → Job
grant args j = record j {
  lease_token = some args.lease_token;
  lease_owner = some (trim args.owner);
  lease_expires_at = some (args.now + seconds (pos_part args.lease_seconds));
}

abbrev pub new_attempt : LeaseArgs → ℕ → Attempt
new_attempt args job_id = record {
  id = args.attempt_id;
  job_id = job_id;
  lease_token = args.lease_token;
  status = leased;
  finished_at = none;
  error_code = none;
  api_receipt = none;
  details = object end;
}

-- the primary key and the unique key (job_id, lease_token) of `eal_crawl_attempts`
abbrev pub conflicts : LeaseArgs → ℕ → Attempt → Bool
conflicts args job_id a =
    a.id == args.attempt_id || (a.job_id == job_id && a.lease_token == args.lease_token)

abbrev pub crawl_job : LeaseArgs → Job → CrawlJob
crawl_job args j = record {
  id = j.id;
  tenant_id = j.tenant_id;
  source_id = j.source_id;
  start_url = j.start_url;
  interval_seconds = j.interval_seconds;
  attempt_count = j.attempt_count;
  max_attempts = j.max_attempts;
  lease_token = args.lease_token;
  attempt_id = args.attempt_id;
}

-- the two statements on the row that was found
unfoldable pub lease_row : Db → LeaseArgs → Job → Result QueueError (Option CrawlJob) × Db
lease_row db args j =
    if any (conflicts args j.id) db.attempts then (err constraint_violation, db) else (
      ok (some (crawl_job args j)),
      record {
        jobs = update (λ k. k.id == j.id) (grant args) db.jobs;
        attempts = db.attempts ++ new_attempt args j.id ∷ [];
      },
    )

unfoldable pub check_lease : LeaseArgs → Result QueueError (Unit {0})
check_lease args = do
  guard (not (is_empty (trim args.owner) || ltb 200 (byte_len args.owner))) invalid_owner
  guard (within_ℤ 30 3_600 args.lease_seconds) invalid_lease_seconds

unfoldable pub lease : Db → LeaseArgs → Result QueueError (Option CrawlJob) × Db
lease db args = elim (check_lease args) [
  | err e ↦ (err e, db)
  | ok _ ↦ elim (candidate args.locked args.now db.jobs) [
    | none ↦ (ok none, db)
    | some j ↦ lease_row db args j
  ]
]
