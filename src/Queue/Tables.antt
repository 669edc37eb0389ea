-- ===== src/Queue/Tables.antt =====
-- The two tables of runtime-worker/migrations/001_runtime.sql and the statements on them. A UUID is a
-- number, a timestamp is a count of microseconds, NULL is `none`. The columns `created_at`,
-- `updated_at` and `started_at` are left out: no statement reads them.
use eal_sync.Prelude.{
  ℕ, ◌*◌, Bool, true, false, ◌&&◌, List, Option, none, some, ◌==◌, ltb, is_some_of,
}
use eal_sync.Prelude.Text.{Text}
use eal_sync.Prelude.Json.{Json}

-- a row of `eal_crawl_jobs`
pub record Job : Type 0 where
  pub id : ℕ
  pub tenant_id : ℕ
  pub source_id : ℕ
  pub start_url : Text
  pub enabled : Bool
  pub interval_seconds : ℕ
  pub next_run_at : ℕ
  pub lease_token : Option ℕ
  pub lease_owner : Option Text
  pub lease_expires_at : Option ℕ
  pub attempt_count : ℕ
  pub max_attempts : ℕ
  pub last_error_code : Option Text

pub data Status : Type 0 where
  leased succeeded failed abandoned : Status

-- a row of `eal_crawl_attempts`
pub record Attempt : Type 0 where
  pub id : ℕ
  pub job_id : ℕ
  pub lease_token : ℕ
  pub status : Status
  pub finished_at : Option ℕ
  pub error_code : Option Text
  pub api_receipt : Option Json
  pub details : Json

pub record Db : Type 0 where
  pub jobs : List Job
  pub attempts : List Attempt

-- `CrawlJob` of runtime-worker/src/types.rs: what a worker holds while it crawls
pub record CrawlJob : Type 0 where
  pub id : ℕ
  pub tenant_id : ℕ
  pub source_id : ℕ
  pub start_url : Text
  pub interval_seconds : ℕ
  pub attempt_count : ℕ
  pub max_attempts : ℕ
  pub lease_token : ℕ
  pub attempt_id : ℕ

-- `n * interval '1 second'`
abbrev pub seconds : ℕ → ℕ
seconds n = n * 1_000_000

abbrev pub is_leased : Status → Bool
is_leased leased = true
is_leased _ = false

-- `WHERE id = $1 AND lease_token = $2 AND status = 'leased'`
abbrev pub is_open_attempt : ℕ → ℕ → Attempt → Bool
is_open_attempt id token a = a.id == id && a.lease_token == token && is_leased a.status

-- `WHERE id = $1 AND lease_token = $2`
abbrev pub holds_lease : ℕ → ℕ → Job → Bool
holds_lease id token j = j.id == id && is_some_of token j.lease_token

-- `lease_expires_at < now()`, which is not true of NULL
abbrev pub is_past : ℕ → Option ℕ → Bool
is_past now none = false
is_past now (some t) = ltb t now

-- The lease columns are cleared together.
abbrev pub release : Job → Job
release j = record j { lease_token = none; lease_owner = none; lease_expires_at = none }

pub data QueueError : Type 0 where
  invalid_url invalid_interval invalid_max_attempts invalid_owner invalid_lease_seconds : QueueError
  constraint_violation attempt_lost job_lost : QueueError
