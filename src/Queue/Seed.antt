-- ===== src/Queue/Seed.antt =====
-- `CrawlQueue::seed` of runtime-worker/src/queue.rs.
use eal_sync.Prelude.{ℕ, Bool, ◌&&◌, [], ◌∷◌, ◌++◌, none, some, ◌==◌, any, find, min, if◌then◌else◌}
use eal_sync.Prelude.Int.{ℤ, pos_part, within_ℤ}
use eal_sync.Prelude.Text.{Text, text_eq}
use eal_sync.Prelude.Result.{Result, ok, err, guard, map_err, ◌>>=◌, ◌>>◌}
use eal_sync.Net.Url.{UrlCrate}
use eal_sync.Runtime.PublicUrl.{validate_public_https_url}
use eal_sync.Prelude.Member.{update}
use eal_sync.Queue.Tables.{
  Job, Db, QueueError, invalid_url, invalid_interval, invalid_max_attempts, constraint_violation,
}

pub record SeedArgs : Type 0 where
  pub tenant_id : ℕ
  pub source_id : ℕ
  pub start_url : Text
  pub interval_seconds : ℤ
  pub max_attempts : ℤ
  pub enabled : Bool

-- the unique key (tenant_id, source_id, start_url)
abbrev pub same_source : SeedArgs → Text → Job → Bool
same_source args url j =
    j.tenant_id == args.tenant_id && j.source_id == args.source_id && text_eq j.start_url url

-- a row as `INSERT` makes it, with the defaults of the table
abbrev pub new_job : ℕ → ℕ → SeedArgs → Text → Job
new_job now id args url = record {
  id = id;
  tenant_id = args.tenant_id;
  source_id = args.source_id;
  start_url = url;
  enabled = args.enabled;
  interval_seconds = pos_part args.interval_seconds;
  next_run_at = now;
  lease_token = none;
  lease_owner = none;
  lease_expires_at = none;
  attempt_count = 0;
  max_attempts = pos_part args.max_attempts;
  last_error_code = none;
}

-- `DO UPDATE SET`
abbrev pub reseed : ℕ → SeedArgs → Job → Job
reseed now args j = record j {
  enabled = args.enabled;
  interval_seconds = pos_part args.interval_seconds;
  max_attempts = pos_part args.max_attempts;
  next_run_at = min j.next_run_at now;
}

-- `INSERT … ON CONFLICT … DO UPDATE … RETURNING id`
unfoldable pub upsert : Db → ℕ → ℕ → SeedArgs → Text → Result QueueError ℕ × Db
upsert db now id args url = elim (find (same_source args url) db.jobs) [
  | some j ↦ (ok j.id, record db { jobs = update (same_source args url) (reseed now args) db.jobs })
  | none ↦
      if any (λ j. j.id == id) db.jobs
      then (err constraint_violation, db)
      else (ok id, record db { jobs = db.jobs ++ new_job now id args url ∷ [] })
]

module _ (crate : UrlCrate) where
  unfoldable pub check_seed : SeedArgs → Result QueueError Text
  check_seed args = do
    url ← map_err (λ _. invalid_url) (validate_public_https_url crate args.start_url)
    guard (within_ℤ 60 2_592_000 args.interval_seconds) invalid_interval
    guard (within_ℤ 1 100 args.max_attempts) invalid_max_attempts
    ok (crate.as_str url)

  unfoldable pub seed : Db → ℕ → ℕ → SeedArgs → Result QueueError ℕ × Db
  seed db now id args = elim (check_seed args) [
    | err e ↦ (err e, db)
    | ok url ↦ upsert db now id args url
  ]
