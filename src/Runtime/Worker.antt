-- ===== src/Runtime/Worker.antt =====
-- `process_next`, `run_worker` and `validate_worker_limits` of runtime-worker/src/main.rs.
pub mod Steps
pub mod Loop
pub mod Closed
pub mod Outcomes
use eal_sync.Prelude.{
  ℕ, Bool, true, false, not, ◌&&◌, ◌||◌, List, [], ◌∷◌, Option, none, some, within, if◌then◌else◌,
}
use eal_sync.Prelude.Text.{Text, codes}
use eal_sync.Prelude.Json.{Json}
use eal_sync.Prelude.Result.{Result, ok, err, guard, ◌>>=◌, ◌>>◌}
use eal_sync.Queue.Tables.{Db, CrawlJob, QueueError}
use eal_sync.Queue.Lease.{LeaseArgs, lease}
use eal_sync.Queue.Finish.{complete, fail, reap_expired}
use eal_sync.Queue.Invariant.Steps.{World}
use eal_sync.Runtime.Envelope.{CrawlCommandOutput}
use eal_sync.Net.Url.{UrlCrate}
use eal_sync.Prelude.Int.{ℤ}
use eal_sync.Runtime.Command.{
  CrawlCommandConfig, CrawlRunError, System, run_crawl_command, run_diagnostic,
}
use eal_sync.Runtime.Api.{Api, IngestApiClient, IngestApiError, api_diagnostic, ingest_page}

-- What `run_worker` passes to each round.
pub record Setup (crate : UrlCrate) : Type 0 where
  pub client : IngestApiClient crate
  pub command : CrawlCommandConfig
  pub owner : Text
  pub lease_seconds : ℤ

-- What the environment answers to one round: the times and fresh identifiers of its transactions, the
-- system that runs the crawl command, the API, and what other workers do to the queue before the lease
-- and while the page is crawled and posted.
pub record Round (crate : UrlCrate) : Type 0 where
  pub reaped_at : ℕ
  pub before_lease : World → World
  pub leased_at : ℕ
  pub locked : ℕ → Bool
  pub lease_token : ℕ
  pub attempt_id : ℕ
  pub os : System
  pub requested_at : ℕ
  pub while_crawling : World → World
  pub api : Api crate
  pub while_posting : World → World
  pub finished_at : ℕ

-- How far a round has come when the shutdown signal drops it: before its reap, which is also where a
-- worker sleeps, after its reap, after its lease, or after it recorded its result.
pub data Cut : Type 0 where
  unstarted reaped leased recorded : Cut

-- `select!` in the loop of `run_worker`: a round that ends, or the shutdown signal first.
pub data Turn (crate : UrlCrate) : Type 0 where
  round : Round crate → Turn crate
  shutdown : Cut → Round crate → Turn crate

-- `Ok(true)` after a transaction that succeeds; its error otherwise
abbrev pub finished : Result QueueError (Unit {0}) × Db → World → Result QueueError Bool × World
finished (ok _, db) w = (ok true, record w { db = db })
finished (err e, db) w = (err e, record w { db = db })

abbrev pub leased_world : World → CrawlJob → Db → World
leased_world w job db = record { db = db; held = job ∷ w.held }

-- the queue when a round is dropped after its lease
abbrev pub dropped : World → Result QueueError (Option CrawlJob) × Db → World
dropped w (err e, db) = record w { db = db }
dropped w (ok none, db) = record w { db = db }
dropped w (ok (some job), db) = leased_world w job db

abbrev pub is_ok : Result QueueError Bool → Bool
is_ok (ok processed) = true
is_ok (err e) = false

abbrev outcome : Result QueueError Bool → Result QueueError (Unit {0})
outcome (ok processed) = ok tt
outcome (err e) = err e

module _ (crate : UrlCrate) (parse_uuid : Text → Option ℕ) (setup : Setup crate) where
  module _ (r : Round crate) where
    abbrev pub lease_args : LeaseArgs
    lease_args = record {
      now = r.leased_at;
      locked = r.locked;
      owner = setup.owner;
      lease_seconds = setup.lease_seconds;
      lease_token = r.lease_token;
      attempt_id = r.attempt_id;
    }

    abbrev pub crawl : CrawlJob → Result CrawlRunError CrawlCommandOutput
    crawl job = run_crawl_command crate parse_uuid r.os r.requested_at setup.command job

    abbrev pub ingest : CrawlJob → Json → Result IngestApiError Json
    ingest job page = ingest_page crate r.api setup.client job.tenant_id job.source_id page

    abbrev pub record_failure : CrawlJob → Text → Json → World → Result QueueError Bool × World
    record_failure job code details w = finished (fail w.db r.finished_at job code details) w

    -- the job once its page has been crawled
    unfoldable pub hand_over :
        CrawlJob → CrawlCommandOutput → World → Result QueueError Bool × World
    hand_over job output w = elim (ingest job output.page_ingest) [
      | err e ↦ record_failure job e.code (api_diagnostic e) w
      | ok receipt ↦ finished (complete w.db r.finished_at job output.diagnostic receipt) w
    ]

    -- a job that has just been leased
    unfoldable pub work_on : CrawlJob → World → Result QueueError Bool × World
    work_on job w = elim (crawl job) [
      | err e ↦ record_failure job e.code (run_diagnostic e) (r.while_crawling w)
      | ok output ↦ hand_over job output (r.while_posting (r.while_crawling w))
    ]

    -- what follows the lease
    unfoldable pub after_lease :
        World → Result QueueError (Option CrawlJob) × Db → Result QueueError Bool × World
    after_lease w (err e, db) = (err e, record w { db = db })
    after_lease w (ok none, db) = (ok false, record w { db = db })
    after_lease w (ok (some job), db) = work_on job (leased_world w job db)

    -- the queue after the reap of the round
    abbrev pub reaped_world : World → World
    reaped_world w = record w { db = (reap_expired w.db r.reaped_at).1 }

    -- the queue as the lease of the round finds it
    abbrev pub swept : World → World
    swept w = r.before_lease (reaped_world w)

    unfoldable pub process_next : World → Result QueueError Bool × World
    process_next w = after_lease (swept w) (lease (swept w).db lease_args)

    -- a round that is dropped
    unfoldable pub cut_short : Cut → World → World
    cut_short unstarted w = w
    cut_short reaped w = reaped_world w
    cut_short leased w = dropped (swept w) (lease (swept w).db lease_args)
    cut_short recorded w = (process_next w).1

  -- The loop over the turns that the environment offers; the first error ends it.
  unfoldable pub run_worker :
      Bool → List (Turn crate) → World → Result QueueError (Unit {0}) × World
  run_worker once [] w = (ok tt, w)
  run_worker once (shutdown cut r ∷ turns) w = (ok tt, cut_short r cut w)
  run_worker once (round r ∷ turns) w =
      let (result, v) = process_next r w in
      let rest = run_worker once turns v in
      if once || not (is_ok result) then (outcome result, v) else rest

unfoldable pub validate_worker_limits : ℕ → ℕ → ℕ → ℕ → Result Text (Unit {0})
validate_worker_limits idle_seconds crawl_timeout_seconds stdout_limit_bytes stderr_limit_bytes = do
  guard (within 1 300 idle_seconds) (codes "idle_seconds must be between 1 and 300")
  guard (within 5 3_600 crawl_timeout_seconds)
      (codes "crawl_timeout_seconds must be between 5 and 3600")
  guard (within 65_536 67_108_864 stdout_limit_bytes)
      (codes "crawl_stdout_limit_bytes must be between 65536 and 67108864")
  guard (within 4_096 1_048_576 stderr_limit_bytes)
      (codes "crawl_stderr_limit_bytes must be between 4096 and 1048576")
