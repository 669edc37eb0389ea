-- ===== src/Runtime/Main.antt =====
-- `main` of runtime-worker/src/main.rs: what each action does to the queue. Parsing the command line,
-- logging and the connection to the database are left out.
pub mod Laws
use eal_sync.Prelude.{ℕ, Bool, List, Option, none, some}
use eal_sync.Prelude.Text.{Text}
use eal_sync.Prelude.Int.{ℤ}
use eal_sync.Prelude.Result.{Result, ok, err, map_err, ◌>>=◌, ◌>>◌}
use eal_sync.Net.Url.{UrlCrate}
use eal_sync.Queue.Tables.{QueueError}
use eal_sync.Queue.Seed.{SeedArgs, seed}
use eal_sync.Queue.Finish.{reap_expired}
use eal_sync.Queue.Invariant.Steps.{World}
use eal_sync.Runtime.Command.{CrawlCommandConfig}
use eal_sync.Runtime.Api.{ClientBuilder, Options, IngestApiClient, IngestApiError, new_client}
use eal_sync.Runtime.Owner.{default_owner}
use eal_sync.Runtime.Worker.{Setup, Turn, run_worker, validate_worker_limits}

pub record WorkerArgs : Type 0 where
  pub crawl_command : Text
  pub owner : Option Text
  pub lease_seconds : ℤ
  pub idle_seconds : ℕ
  pub crawl_timeout_seconds : ℕ
  pub crawl_stdout_limit_bytes : ℕ
  pub crawl_stderr_limit_bytes : ℕ
  pub once : Bool

pub data Action : Type 0 where
  migrate : Action
  seed_source : SeedArgs → Action
  worker : WorkerArgs → Action
  reap : Action

-- `anyhow::Error`, by what it comes from
pub data MainError : Type 0 where
  queue_error : QueueError → MainError
  limits_error : Text → MainError
  api_error : IngestApiError → MainError

-- the time, the names and the fresh identifiers of one process
pub record Ambient : Type 0 where
  pub now : ℕ
  pub fresh_id : ℕ
  pub hostname : Option Text
  pub process_id : Text
  pub uuid : Text

abbrev or_text : Option Text → Text → Text
or_text none default = default
or_text (some value) default = value

abbrev command_of : WorkerArgs → CrawlCommandConfig
command_of args = record {
  executable = args.crawl_command;
  timeout_seconds = args.crawl_timeout_seconds;
  stdout_limit_bytes = args.crawl_stdout_limit_bytes;
  stderr_limit_bytes = args.crawl_stderr_limit_bytes;
}

module _ (crate : UrlCrate) (builder : ClientBuilder crate) (parse_uuid : Text → Option ℕ)
    (options : Options) (ambient : Ambient) where
  -- the checks and the client, before the loop of a worker
  unfoldable pub prepare_worker : WorkerArgs → Result MainError (IngestApiClient crate)
  prepare_worker args =
      map_err limits_error (
        validate_worker_limits args.idle_seconds args.crawl_timeout_seconds
          args.crawl_stdout_limit_bytes args.crawl_stderr_limit_bytes)
      >> map_err api_error (new_client crate builder options)

  abbrev after_worker : Result QueueError (Unit {0}) × World → Result MainError (Option ℕ) × World
  after_worker (result, w) = (map_err queue_error result >> ok none, w)

  -- what a worker that has its client runs with
  abbrev pub setup_of : WorkerArgs → IngestApiClient crate → Setup crate
  setup_of args client = record {
    client = client;
    command = command_of args;
    owner = or_text args.owner (default_owner ambient.hostname ambient.process_id ambient.uuid);
    lease_seconds = args.lease_seconds;
  }

  -- the result is the number that is printed or logged; the turns are what the environment offers a worker
  unfoldable pub main : List (Turn crate) → Action → World → Result MainError (Option ℕ) × World
  main turns migrate w = (ok none, w)
  main turns (seed_source args) w =
      let (result, db) = seed crate w.db ambient.now ambient.fresh_id args in
      (map_err queue_error result >>= λ id. ok (some id), record w { db = db })
  main turns reap w =
      let (count, db) = reap_expired w.db ambient.now in (ok (some count), record w { db = db })
  main turns (worker args) w = elim (prepare_worker args) [
    | err e ↦ (err e, w)
    | ok client ↦
        after_worker (run_worker crate parse_uuid (setup_of args client) args.once turns w)
  ]
