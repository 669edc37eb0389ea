-- ===== src/Queue/Board.antt =====
-- What the queue of runtime-worker/src/queue.rs promises, job by job, without its tables: a job is unknown,
-- waits, or is leased under a token until a time.
pub mod Refines
use eal_sync.Prelude.{
  ℕ, ◌≡◌, true, false, Bool, List, [], ◌∷◌, Option, none, some, ◌==◌, find, ltb, is_none,
}
use eal_sync.Prelude.Member.{Member}
use eal_sync.Queue.Tables.{Job, Db, CrawlJob}

pub data JobState : Type 0 where
  unknown : JobState
  waiting : JobState
  leased_until : (token expiry : ℕ) → JobState

-- One transaction seen from one job, where `held` are the jobs that leases have handed out and `now` is
-- the time of the transaction.
pub data Move (held : List CrawlJob) (now id : ℕ) : JobState → JobState → Type 0 where
  stays : (s : JobState) → Move held now id s s
  -- a seed makes it known
  seeded : Move held now id unknown waiting
  -- a lease takes a job that waits
  granted : (token expiry : ℕ) → Move held now id waiting (leased_until token expiry)
  -- a lease takes over a job whose lease is past
  taken_over :
      (old_token old_expiry token expiry : ℕ)
      → ltb old_expiry now ≡ true
      → Move held now id (leased_until old_token old_expiry) (leased_until token expiry)
  -- the holder of the lease completes the job or gives it up
  finished :
      (job : CrawlJob) (expiry : ℕ)
      → Member job held
      → job.id ≡ id
      → Move held now id (leased_until job.lease_token expiry) waiting
  -- the reaper frees a job whose lease is past
  expired :
      (token expiry : ℕ)
      → ltb expiry now ≡ true
      → Move held now id (leased_until token expiry) waiting

-- the lease columns of a row, which are set and cleared together
abbrev pub state_of_lease : Option ℕ → Option ℕ → JobState
state_of_lease (some token) (some expiry) = leased_until token expiry
state_of_lease _ _ = waiting

abbrev pub state_of : Job → JobState
state_of j = state_of_lease j.lease_token j.lease_expires_at

abbrev pub state_of_row : Option Job → JobState
state_of_row none = unknown
state_of_row (some j) = state_of j

-- the abstraction: the state of a job in the tables
abbrev pub job_state : ℕ → Db → JobState
job_state id db = state_of_row (find (λ j. j.id == id) db.jobs)
