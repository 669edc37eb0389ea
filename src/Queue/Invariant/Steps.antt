-- ===== src/Queue/Invariant/Steps.antt =====
-- Workers that call the queue in any order. `held` is the list of the jobs that leases have handed
-- out; a worker that crashes makes no further call.
use eal_sync.Prelude.{ℕ, ◌≡◌, true, List, [], ◌∷◌, some, All, arith}
use eal_sync.Prelude.Text.{Text}
use eal_sync.Prelude.Json.{Json}
use eal_sync.Prelude.Result.{ok}
use eal_sync.Prelude.Member.{Member, All-elim, All-intro, any-append, any-update}
use eal_sync.Net.Url.{UrlCrate}
use eal_sync.Queue.Tables.{Job, Attempt, Db, CrawlJob}
use eal_sync.Queue.Seed.{SeedArgs, upsert, seed}
use eal_sync.Queue.Lease.{LeaseArgs, new_attempt, lease_row, lease}
use eal_sync.Queue.Finish.{finish, complete, fail, reap_expired}
use eal_sync.Queue.Rows.{finish_cases}
use eal_sync.Queue.Invariant.{IsConsistent, IsGenuine, records}
use eal_sync.Queue.Invariant.Jobs.{SerializesHttps, seed-IsConsistent}
use eal_sync.Queue.Invariant.Grants.{lease_cases, lease-IsGranted, lease-IsConsistent}
use eal_sync.Queue.Invariant.Closing.{complete-IsConsistent, fail-IsConsistent}
use eal_sync.Queue.Invariant.Reaping.{reap-IsConsistent}
use eal_sync.Queue.Invariant.Keys.{
  IsKeyed, seed-IsKeyed, lease-IsKeyed, complete-IsKeyed, fail-IsKeyed, reap-IsKeyed,
}

pub record World : Type 0 where
  pub db : Db
  pub held : List CrawlJob

-- One transaction of any worker or operator.
pub data Step (crate : UrlCrate) (w : World) : World → Type 0 where
  seeds :
      (now id : ℕ) (args : SeedArgs)
      → Step crate w (record w { db = (seed crate w.db now id args).1 })
  leases :
      (args : LeaseArgs) (job : CrawlJob)
      → (lease w.db args).0 ≡ ok (some job)
      → Step crate w (record { db = (lease w.db args).1; held = job ∷ w.held })
  -- a lease that fails or finds nothing, or whose worker crashes before it has the result
  leases_unseen : (args : LeaseArgs) → Step crate w (record w { db = (lease w.db args).1 })
  completes :
      (now : ℕ) (job : CrawlJob) (diagnostic receipt : Json)
      → Member job w.held
      → Step crate w (record w { db = (complete w.db now job diagnostic receipt).1 })
  fails :
      (now : ℕ) (job : CrawlJob) (code : Text) (details : Json)
      → Member job w.held
      → Step crate w (record w { db = (fail w.db now job code details).1 })
  reaps : (now : ℕ) → Step crate w (record w { db = (reap_expired w.db now).1 })

pub data Reach (crate : UrlCrate) (w : World) : World → Type 0 where
  here : Reach crate w w
  next : {u v : World} → Reach crate w u → Step crate u v → Reach crate w v

pub Reach-trans :
    (crate : UrlCrate) {u v w : World} → Reach crate u v → Reach crate v w → Reach crate u w
Reach-trans crate r here = r
Reach-trans crate r (next s t) = next (Reach-trans crate r s) t

abbrev pub initial : World
initial = record { db = record { jobs = []; attempts = [] }; held = [] }

pub record Inv (w : World) : Type 0 where
  pub consistent : IsConsistent w.db
  pub genuine : All (IsGenuine w.db.attempts) w.held

-- The attempts of a table stay on record.
Keeps : Db → Db → Type 0
Keeps db after = (job : CrawlJob) → IsGenuine db.attempts job → IsGenuine after.attempts job

module _ (crate : UrlCrate) (db : Db) where
  seed-Keeps : (now id : ℕ) (args : SeedArgs) → Keeps db (seed crate db now id args).1
  unfolding Keeps seed upsert
  seed-Keeps now id args job g = ground arith

  lease-Keeps : (args : LeaseArgs) → Keeps db (lease db args).1
  unfolding Keeps lease_row
  lease-Keeps args job g =
      lease_cases (λ d. IsGenuine d.attempts job) db args g
        λ j found. ground (arith, any-append (records job) db.attempts (new_attempt args j.id ∷ []))

  finish-Keeps :
      (job : CrawlJob) (close : Attempt → Attempt) (reschedule : Job → Job)
      → ((i : CrawlJob) (a : Attempt) → records i a ≡ true → records i (close a) ≡ true)
      → Keeps db (finish db job close reschedule).1
  unfolding Keeps
  finish-Keeps job close reschedule same i g =
      finish_cases (λ d. IsGenuine d.attempts i) db job close reschedule g
        λ _ _. any-update (records i) _ close db.attempts (λ a _ r _. same i a r) g

  complete-Keeps :
      (now : ℕ) (job : CrawlJob) (diagnostic receipt : Json)
      → Keeps db (complete db now job diagnostic receipt).1
  unfolding complete
  complete-Keeps now job diagnostic receipt = finish-Keeps job _ _ λ i a r. r

  fail-Keeps :
      (now : ℕ) (job : CrawlJob) (code : Text) (details : Json)
      → Keeps db (fail db now job code details).1
  unfolding fail
  fail-Keeps now job code details = finish-Keeps job _ _ λ i a r. r

  reap-Keeps : (now : ℕ) → Keeps db (reap_expired db now).1
  unfolding Keeps reap_expired
  reap-Keeps now job g = any-update (records job) _ _ db.attempts (λ a _ r _. r) g

-- What a lease hands out is on record.
leased-IsGenuine :
    (db : Db) (args : LeaseArgs) (job : CrawlJob)
    → (lease db args).0 ≡ ok (some job)
    → IsGenuine (lease db args).1.attempts job
leased-IsGenuine db args job e =
    let g = lease-IsGranted db args job e in
    rw (g.attempts_after, any-append (records job) db.attempts (new_attempt args g.row.id ∷ []))
      (ground (arith, g.handed_out))

module _ (crate : UrlCrate) (serializes : SerializesHttps crate) where
  All-Keeps :
      (db after : Db) (jobs : List CrawlJob)
      → Keeps db after
      → All (IsGenuine db.attempts) jobs
      → All (IsGenuine after.attempts) jobs
  unfolding Keeps
  All-Keeps db after jobs keeps g =
      All-intro _ jobs λ job m. keeps job (All-elim (IsGenuine db.attempts) jobs g m)

  pub Step-Inv : {w v : World} → Step crate w v → Inv w → Inv v
  Step-Inv {w} (seeds now id args) i = record {
    consistent = seed-IsConsistent crate serializes w.db now id args i.consistent;
    genuine = All-Keeps _ _ w.held (seed-Keeps crate w.db now id args) i.genuine;
  }
  Step-Inv {w} (leases args job e) i = record {
    consistent = lease-IsConsistent w.db args i.consistent;
    genuine = (
      leased-IsGenuine w.db args job e,
      All-Keeps _ _ w.held (lease-Keeps crate w.db args) i.genuine,
    );
  }
  Step-Inv {w} (leases_unseen args) i = record {
    consistent = lease-IsConsistent w.db args i.consistent;
    genuine = All-Keeps _ _ w.held (lease-Keeps crate w.db args) i.genuine;
  }
  Step-Inv {w} (completes now job diagnostic receipt m) i = record {
    consistent =
        complete-IsConsistent w.db job i.consistent
          (All-elim (IsGenuine w.db.attempts) w.held i.genuine m) now diagnostic receipt;
    genuine = All-Keeps _ _ w.held (complete-Keeps crate w.db now job diagnostic receipt) i.genuine;
  }
  Step-Inv {w} (fails now job code details m) i = record {
    consistent =
        fail-IsConsistent w.db job i.consistent
          (All-elim (IsGenuine w.db.attempts) w.held i.genuine m) now code details;
    genuine = All-Keeps _ _ w.held (fail-Keeps crate w.db now job code details) i.genuine;
  }
  Step-Inv {w} (reaps now) i = record {
    consistent = reap-IsConsistent w.db now i.consistent;
    genuine = All-Keeps _ _ w.held (reap-Keeps crate w.db now) i.genuine;
  }

  Step-IsKeyed : {w v : World} → Step crate w v → IsKeyed w.db → IsKeyed v.db
  Step-IsKeyed {w} (seeds now id args) k = seed-IsKeyed crate w.db now id args k
  Step-IsKeyed {w} (leases args job e) k = lease-IsKeyed w.db args k
  Step-IsKeyed {w} (leases_unseen args) k = lease-IsKeyed w.db args k
  Step-IsKeyed {w} (completes now job diagnostic receipt m) k =
      complete-IsKeyed w.db now job diagnostic receipt k
  Step-IsKeyed {w} (fails now job code details m) k = fail-IsKeyed w.db now job code details k
  Step-IsKeyed {w} (reaps now) k = reap-IsKeyed w.db now k

  -- In every world that workers and operators reach from empty tables, by transactions in any
  -- order, the tables satisfy the CHECK constraints of the migration, no two jobs or attempts have one
  -- id, no two jobs the same tenant, source and URL, no two attempts the same job and token, and each
  -- attempt is for a job of the table. Each leased job has an open attempt under its token, and each
  -- job that was handed out has its attempt on record. The url crate is taken to write an https URL
  -- with its scheme first.
  pub Reach-Inv : {w : World} → Reach crate initial w → Inv w × IsKeyed w.db
  Reach-Inv here = (
    record {
      consistent = record {
        job_rows = tt;
        attempt_rows = tt;
        job_ids = tt;
        attempt_ids = tt;
        linked = tt;
      };
      genuine = tt;
    },
    record { pages = tt; leases = tt; references = tt },
  )
  Reach-Inv (next r s) = let (i, k) = Reach-Inv r in (Step-Inv s i, Step-IsKeyed s k)
