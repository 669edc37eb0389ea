-- ===== src/Queue/Holding.antt =====
-- How long a lease of runtime-worker/src/queue.rs stays with its worker.
use mathlib.Core.Bool.{false≢true}
use eal_sync.Prelude.{
  ℕ, ◌+◌, ◌≤◌, ◌≡◌, ◌≢◌, sym, subst, Bool, true, false, ◌&&◌, [], ◌∷◌, some, ◌==◌, ==_iff, ==_refl,
  any, arith, is_some_of, ◌∙◌,
}
use eal_sync.Prelude.Result.{ok}
use eal_sync.Prelude.Member.{
  Member, any-Member, any-update, any-append, Member-any, Member-update, Distinct-Member,
}
use eal_sync.Prelude.Text.{Text}
use eal_sync.Prelude.Json.{Json}
use eal_sync.Net.Url.{UrlCrate}
use eal_sync.Queue.Tables.{Job, Attempt, Db, CrawlJob, holds_lease, seconds}
use eal_sync.Queue.Seed.{SeedArgs, same_source, new_job, reseed, seed}
use eal_sync.Queue.Lease.{is_ready, LeaseArgs, grant, lease_row, lease}
use eal_sync.Queue.Finish.{finish, complete, fail, is_expired, reap_expired, reschedule_expired}
use eal_sync.Queue.Rows.{finish_cases, seed_cases, lease_row_cases}
use eal_sync.Prelude.Int.{pos_part}
use eal_sync.Queue.Leasing.{lease-IsNext}
use eal_sync.Queue.Invariant.{IsConsistent}
use eal_sync.Queue.Invariant.Grants.{candidate-ready, lease_cases, lease-IsGranted}
use eal_sync.Queue.Invariant.Reaping.{reap_jobs}
use eal_sync.Queue.Invariant.Steps.{
  World, Step, seeds, leases, leases_unseen, completes, fails, reaps, Inv,
}

-- the row `id` is leased under `token` until `expiry`
abbrev pub is_held : ℕ → ℕ → ℕ → Job → Bool
is_held id token expiry j =
    j.id == id && is_some_of token j.lease_token && is_some_of expiry j.lease_expires_at

abbrev pub IsHeld : ℕ → ℕ → ℕ → Db → Type 0
IsHeld id token expiry db = any (is_held id token expiry) db.jobs ≡ true

module _ (id token expiry : ℕ) (db : Db) (held : IsHeld id token expiry db) where
  seed-IsHeld :
      (crate : UrlCrate) (now new : ℕ) (args : SeedArgs)
      → IsHeld id token expiry (seed crate db now new args).1
  seed-IsHeld crate now new args =
      seed_cases (IsHeld id token expiry) crate db now new args held
        (λ url.
          any-update (is_held id token expiry) (same_source args url) (reseed now args) db.jobs
            (λ j m h _. h) held)
        (λ url.
          rw (any-append (is_held id token expiry) db.jobs (new_job now new args url ∷ []), held))

  -- A row under a live lease is not ready.
  not_ready :
      (now : ℕ) (j : Job) → is_held id token expiry j ≡ true → now ≤ expiry → is_ready now j ≡ false
  unfolding is_ready
  not_ready now j h early = ground arith

  lease_row-IsHeld :
      (args : LeaseArgs) (j : Job)
      → IsConsistent db
      → Member j db.jobs
      → is_ready args.now j ≡ true
      → args.now ≤ expiry
      → IsHeld id token expiry (lease_row db args j).1
  lease_row-IsHeld args j k m r early = lease_row_cases (IsHeld id token expiry) db args j held λ _.
      any-update (is_held id token expiry) (λ i. i.id == j.id) (grant args) db.jobs
        (λ i n h hit.
          let same : i ≡ j =
            Distinct-Member (λ (x : Job). x.id) db.jobs k.job_ids n m ((==_iff i.id j.id).0 hit) in
          absurd (
            false≢true (
              sym (not_ready args.now i h early)
              ∙ subst (λ x. is_ready args.now x ≡ true) (sym same) r)))
        held

  lease-IsHeld :
      (args : LeaseArgs)
      → IsConsistent db
      → args.now ≤ expiry
      → IsHeld id token expiry (lease db args).1
  lease-IsHeld args k early = lease_cases (IsHeld id token expiry) db args held λ j found.
      let (m, ready, _) = candidate-ready args.locked args.now db.jobs found in
      lease_row-IsHeld args j k m ready early

  finish-IsHeld :
      (job : CrawlJob) (close : Attempt → Attempt) (reschedule : Job → Job)
      → job.lease_token ≢ token
      → IsHeld id token expiry (finish db job close reschedule).1
  finish-IsHeld job close reschedule other =
      finish_cases (IsHeld id token expiry) db job close reschedule held λ _ _.
        any-update (is_held id token expiry) (holds_lease job.id job.lease_token) reschedule db.jobs
          (λ j m h hit. absurd (other (ground arith))) held

  reap-IsHeld :
      (now : ℕ) → IsConsistent db → now ≤ expiry → IsHeld id token expiry (reap_expired db now).1
  reap-IsHeld now k early = rw ((reap_jobs db now k).0) (
      any-update (is_held id token expiry) (is_expired now) (reschedule_expired now) db.jobs
        (λ j m h hit. absurd (ground arith)) held)

  complete-IsHeld :
      (now : ℕ) (job : CrawlJob) (diagnostic receipt : Json)
      → job.lease_token ≢ token
      → IsHeld id token expiry (complete db now job diagnostic receipt).1
  unfolding complete
  complete-IsHeld now job diagnostic receipt other = finish-IsHeld job _ _ other

  fail-IsHeld :
      (now : ℕ) (job : CrawlJob) (code : Text) (details : Json)
      → job.lease_token ≢ token
      → IsHeld id token expiry (fail db now job code details).1
  unfolding fail
  fail-IsHeld now job code details other = finish-IsHeld job _ _ other

-- A step that comes no later than `expiry` and is no end of the lease under `token`.
abbrev pub Spares : (crate : UrlCrate) → ℕ → ℕ → {w v : World} → Step crate w v → Type 0
Spares crate token expiry (seeds now id args) = Unit
Spares crate token expiry (leases args job e) = args.now ≤ expiry
Spares crate token expiry (leases_unseen args) = args.now ≤ expiry
Spares crate token expiry (completes now job diagnostic receipt m) = job.lease_token ≢ token
Spares crate token expiry (fails now job code details m) = job.lease_token ≢ token
Spares crate token expiry (reaps now) = now ≤ expiry

-- In a world where the invariant holds, a job stays leased under its token, with its expiry,
-- through every step of any worker that comes no later than the expiry and does not finish a job
-- under that token.
pub Step-IsHeld :
    (crate : UrlCrate) (id token expiry : ℕ) {w v : World} (s : Step crate w v)
    → Inv w
    → Spares crate token expiry s
    → IsHeld id token expiry w.db
    → IsHeld id token expiry v.db
Step-IsHeld crate id token expiry {w} (seeds now new args) i s h =
    seed-IsHeld id token expiry w.db h crate now new args
Step-IsHeld crate id token expiry {w} (leases args job e) i s h =
    lease-IsHeld id token expiry w.db h args i.consistent s
Step-IsHeld crate id token expiry {w} (leases_unseen args) i s h =
    lease-IsHeld id token expiry w.db h args i.consistent s
Step-IsHeld crate id token expiry {w} (completes now job diagnostic receipt m) i s h =
    complete-IsHeld id token expiry w.db h now job diagnostic receipt s
Step-IsHeld crate id token expiry {w} (fails now job code details m) i s h =
    fail-IsHeld id token expiry w.db h now job code details s
Step-IsHeld crate id token expiry {w} (reaps now) i s h =
    reap-IsHeld id token expiry w.db h now i.consistent s

-- After a lease that succeeds, the job is leased under the new token until the seconds that were
-- asked for have passed.
lease-IsHeld_new :
    (db : Db) (args : LeaseArgs) (job : CrawlJob)
    → (lease db args).0 ≡ ok (some job)
    → IsHeld job.id args.lease_token
        (args.now + seconds (pos_part args.lease_seconds))
        (lease db args).1
lease-IsHeld_new db args job e =
    let g = lease-IsGranted db args job e in
    let (m, _, _) = candidate-ready args.locked args.now db.jobs g.is_candidate in
    rw g.jobs_after (
      Member-any
        (is_held job.id args.lease_token (args.now + seconds (pos_part args.lease_seconds)))
        {x = grant args g.row} _
        (Member-update (λ k. k.id == g.row.id) (grant args) db.jobs m (==_refl g.row.id))
        (ground (arith, g.handed_out)))

-- While a job of consistent tables is leased until `expiry`, no lease made by then hands it out
-- again.
pub lease-excludes :
    (id token expiry : ℕ) (db : Db) (args : LeaseArgs) (job : CrawlJob)
    → IsConsistent db
    → IsHeld id token expiry db
    → args.now ≤ expiry
    → (lease db args).0 ≡ ok (some job)
    → job.id ≢ id
lease-excludes id token expiry db args job k held early e same =
    let n = lease-IsNext db args job e in
    let (j, m, h) = any-Member (is_held id token expiry) db.jobs held in
    let one : j ≡ n.row =
      Distinct-Member (λ (x : Job). x.id) db.jobs k.job_ids m n.listed
        (ground (arith, n.same_id)) in
    false≢true (
      sym (not_ready id token expiry db held args.now j h early)
      ∙ subst (λ x. is_ready args.now x ≡ true) (sym one) n.ready)
