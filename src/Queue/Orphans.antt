-- ===== src/Queue/Orphans.antt =====
-- What becomes of the attempt of a lease that expired and that `lease` itself gave to another worker,
-- with no `reap_expired` in between.
use eal_sync.Prelude.{
  ℕ, ◌≡◌, ◌≢◌, refl, Bool, true, false, ◌&&◌, [], ◌∷◌, none, some, ◌==◌, All, All-append, any,
  count, keep, arith, is_some_of, Bool-cases, inl, inr,
}
use eal_sync.Prelude.Text.{Text}
use eal_sync.Prelude.Json.{Json}
use eal_sync.Prelude.Result.{ok}
use eal_sync.Prelude.Member.{
  Member, All-update, All-update-All, All-elim, any-Member, any-update, any-append, keep-Member,
  All-intro, Member-any,
}
use eal_sync.Net.Url.{UrlCrate}
use eal_sync.Queue.Tables.{Job, Attempt, Db, CrawlJob, is_leased, is_open_attempt, holds_lease}
use eal_sync.Queue.Seed.{SeedArgs, same_source, new_job, reseed, seed}
use eal_sync.Queue.Lease.{LeaseArgs, grant, new_attempt, lease}
use eal_sync.Queue.Finish.{
  finish, complete, fail, is_expired, is_abandoned, close_abandoned, is_reaped, reschedule_expired,
  reap_expired,
}
use eal_sync.Queue.Rows.{finish_cases, seed_cases, lease_row_cases}
use eal_sync.Queue.Fencing.{count-none}
use eal_sync.Queue.Invariant.{IsConsistent, IsLinked, is_open_under}
use eal_sync.Queue.Invariant.Grants.{lease_cases, lease-IsGranted}
use eal_sync.Queue.Invariant.Steps.{
  World, Step, seeds, leases, leases_unseen, completes, fails, reaps,
}

abbrev is_open_with : ℕ → Attempt → Bool
is_open_with token a = a.lease_token == token && is_leased a.status

-- An attempt is open under `token`, and no job is leased under it.
pub record IsOrphaned (token : ℕ) (db : Db) : Type 0 where
  pub still_open : any (is_open_with token) db.attempts ≡ true
  pub unheld : All (λ j. is_some_of token j.lease_token ≡ false) db.jobs

module _ (token : ℕ) (db : Db) (o : IsOrphaned token db) where
  seed-IsOrphaned :
      (crate : UrlCrate) (now new : ℕ) (args : SeedArgs)
      → IsOrphaned token (seed crate db now new args).1
  seed-IsOrphaned crate now new args =
      seed_cases (IsOrphaned token) crate db now new args o
        (λ url. record {
          still_open = o.still_open;
          unheld =
              All-update _ (same_source args url) (reseed now args) db.jobs (λ j m h _. h) o.unheld;
        })
        (λ url. record {
          still_open = o.still_open;
          unheld = All-append _ db.jobs (new_job now new args url ∷ []) o.unheld (refl, tt);
        })

  lease-IsOrphaned :
      (args : LeaseArgs) → args.lease_token ≢ token → IsOrphaned token (lease db args).1
  lease-IsOrphaned args fresh = lease_cases (IsOrphaned token) db args o λ j found.
      lease_row_cases (IsOrphaned token) db args j o λ _. record {
        still_open = rw (
          any-append (is_open_with token) db.attempts (new_attempt args j.id ∷ []),
          o.still_open,
        );
        unheld =
            All-update _ (λ k. k.id == j.id) (grant args) db.jobs (λ k m h _. ground arith)
              o.unheld;
      }

  -- No job holds the token, so neither way to finish gets past its second statement.
  no_job :
      (job : CrawlJob)
      → job.lease_token ≡ token
      → count (holds_lease job.id job.lease_token) db.jobs ≡ 0
  no_job job same = count-none (holds_lease job.id job.lease_token) db.jobs (
      All-intro _ db.jobs λ j m.
        let h = All-elim (λ (i : Job). is_some_of token i.lease_token ≡ false) db.jobs o.unheld m in
        ground arith)

  finish-IsOrphaned :
      (job : CrawlJob) (close : Attempt → Attempt) (reschedule : Job → Job)
      → ((j : Job) → (reschedule j).lease_token ≡ none)
      → IsOrphaned token (finish db job close reschedule).1
  finish-IsOrphaned job close reschedule released =
      finish_cases (IsOrphaned token) db job close reschedule o λ _ one_job. record {
        still_open =
            any-update (is_open_with token) (is_open_attempt job.attempt_id job.lease_token) close
              db.attempts (λ a m h hit. absurd (omega (arith, one_job, no_job job (ground arith))))
              o.still_open;
        unheld =
            All-update _ (holds_lease job.id job.lease_token) reschedule db.jobs
              (λ j m h _. rw (released j)) o.unheld;
      }

  reap-IsOrphaned : (now : ℕ) → IsOrphaned token (reap_expired db now).1
  unfolding reap_expired
  reap-IsOrphaned now = record {
    still_open =
        any-update (is_open_with token) (is_abandoned (keep (is_expired now) db.jobs))
          (close_abandoned now) db.attempts (λ a m h lost. absurd (unlinked a h lost)) o.still_open;
    unheld =
        All-update (λ (j : Job). is_some_of token j.lease_token ≡ false)
          (is_reaped (keep (is_abandoned (keep (is_expired now) db.jobs)) db.attempts))
          (reschedule_expired now) db.jobs (λ j m h _. refl) o.unheld;
  }
    where
      unlinked :
          (a : Attempt)
          → is_open_with token a ≡ true
          → is_abandoned (keep (is_expired now) db.jobs) a ≡ true
          → ⊥
      unlinked a h lost =
          let (j, in_expired, s) =
            any-Member (λ (x : Job). a.job_id == x.id && is_some_of a.lease_token x.lease_token)
              (keep (is_expired now) db.jobs) (ground arith) in
          let (m, _) = keep-Member (is_expired now) {x = j} db.jobs in_expired in
          let free =
            All-elim (λ (i : Job). is_some_of token i.lease_token ≡ false) db.jobs o.unheld m in
          ground arith

  complete-IsOrphaned :
      (now : ℕ) (job : CrawlJob) (diagnostic receipt : Json)
      → IsOrphaned token (complete db now job diagnostic receipt).1
  unfolding complete
  complete-IsOrphaned now job diagnostic receipt = finish-IsOrphaned job _ _ (λ j. refl)

  fail-IsOrphaned :
      (now : ℕ) (job : CrawlJob) (code : Text) (details : Json)
      → IsOrphaned token (fail db now job code details).1
  unfolding fail
  fail-IsOrphaned now job code details = finish-IsOrphaned job _ _ (λ j. refl)

-- A lease draws a token that is not `token`: UUIDs do not repeat.
abbrev pub Draws : (crate : UrlCrate) → ℕ → {w v : World} → Step crate w v → Type 0
Draws crate token (leases args job e) = args.lease_token ≢ token
Draws crate token (leases_unseen args) = args.lease_token ≢ token
Draws crate token _ = Unit

-- An attempt that is open with no job leased under its token stays so through every step of any
-- worker that does not draw that token again.
pub Step-IsOrphaned :
    (crate : UrlCrate) (token : ℕ) {w v : World} (s : Step crate w v)
    → Draws crate token s
    → IsOrphaned token w.db
    → IsOrphaned token v.db
Step-IsOrphaned crate token {w} (seeds now new args) d o =
    seed-IsOrphaned token w.db o crate now new args
Step-IsOrphaned crate token {w} (leases args job e) d o = lease-IsOrphaned token w.db o args d
Step-IsOrphaned crate token {w} (leases_unseen args) d o = lease-IsOrphaned token w.db o args d
Step-IsOrphaned crate token {w} (completes now job diagnostic receipt m) d o =
    complete-IsOrphaned token w.db o now job diagnostic receipt
Step-IsOrphaned crate token {w} (fails now job code details m) d o =
    fail-IsOrphaned token w.db o now job code details
Step-IsOrphaned crate token {w} (reaps now) d o = reap-IsOrphaned token w.db o now

-- If a lease takes over a row of consistent tables that is leased, and no other job has that row's
-- token, and the new token differs, then the attempt of the old lease is left open with no job
-- leased under its token.
pub lease_orphans :
    (db : Db) (args : LeaseArgs) (job : CrawlJob) (row : Job) (token : ℕ)
    → IsConsistent db
    → Member row db.jobs
    → row.lease_token ≡ some token
    → ((j : Job) → Member j db.jobs → is_some_of token j.lease_token ≡ true → j.id ≡ row.id)
    → (lease db args).0 ≡ ok (some job)
    → job.id ≡ row.id
    → args.lease_token ≢ token
    → IsOrphaned token (lease db args).1
lease_orphans db args job row token k m held only e same fresh =
    let g = lease-IsGranted db args job e in
    let (a, n, h) =
      any-Member (is_open_under row.id token) db.attempts
        (rw held at (All-elim (IsLinked db.attempts) db.jobs k.linked m)) in
    let was_open : any (is_open_with token) db.attempts ≡ true =
      Member-any (is_open_with token) db.attempts n (ground arith) in
    let taken : row.id ≡ g.row.id = ground (arith, g.handed_out) in
    record {
      still_open = rw (
        g.attempts_after,
        any-append (is_open_with token) db.attempts (new_attempt args g.row.id ∷ []),
        was_open,
      );
      unheld = rw g.jobs_after (
          All-update-All (λ (j : Job). is_some_of token j.lease_token ≡ false)
            (λ j. j.id == g.row.id) (grant args) db.jobs (λ j _ _. ground arith)
            (λ j i miss. elim (Bool-cases (is_some_of token j.lease_token)) [
              | inl holds ↦ absurd (ground (arith, only j i holds))
              | inr free ↦ free
            ]));
    }
