-- ===== src/Queue/Rows.antt =====
-- What a transaction on the queue can leave behind.
use eal_sync.Prelude.{
  ℕ, ◌≡◌, false, [], ◌∷◌, ◌++◌, count, any, find, ◌==◌, arith, Bool-cases, Option-cases, inl, inr,
}
use eal_sync.Prelude.Text.{Text}
use eal_sync.Prelude.Result.{Result-cases}
use eal_sync.Prelude.Member.{update}
use eal_sync.Net.Url.{UrlCrate}
use eal_sync.Queue.Tables.{Job, Attempt, Db, CrawlJob, is_open_attempt, holds_lease}
use eal_sync.Queue.Seed.{SeedArgs, same_source, new_job, reseed, upsert, check_seed, seed}
use eal_sync.Queue.Lease.{LeaseArgs, grant, new_attempt, conflicts, lease_row}
use eal_sync.Queue.Finish.{finish}

-- `finish` either fails and changes nothing, or updates both tables.
pub finish_cases {ℓ} :
    (P : Db → Type ℓ) (db : Db) (job : CrawlJob) (close : Attempt → Attempt)
    (reschedule : Job → Job)
    → P db
    → (count (is_open_attempt job.attempt_id job.lease_token) db.attempts ≡ 1
        → count (holds_lease job.id job.lease_token) db.jobs ≡ 1
        → P (record {
          jobs = update (holds_lease job.id job.lease_token) reschedule db.jobs;
          attempts = update (is_open_attempt job.attempt_id job.lease_token) close db.attempts;
        }))
    → P (finish db job close reschedule).1
unfolding finish
finish_cases P db job close reschedule failed done = ground arith

-- The ways in which `seed` ends.
pub seed_cases {ℓ} :
    (P : Db → Type ℓ) (crate : UrlCrate) (db : Db) (now id : ℕ) (args : SeedArgs)
    → P db
    → ((url : Text)
        → P (record db { jobs = update (same_source args url) (reseed now args) db.jobs }))
    → ((url : Text) → P (record db { jobs = db.jobs ++ new_job now id args url ∷ [] }))
    → P (seed crate db now id args).1
unfolding seed upsert
seed_cases P crate db now id args same updated inserted =
    elim (Result-cases (check_seed crate args)) [
      | inl (e, refused) ↦ rw (refused, seed) same
      | inr (url, checked) ↦ elim (Option-cases (find (same_source args url) db.jobs)) [
        | inl missing ↦ elim (Bool-cases (any (λ j. j.id == id) db.jobs)) [
          | inl taken ↦ rw (checked, seed, missing, upsert, taken) same
          | inr fresh ↦ rw (checked, seed, missing, upsert, fresh) (inserted url)
        ]
        | inr (j, found) ↦ rw (checked, seed, found, upsert) (updated url)
      ]
    ]

-- The ways in which the statements of `lease` on one row end.
pub lease_row_cases {ℓ} :
    (P : Db → Type ℓ) (db : Db) (args : LeaseArgs) (j : Job)
    → P db
    → (any (conflicts args j.id) db.attempts ≡ false
        → P (record {
          jobs = update (λ k. k.id == j.id) (grant args) db.jobs;
          attempts = db.attempts ++ new_attempt args j.id ∷ [];
        }))
    → P (lease_row db args j).1
unfolding lease_row
lease_row_cases P db args j same granted =
    elim (Bool-cases (any (conflicts args j.id) db.attempts)) [
      | inl taken ↦ rw (taken, lease_row) same
      | inr fresh ↦ rw (fresh, lease_row) (granted fresh)
    ]
