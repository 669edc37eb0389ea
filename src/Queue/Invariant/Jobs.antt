-- ===== src/Queue/Invariant/Jobs.antt =====
-- `seed` of runtime-worker/src/queue.rs and the invariant of the tables.
use eal_sync.Prelude.{
  ℕ, ◌≡◌, refl, true, false, [], ◌∷◌, ◌++◌, ◌==◌, All-append, any, arith, find, Bool-cases,
  Option-cases, inl, inr,
}
use eal_sync.Prelude.Int.{within_ℤ}
use eal_sync.Prelude.Text.{Text, codes, starts_with, text_eq}
use eal_sync.Prelude.Result.{ok, Result-cases}
use eal_sync.Prelude.Member.{update, All-update, map-update, Distinct-append}
use eal_sync.Net.Url.{UrlCrate}
use eal_sync.Queue.Tables.{Job, Db}
use eal_sync.Runtime.PublicUrl.{validate_public_https_url, validate-https}
use eal_sync.Queue.Seed.{SeedArgs, same_source, new_job, reseed, upsert, check_seed, seed}
use eal_sync.Queue.Invariant.{IsJobRow, IsConsistent, IsLinked}

-- What `check_seed` has established when it lets the arguments through.
pub record IsChecked (args : SeedArgs) (url : Text) : Type 0 where
  pub interval : within_ℤ 60 2_592_000 args.interval_seconds ≡ true
  pub attempts : within_ℤ 1 100 args.max_attempts ≡ true
  pub https : starts_with (codes "https://") url ≡ true

reseed-IsJobRow :
    (now : ℕ) (args : SeedArgs) (url : Text) (j : Job)
    → IsChecked args url
    → IsJobRow j
    → IsJobRow (reseed now args j)
reseed-IsJobRow now args url j c r = ground arith

new_job-IsJobRow :
    (now id : ℕ) (args : SeedArgs) (url : Text)
    → IsChecked args url
    → IsJobRow (new_job now id args url)
new_job-IsJobRow now id args url c = ground arith

module _ (db : Db) (now id : ℕ) (args : SeedArgs) (url : Text) (c : IsChecked args url)
    (k : IsConsistent db) where
  reseeded-IsConsistent :
      IsConsistent (record db { jobs = update (same_source args url) (reseed now args) db.jobs })
  reseeded-IsConsistent = record {
    job_rows =
        All-update IsJobRow (same_source args url) (reseed now args) db.jobs
          (λ j _ r _. reseed-IsJobRow now args url j c r) k.job_rows;
    attempt_rows = k.attempt_rows;
    job_ids =
        rw
          (map-update (λ (j : Job). j.id) (same_source args url) (reseed now args) db.jobs
            (λ j. refl))
          k.job_ids;
    attempt_ids = k.attempt_ids;
    linked =
        All-update (IsLinked db.attempts) (same_source args url) (reseed now args) db.jobs
          (λ j _ r _. r) k.linked;
  }

  inserted-IsConsistent :
      any (λ j. j.id == id) db.jobs ≡ false
      → IsConsistent (record db { jobs = db.jobs ++ new_job now id args url ∷ [] })
  inserted-IsConsistent fresh = record {
    job_rows =
        All-append IsJobRow db.jobs (new_job now id args url ∷ []) k.job_rows
          (new_job-IsJobRow now id args url c, tt);
    attempt_rows = k.attempt_rows;
    job_ids = Distinct-append (λ (j : Job). j.id) db.jobs (new_job now id args url) k.job_ids fresh;
    attempt_ids = k.attempt_ids;
    linked =
        All-append (IsLinked db.attempts) db.jobs (new_job now id args url ∷ []) k.linked
          (refl, tt);
  }

  upsert-IsConsistent : IsConsistent (upsert db now id args url).1
  unfolding upsert
  upsert-IsConsistent = elim (Option-cases (find (same_source args url) db.jobs)) [
    | inl missing ↦ elim (Bool-cases (any (λ j. j.id == id) db.jobs)) [
      | inl taken ↦ rw (missing, upsert, taken) k
      | inr fresh ↦ rw (missing, upsert, fresh) (inserted-IsConsistent fresh)
    ]
    | inr (j, found) ↦ rw (found, upsert) reseeded-IsConsistent
  ]

-- What the url crate documents of its serialisation: it begins with the scheme, and `https` is a
-- scheme with an authority.
abbrev pub SerializesHttps : UrlCrate → Type 0
SerializesHttps crate =
    (url : crate.Url)
    → text_eq (crate.scheme url) (codes "https") ≡ true
    → starts_with (codes "https://") (crate.as_str url) ≡ true

-- The URL that `check_seed` passes on is the parsed start URL, written out.
checked_url :
    (crate : UrlCrate) (args : SeedArgs) {url : Text}
    → check_seed crate args ≡ ok url
    → (u : crate.Url) × (validate_public_https_url crate args.start_url ≡ ok u)
      × (crate.as_str u ≡ url)
unfolding check_seed
checked_url crate args e = elim (Result-cases (validate_public_https_url crate args.start_url)) [
  | inl (w, refused) ↦ absurd (ground arith)
  | inr (u, valid) ↦ (u, valid, ground arith)
]

module _ (crate : UrlCrate) (serializes : SerializesHttps crate) where
  pub check_seed-IsChecked :
      (args : SeedArgs) {url : Text} → check_seed crate args ≡ ok url → IsChecked args url
  unfolding check_seed
  check_seed-IsChecked args {url} e =
      let (u, valid, same) = checked_url crate args e in
      record {
        interval = ground arith;
        attempts = ground arith;
        https = rw (← same) (serializes u (validate-https crate args.start_url u valid));
      }

  pub seed-IsConsistent :
      (db : Db) (now id : ℕ) (args : SeedArgs)
      → IsConsistent db
      → IsConsistent (seed crate db now id args).1
  unfolding seed
  seed-IsConsistent db now id args k = elim (Result-cases (check_seed crate args)) [
    | inl (e, refused) ↦ rw (refused, seed) k
    | inr (url, checked) ↦
        rw (checked, seed)
          (upsert-IsConsistent db now id args url (check_seed-IsChecked args checked) k)
  ]
