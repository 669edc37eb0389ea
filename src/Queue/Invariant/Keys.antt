-- ===== src/Queue/Invariant/Keys.antt =====
-- The unique keys and the foreign key of runtime-worker/migrations/001_runtime.sql, and the operations of
-- runtime-worker/src/queue.rs.
use eal_sync.Prelude.{
  ℕ, ◌≡◌, refl, Bool, true, false, ◌&&◌, List, [], ◌∷◌, none, ◌==◌, ==_refl, All, All-append, find,
  keep, any, arith, Bool-cases, Option-cases, inl, inr,
}
use eal_sync.Prelude.Text.{Text, text_eq}
use eal_sync.Prelude.Json.{Json}
use eal_sync.Prelude.Result.{Result-cases}
use eal_sync.Prelude.Member.{
  update, All-elim, All-intro, All-update, Member-any, any-append, any-update, any-false_mono,
}
use eal_sync.Prelude.Keys.{IsUnique, update-IsUnique, append-IsUnique}
use eal_sync.Net.Url.{UrlCrate}
use eal_sync.Queue.Tables.{Job, Attempt, Db, CrawlJob}
use eal_sync.Queue.Seed.{SeedArgs, same_source, new_job, reseed, upsert, check_seed, seed}
use eal_sync.Queue.Lease.{LeaseArgs, grant, new_attempt, conflicts, lease}
use eal_sync.Queue.Finish.{
  finish, complete, fail, is_expired, is_abandoned, is_reaped, close_abandoned, reschedule_expired,
  reap_expired,
}
use eal_sync.Queue.Rows.{finish_cases, lease_row_cases}
use eal_sync.Queue.Invariant.Grants.{candidate-ready, lease_cases}

-- UNIQUE (tenant_id, source_id, start_url)
abbrev pub same_page : Job → Job → Bool
same_page i j =
    i.tenant_id == j.tenant_id && i.source_id == j.source_id && text_eq i.start_url j.start_url

-- UNIQUE (job_id, lease_token)
abbrev pub same_lease : Attempt → Attempt → Bool
same_lease a b = a.job_id == b.job_id && a.lease_token == b.lease_token

-- job_id REFERENCES eal_crawl_jobs(id)
abbrev pub HasJob : List Job → Attempt → Type 0
HasJob jobs a = any (λ j. j.id == a.job_id) jobs ≡ true

pub record IsKeyed (db : Db) : Type 0 where
  pub pages : IsUnique same_page db.jobs
  pub leases : IsUnique same_lease db.attempts
  pub references : All (HasJob db.jobs) db.attempts

text_eq_sym : (s t : Text) → text_eq s t ≡ text_eq t s
unfolding text_eq
text_eq_sym [] [] = refl
text_eq_sym [] (b ∷ t) = refl
text_eq_sym (a ∷ s) [] = refl
text_eq_sym (a ∷ s) (b ∷ t) = ground (arith, text_eq_sym s t)

same_page_sym : (i j : Job) → same_page i j ≡ same_page j i
same_page_sym i j = ground (arith, text_eq_sym i.start_url j.start_url)

same_lease_sym : (a b : Attempt) → same_lease a b ≡ same_lease b a
same_lease_sym a b = ground arith

-- An update of the jobs leaves what refers to them with its job.
HasJob-update :
    (test : Job → Bool) (set : Job → Job) (jobs : List Job) (attempts : List Attempt)
    → ((j : Job) → (set j).id ≡ j.id)
    → All (HasJob jobs) attempts
    → All (HasJob (update test set jobs)) attempts
HasJob-update test set jobs attempts same h = All-intro _ attempts λ a m.
    any-update (λ j. j.id == a.job_id) test set jobs (λ j _ hit _. rw (same j) hit)
      (All-elim (HasJob jobs) attempts h m)

-- An update of both tables that leaves their keys alone.
update-IsKeyed :
    (db : Db) (this : Job → Bool) (set : Job → Job) (that : Attempt → Bool)
    (close : Attempt → Attempt)
    → ((j : Job)
        → ((set j).id ≡ j.id)
          × ((set j).tenant_id ≡ j.tenant_id)
          × ((set j).source_id ≡ j.source_id)
          × ((set j).start_url ≡ j.start_url))
    → ((a : Attempt) → ((close a).job_id ≡ a.job_id) × ((close a).lease_token ≡ a.lease_token))
    → IsKeyed db
    → IsKeyed (record { jobs = update this set db.jobs; attempts = update that close db.attempts })
update-IsKeyed db this set that close job_keys attempt_keys k = record {
  pages =
      update-IsUnique same_page this set (λ i j. let (_, t, s, u) = job_keys i in rw (t, s, u) refl)
        (λ i j. let (_, t, s, u) = job_keys j in rw (t, s, u) refl) db.jobs k.pages;
  leases =
      update-IsUnique same_lease that close (λ a b. let (j, t) = attempt_keys a in rw (j, t) refl)
        (λ a b. let (j, t) = attempt_keys b in rw (j, t) refl) db.attempts k.leases;
  references =
      All-update (HasJob (update this set db.jobs)) that close db.attempts
        (λ a _ h _. let (j, _) = attempt_keys a in rw j h)
        (HasJob-update this set db.jobs db.attempts (λ j. (job_keys j).0) k.references);
}

finish-IsKeyed :
    (db : Db) (job : CrawlJob) (close : Attempt → Attempt) (reschedule : Job → Job)
    → ((j : Job)
        → ((reschedule j).id ≡ j.id)
          × ((reschedule j).tenant_id ≡ j.tenant_id)
          × ((reschedule j).source_id ≡ j.source_id)
          × ((reschedule j).start_url ≡ j.start_url))
    → ((a : Attempt) → ((close a).job_id ≡ a.job_id) × ((close a).lease_token ≡ a.lease_token))
    → IsKeyed db
    → IsKeyed (finish db job close reschedule).1
finish-IsKeyed db job close reschedule job_keys attempt_keys k =
    finish_cases IsKeyed db job close reschedule k
      λ _ _. update-IsKeyed db _ reschedule _ close job_keys attempt_keys k

pub complete-IsKeyed :
    (db : Db) (now : ℕ) (job : CrawlJob) (diagnostic receipt : Json)
    → IsKeyed db
    → IsKeyed (complete db now job diagnostic receipt).1
unfolding complete
complete-IsKeyed db now job diagnostic receipt =
    finish-IsKeyed db job _ _ (λ j. (refl, refl, refl, refl)) (λ a. (refl, refl))

pub fail-IsKeyed :
    (db : Db) (now : ℕ) (job : CrawlJob) (code : Text) (details : Json)
    → IsKeyed db
    → IsKeyed (fail db now job code details).1
unfolding fail
fail-IsKeyed db now job code details =
    finish-IsKeyed db job _ _ (λ j. (refl, refl, refl, refl)) (λ a. (refl, refl))

pub reap-IsKeyed : (db : Db) (now : ℕ) → IsKeyed db → IsKeyed (reap_expired db now).1
unfolding reap_expired
reap-IsKeyed db now =
    let expired = keep (is_expired now) db.jobs in
    update-IsKeyed db (is_reaped (keep (is_abandoned expired) db.attempts)) (reschedule_expired now)
      (is_abandoned expired) (close_abandoned now) (λ j. (refl, refl, refl, refl))
      (λ a. (refl, refl))

pub lease-IsKeyed : (db : Db) (args : LeaseArgs) → IsKeyed db → IsKeyed (lease db args).1
lease-IsKeyed db args k = lease_cases IsKeyed db args k λ j found.
    let (m, _, _) = candidate-ready args.locked args.now db.jobs found in
    let known : any (λ i. i.id == j.id) db.jobs ≡ true =
      Member-any (λ i. i.id == j.id) db.jobs m (==_refl j.id) in
    lease_row_cases IsKeyed db args j k λ fresh. record {
      pages =
          update-IsUnique same_page (λ i. i.id == j.id) (grant args) (λ i h. refl) (λ i h. refl)
            db.jobs k.pages;
      leases =
          append-IsUnique same_lease same_lease_sym db.attempts (new_attempt args j.id) k.leases (
            any-false_mono (λ a. same_lease a (new_attempt args j.id)) (conflicts args j.id)
              db.attempts (λ a hit. ground (arith, hit)) fresh);
      references =
          HasJob-update (λ i. i.id == j.id) (grant args) db.jobs _ (λ i. refl)
            (All-append (HasJob db.jobs) db.attempts (new_attempt args j.id ∷ []) k.references
              (known, tt));
    }

-- Where no row passes the test, none is found.
find-none : {A : Type 0} (p : A → Bool) (xs : List A) → find p xs ≡ none → any p xs ≡ false
find-none p [] e = refl
find-none p (x ∷ xs) e = elim (Bool-cases (p x)) [
  | inl hit ↦ absurd (ground (arith, hit))
  | inr miss ↦ rw miss (find-none p xs (rw miss at e))
]

module _ (db : Db) (now id : ℕ) (args : SeedArgs) (url : Text) (k : IsKeyed db) where
  upsert-IsKeyed : IsKeyed (upsert db now id args url).1
  unfolding upsert
  upsert-IsKeyed = elim (Option-cases (find (same_source args url) db.jobs)) [
    | inr (j, found) ↦
        rw (found, upsert)
          (record {
            pages =
                update-IsUnique same_page (same_source args url) (reseed now args) (λ i h. refl)
                  (λ i h. refl) db.jobs k.pages;
            leases = k.leases;
            references =
                HasJob-update (same_source args url) (reseed now args) db.jobs db.attempts
                  (λ i. refl) k.references;
          })
    | inl missing ↦ elim (Bool-cases (any (λ j. j.id == id) db.jobs)) [
      | inl taken ↦ rw (missing, upsert, taken) k
      | inr fresh ↦
          rw (missing, upsert, fresh)
            (record {
              pages =
                  append-IsUnique same_page same_page_sym db.jobs (new_job now id args url) k.pages
                    (find-none (same_source args url) db.jobs missing);
              leases = k.leases;
              references = All-intro _ db.attempts λ a m.
                  rw
                    (
                      any-append (λ j. j.id == a.job_id) db.jobs (new_job now id args url ∷ []),
                      All-elim (HasJob db.jobs) db.attempts k.references m,
                    )
                    refl;
            })
    ]
  ]

pub seed-IsKeyed :
    (crate : UrlCrate) (db : Db) (now id : ℕ) (args : SeedArgs)
    → IsKeyed db
    → IsKeyed (seed crate db now id args).1
unfolding seed
seed-IsKeyed crate db now id args k = elim (Result-cases (check_seed crate args)) [
  | inl (e, refused) ↦ rw (refused, seed) k
  | inr (url, checked) ↦ rw (checked, seed) (upsert-IsKeyed db now id args url k)
]
