-- ===== src/Queue/Leasing.antt =====
-- Which job `lease` of runtime-worker/src/queue.rs takes.
use eal_sync.Prelude.{
  ◌≡◌, ◌↔◌, sym, ap, Bool, true, false, not, ◌&&◌, List, [], ◌∷◌, Option, none, some, keep, arith,
  Bool-cases, Option-cases, inl, inr, ◌∙◌,
}
use mathlib.Core.Bool.{false≢true}
use eal_sync.Prelude.Result.{ok}
use eal_sync.Prelude.Member.{Member, Member-keep}
use eal_sync.Queue.Tables.{Job, Db, CrawlJob}
use eal_sync.Queue.Lease.{
  is_ready, runs_before, sooner, earliest, candidate, LeaseArgs, check_lease, lease_row, lease,
}
use eal_sync.Queue.Invariant.Grants.{candidate-ready, lease-IsGranted}

runs_before_asymm : (i k : Job) → runs_before i k ≡ true → runs_before k i ≡ false
runs_before_asymm i k h = ground arith

runs_before_cotrans :
    (x i k : Job) → runs_before x i ≡ false → runs_before i k ≡ false → runs_before x k ≡ false
runs_before_cotrans x i k h e = ground arith

runs_before_irrefl : (k : Job) → runs_before k k ≡ false
runs_before_irrefl k = ground arith

-- Nothing is found in the empty table only.
earliest-none : (js : List Job) (j : Job) → earliest js ≡ none → Member j js → ⊥
unfolding earliest
earliest-none [] j e m = absurd m
earliest-none (k ∷ ks) j e m = elim (Option-cases (earliest ks)) [
  | inl nothing ↦ ground (arith, nothing)
  | inr (i, found) ↦ ground (arith, found)
]

-- What `sooner` keeps is due no later than the row and the earlier find.
sooner_first :
    (k : Job) (o : Option Job) {j : Job}
    → sooner k o ≡ some j
    → (runs_before k j ≡ false)
      × ((s x : Job) → o ≡ some s → runs_before x s ≡ false → runs_before x j ≡ false)
sooner_first k none {j} e = (ground (arith, runs_before_irrefl k), λ s x h. cc)
sooner_first k (some i) {j} e = elim (Bool-cases (runs_before i k)) [
  | inl before ↦ (ground (arith, runs_before_asymm i k before), λ s x h r. ground arith)
  | inr after ↦ (
    ground (arith, runs_before_irrefl k),
    λ s x h r. ground (arith, runs_before_cotrans x i k, after),
  )
]

-- No row of the table runs before the one that is found.
earliest-first :
    (js : List Job) (i : Job) {j : Job}
    → earliest js ≡ some j
    → Member i js
    → runs_before i j ≡ false
unfolding earliest
earliest-first [] i e m = absurd m
earliest-first (k ∷ ks) i {j} e (inl here) = rw here (sooner_first k (earliest ks) e).0
earliest-first (k ∷ ks) i {j} e (inr m) = elim (Option-cases (earliest ks)) [
  | inl nothing ↦ absurd (earliest-none ks i nothing m)
  | inr (s, found) ↦ (sooner_first k (earliest ks) e).1 s i found (earliest-first ks i found m)
]

abbrev is_free : LeaseArgs → Job → Bool
is_free args j = is_ready args.now j && not (args.locked j.id)

-- A successful lease takes a row that is ready and unlocked, and no such row was due before it.
pub record IsNext (db : Db) (args : LeaseArgs) (job : CrawlJob) : Type 0 where
  pub row : Job
  pub listed : Member row db.jobs
  pub same_id : job.id ≡ row.id
  pub ready : is_ready args.now row ≡ true
  pub unlocked : args.locked row.id ≡ false
  pub first :
      (other : Job)
      → Member other db.jobs
      → is_ready args.now other ≡ true
      → args.locked other.id ≡ false
      → runs_before other row ≡ false

-- A lease that succeeds hands out the ready, unlocked row that is due first.
pub lease-IsNext :
    (db : Db) (args : LeaseArgs) (job : CrawlJob)
    → (lease db args).0 ≡ ok (some job)
    → IsNext db args job
unfolding candidate
lease-IsNext db args job e =
    let g = lease-IsGranted db args job e in
    let (m, ready, unlocked) = candidate-ready args.locked args.now db.jobs g.is_candidate in
    record {
      row = g.row;
      listed = m;
      same_id = ap (λ (c : CrawlJob). c.id) g.handed_out;
      ready = ready;
      unlocked = unlocked;
      first = λ other n r u.
          earliest-first _ other g.is_candidate (Member-keep (is_free args) db.jobs n (rw (r, u)));
    }

-- If the arguments of a lease are valid, it finds nothing exactly when every ready row is locked.
pub lease-none_iff :
    (db : Db) (args : LeaseArgs)
    → check_lease args ≡ ok tt
    → ((lease db args).0 ≡ ok none)
      ↔ ((j : Job) → Member j db.jobs → is_ready args.now j ≡ true → args.locked j.id ≡ true)
unfolding lease lease_row candidate
lease-none_iff db args c = (nothing_free, all_blocked)
  where
    nothing_free :
        (lease db args).0 ≡ ok none
        → (j : Job) → Member j db.jobs
        → is_ready args.now j ≡ true
        → args.locked j.id ≡ true
    nothing_free e j m r = elim (Bool-cases (args.locked j.id)) [
      | inl locked ↦ locked
      | inr unlocked ↦ absurd (
          earliest-none (keep (is_free args) db.jobs) j (ground arith)
            (Member-keep (is_free args) db.jobs m (rw (r, unlocked))))
    ]

    all_blocked :
        ((j : Job) → Member j db.jobs → is_ready args.now j ≡ true → args.locked j.id ≡ true)
        → (lease db args).0 ≡ ok none
    all_blocked h = elim (Option-cases (candidate args.locked args.now db.jobs)) [
      | inl nothing ↦ ground arith
      | inr (j, found) ↦
          let (m, ready, unlocked) = candidate-ready args.locked args.now db.jobs found in
          absurd (false≢true (sym unlocked ∙ h j m ready))
    ]
