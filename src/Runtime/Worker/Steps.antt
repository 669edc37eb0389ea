-- ===== src/Runtime/Worker/Steps.antt =====
-- `process_next` of runtime-worker/src/main.rs against the step relation of the queue.
use eal_sync.Prelude.{ℕ, ◌≡◌, refl, subst, ap, Option, none, some, inl, inr}
use eal_sync.Prelude.Text.{Text}
use eal_sync.Prelude.Json.{Json}
use eal_sync.Prelude.Result.{Result, ok, err, Result-cases}
use eal_sync.Prelude.Member.{Member}
use eal_sync.Net.Url.{UrlCrate}
use eal_sync.Queue.Tables.{Db, CrawlJob, QueueError}
use eal_sync.Queue.Lease.{LeaseArgs, lease}
use eal_sync.Queue.Invariant.Steps.{
  World, Step, Reach, Reach-trans, here, next, seeds, leases, leases_unseen, completes, fails,
  reaps,
}
use eal_sync.Runtime.Envelope.{CrawlCommandOutput}
use eal_sync.Runtime.Worker.{
  Setup, Round, Cut, unstarted, reaped, leased, recorded, lease_args, crawl, ingest, dropped,
  cut_short, finished, record_failure, hand_over, work_on, leased_world, after_lease, process_next,
}

-- Other workers: they only make transactions, and the jobs that were handed out stay so.
pub record Others (crate : UrlCrate) (r : Round crate) : Type 0 where
  pub before_lease : (w : World) → Reach crate w (r.before_lease w)
  pub while_crawling : (w : World) → Reach crate w (r.while_crawling w)
  pub while_posting : (w : World) → Reach crate w (r.while_posting w)

module _ (crate : UrlCrate) where
  -- No step takes a job back that was handed out.
  Step-held :
      (job : CrawlJob) {w v : World} → Step crate w v → Member job w.held → Member job v.held
  Step-held job (seeds now id args) m = m
  Step-held job (leases args new e) m = inr m
  Step-held job (leases_unseen args) m = m
  Step-held job (completes now done diagnostic receipt h) m = m
  Step-held job (fails now done code details h) m = m
  Step-held job (reaps now) m = m

  Reach-held :
      (job : CrawlJob) {w v : World} → Reach crate w v → Member job w.held → Member job v.held
  Reach-held job here m = m
  Reach-held job (next r s) m = Step-held job s (Reach-held job r m)

  module _ (parse_uuid : Text → Option ℕ) (setup : Setup crate) (r : Round crate)
      (others : Others crate r) where
    finished-Reach :
        (outcome : Result QueueError (Unit {0}) × Db) (w : World)
        → Reach crate w (record w { db = outcome.1 })
        → Reach crate w (finished outcome w).1
    finished-Reach (ok _, db) w p = p
    finished-Reach (err e, db) w p = p

    failure-Reach :
        (job : CrawlJob) (code : Text) (details : Json) (w : World)
        → Member job w.held
        → Reach crate w (record_failure crate parse_uuid setup r job code details w).1
    failure-Reach job code details w m =
        finished-Reach _ w (next here (fails r.finished_at job code details m))

    hand_over-Reach :
        (job : CrawlJob) (output : CrawlCommandOutput) (w : World)
        → Member job w.held
        → Reach crate w (hand_over crate parse_uuid setup r job output w).1
    unfolding hand_over
    hand_over-Reach job output w m =
        elim (Result-cases (ingest crate parse_uuid setup r job output.page_ingest)) [
          | inl (e, failed) ↦ rw (failed, hand_over) (failure-Reach job _ _ w m)
          | inr (receipt, posted) ↦
              rw (posted, hand_over)
                (finished-Reach _ w
                  (next here (completes r.finished_at job output.diagnostic receipt m)))
        ]

    work_on-Reach :
        (job : CrawlJob) (w : World)
        → Member job w.held
        → Reach crate w (work_on crate parse_uuid setup r job w).1
    unfolding work_on
    work_on-Reach job w m =
        let crawled = others.while_crawling w in
        let posted = others.while_posting (r.while_crawling w) in
        elim (Result-cases (crawl crate parse_uuid setup r job)) [
          | inl (e, failed) ↦
              rw (failed, work_on)
                (Reach-trans crate crawled (failure-Reach job _ _ _ (Reach-held job crawled m)))
          | inr (output, done) ↦
              rw (done, work_on)
                (Reach-trans crate (Reach-trans crate crawled posted)
                  (hand_over-Reach job output _ (Reach-held job posted (Reach-held job crawled m))))
        ]

    unseen_lease :
        (w : World) (args : LeaseArgs) (db : Db) {result : Result QueueError (Option CrawlJob)}
        → lease w.db args ≡ (result, db)
        → Reach crate w (record w { db = db })
    unseen_lease w args db same =
        subst (λ d. Reach crate w (record w { db = d })) (ap (λ p. p.1) same)
          (next here (leases_unseen args))

    after_lease-Reach :
        (w : World) (args : LeaseArgs) (result : Result QueueError (Option CrawlJob)) (db : Db)
        → lease w.db args ≡ (result, db)
        → Reach crate w (after_lease crate parse_uuid setup r w (result, db)).1
    unfolding after_lease
    after_lease-Reach w args (err e) db same = unseen_lease w args db same
    after_lease-Reach w args (ok none) db same = unseen_lease w args db same
    after_lease-Reach w args (ok (some job)) db same =
        Reach-trans crate
          (subst (λ d. Reach crate w (leased_world w job d)) (ap (λ p. p.1) same)
            (next here (leases args job (ap (λ p. p.0) same))))
          (work_on-Reach job _ (inl refl))

    -- A round of a worker leaves a world that transactions reach from the one it started in,
    -- whatever the crawl command and the API answer, if the other workers make transactions only.
    pub process_next-Reach : (w : World) → Reach crate w (process_next crate parse_uuid setup r w).1
    unfolding process_next
    process_next-Reach w = Reach-trans crate (next here (reaps r.reaped_at)) (
        Reach-trans crate (others.before_lease _)
          (after_lease-Reach _ (lease_args crate parse_uuid setup r) _ _ refl))

    dropped-Reach :
        (w : World) (args : LeaseArgs) (result : Result QueueError (Option CrawlJob)) (db : Db)
        → lease w.db args ≡ (result, db)
        → Reach crate w (dropped w (result, db))
    dropped-Reach w args (err e) db same = unseen_lease w args db same
    dropped-Reach w args (ok none) db same = unseen_lease w args db same
    dropped-Reach w args (ok (some job)) db same =
        subst (λ d. Reach crate w (leased_world w job d)) (ap (λ p. p.1) same)
          (next here (leases args job (ap (λ p. p.0) same)))

    -- So does a round that the shutdown drops.
    pub cut_short-Reach :
        (cut : Cut) (w : World) → Reach crate w (cut_short crate parse_uuid setup r cut w)
    unfolding cut_short
    cut_short-Reach unstarted w = here
    cut_short-Reach reaped w = next here (reaps r.reaped_at)
    cut_short-Reach leased w = Reach-trans crate (next here (reaps r.reaped_at)) (
        Reach-trans crate (others.before_lease _)
          (dropped-Reach _ (lease_args crate parse_uuid setup r) _ _ refl))
    cut_short-Reach recorded w = process_next-Reach w
