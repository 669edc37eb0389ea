-- ===== src/Runtime/Worker/Outcomes.antt =====
-- What a round of `process_next` of runtime-worker/src/main.rs leaves in the tables.
use eal_sync.Prelude.{
  ℕ, ◌≡◌, ◌⊎◌, refl, sym, true, Option, none, some, arith, true_is_not_false, inl, inr,
}
use eal_sync.Prelude.Text.{Text}
use eal_sync.Prelude.Json.{Json}
use eal_sync.Prelude.Result.{Result, ok, err, Result-cases, ok_injective, err_is_not_ok}
use eal_sync.Prelude.Member.{Member}
use eal_sync.Net.Url.{UrlCrate}
use eal_sync.Queue.Tables.{Job, Attempt, Db, CrawlJob, QueueError, succeeded, failed}
use eal_sync.Queue.Backoff.{sanitize_code}
use eal_sync.Queue.Lease.{lease}
use eal_sync.Queue.Finish.{complete, fail}
use eal_sync.Queue.Invariant.Steps.{World}
use eal_sync.Runtime.Envelope.{CrawlCommandOutput}
use eal_sync.Runtime.Command.{CrawlRunError, run_diagnostic, run_crawl_command}
use eal_sync.Runtime.Api.{IngestApiError, api_diagnostic, ingest_page}
use eal_sync.Runtime.Worker.{
  Setup, Round, finished, leased_world, lease_args, hand_over, work_on, after_lease, swept,
  process_next,
}
use eal_sync.Runtime.Worker.Closed.{finished-IsClosed}

module _ (crate : UrlCrate) (parse_uuid : Text → Option ℕ) (setup : Setup crate)
    (r : Round crate) where
  -- The crawl command and the API both succeeded, and their results are on record.
  pub record IsSuccess (job : CrawlJob) (attempt : Attempt) : Type 0 where
    pub output : CrawlCommandOutput
    pub receipt : Json
    pub crawled :
        run_crawl_command crate parse_uuid r.os r.requested_at setup.command job ≡ ok output
    pub posted :
        ingest_page crate r.api setup.client job.tenant_id job.source_id output.page_ingest
        ≡ ok receipt
    pub status : attempt.status ≡ succeeded
    pub receipt_kept : attempt.api_receipt ≡ some receipt
    pub diagnostic_kept : attempt.details ≡ output.diagnostic

  -- The crawl command failed, or it succeeded and the API failed; the error's code and diagnostic.
  abbrev pub IsError : CrawlJob → Text → Json → Type 0
  IsError job code details =
      ((e : CrawlRunError) × (run_crawl_command crate parse_uuid r.os r.requested_at setup.command
            job
          ≡ err e)
        × (code ≡ e.code)
        × (details ≡ run_diagnostic e))
      ⊎ (output : CrawlCommandOutput) × (e : IngestApiError) × (run_crawl_command crate parse_uuid
            r.os r.requested_at setup.command job
          ≡ ok output)
        × (ingest_page crate r.api setup.client job.tenant_id job.source_id output.page_ingest
            ≡ err e)
        × (code ≡ e.code)
        × (details ≡ api_diagnostic e)

  pub record IsFailure (job : CrawlJob) (attempt : Attempt) : Type 0 where
    pub code : Text
    pub details : Json
    pub reason : IsError job code details
    pub status : attempt.status ≡ failed
    pub code_kept : attempt.error_code ≡ some (sanitize_code code)
    pub details_kept : attempt.details ≡ details

  -- The tables have an attempt of the job, ended in this round with what became of it, and a row of the
  -- job without a lease.
  pub record IsRecorded (job : CrawlJob) (db : Db) : Type 0 where
    pub attempt : Attempt
    pub row : Job
    pub listed : Member attempt db.attempts
    pub same_attempt : attempt.id ≡ job.attempt_id
    pub same_token : attempt.lease_token ≡ job.lease_token
    pub ended : attempt.finished_at ≡ some r.finished_at
    pub result : IsSuccess job attempt ⊎ IsFailure job attempt
    pub kept : Member row db.jobs
    pub same_job : row.id ≡ job.id
    pub released : row.lease_token ≡ none

  failure-IsRecorded :
      (job : CrawlJob) (code : Text) (details : Json) (w : World)
      → IsError job code details
      → (finished (fail w.db r.finished_at job code details) w).0 ≡ ok true
      → IsRecorded job (finished (fail w.db r.finished_at job code details) w).1.db
  unfolding fail
  failure-IsRecorded job code details w reason e =
      let c = finished-IsClosed w.db job _ _ w e in
      record {
        attempt = _;
        row = _;
        listed = c.closed;
        same_attempt = ground (arith, c.was_open);
        same_token = ground (arith, c.was_open);
        ended = refl;
        result = inr (record {
          code = code;
          details = details;
          reason = reason;
          status = refl;
          code_kept = refl;
          details_kept = refl;
        });
        kept = c.rescheduled;
        same_job = ground (arith, c.was_leased);
        released = refl;
      }

  success-IsRecorded :
      (job : CrawlJob) (output : CrawlCommandOutput) (receipt : Json) (w : World)
      → run_crawl_command crate parse_uuid r.os r.requested_at setup.command job ≡ ok output
      → ingest_page crate r.api setup.client job.tenant_id job.source_id output.page_ingest
        ≡ ok receipt
      → (finished (complete w.db r.finished_at job output.diagnostic receipt) w).0 ≡ ok true
      → IsRecorded job (finished (complete w.db r.finished_at job output.diagnostic receipt) w).1.db
  unfolding complete
  success-IsRecorded job output receipt w crawled posted e =
      let c = finished-IsClosed w.db job _ _ w e in
      record {
        attempt = _;
        row = _;
        listed = c.closed;
        same_attempt = ground (arith, c.was_open);
        same_token = ground (arith, c.was_open);
        ended = refl;
        result = inl (record {
          output = output;
          receipt = receipt;
          crawled = crawled;
          posted = posted;
          status = refl;
          receipt_kept = refl;
          diagnostic_kept = refl;
        });
        kept = c.rescheduled;
        same_job = ground (arith, c.was_leased);
        released = refl;
      }

  work_on-IsRecorded :
      (job : CrawlJob) (w : World)
      → (work_on crate parse_uuid setup r job w).0 ≡ ok true
      → IsRecorded job (work_on crate parse_uuid setup r job w).1.db
  unfolding work_on hand_over
  work_on-IsRecorded job w e =
      elim (Result-cases
        (run_crawl_command crate parse_uuid r.os r.requested_at setup.command job)) [
          | inl (why, x) ↦
              rw (x, work_on)
                (failure-IsRecorded job why.code (run_diagnostic why) (r.while_crawling w)
                  (inl (why, x, refl, refl)) (rw (x, work_on) at e))
          | inr (output, x) ↦
              let later = r.while_posting (r.while_crawling w) in
              elim (Result-cases (
                ingest_page crate r.api setup.client job.tenant_id job.source_id
                  output.page_ingest)) [
                    | inl (why, y) ↦
                        rw (x, work_on, y, hand_over)
                          (failure-IsRecorded job why.code (api_diagnostic why) later
                            (inr (output, why, x, y, refl, refl))
                            (rw (x, work_on, y, hand_over) at e))
                    | inr (receipt, y) ↦
                        rw (x, work_on, y, hand_over)
                          (success-IsRecorded job output receipt later x y
                            (rw (x, work_on, y, hand_over) at e))
                  ]
        ]

  after_lease-IsRecorded :
      (w : World) (result : Result QueueError (Option CrawlJob)) (db : Db)
      → (after_lease crate parse_uuid setup r w (result, db)).0 ≡ ok true
      → (job : CrawlJob) × (result ≡ ok (some job))
        × IsRecorded job (after_lease crate parse_uuid setup r w (result, db)).1.db
  unfolding after_lease
  after_lease-IsRecorded w (err e) db h = absurd (err_is_not_ok h)
  after_lease-IsRecorded w (ok none) db h = absurd (true_is_not_false (sym (ok_injective h)))
  after_lease-IsRecorded w (ok (some job)) db h =
      (job, refl, work_on-IsRecorded job (leased_world w job db) h)

  -- A round that reports a processed job has leased one, under the worker's owner and lease time, and
  -- the tables then have the attempt of that lease, ended in this round: as succeeded, with the receipt
  -- and the diagnostic, where the crawl command gave a page and the API took that page; as failed, with
  -- the cleaned code and the diagnostic of the error, where the command failed or the API refused. The
  -- row of the job then has no lease. This holds whatever other workers do in between.
  pub process_next-IsRecorded :
      (w : World)
      → (process_next crate parse_uuid setup r w).0 ≡ ok true
      → (job : CrawlJob) × ((lease
            (swept crate parse_uuid setup r w).db
            (lease_args crate parse_uuid setup r)).0
          ≡ ok (some job))
        × IsRecorded job (process_next crate parse_uuid setup r w).1.db
  unfolding process_next
  process_next-IsRecorded w e = after_lease-IsRecorded _ _ _ e
