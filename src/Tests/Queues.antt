-- ===== src/Tests/Queues.antt =====
-- Runs of the queue.
use eal_sync.Prelude.{
  ◌≡◌, ◌≢◌, ◌↔◌, refl, true, false, [], ◌∷◌, none, some, inl, inr, arith, All, min, ◌*◌, ◌^◌, ap,
  is_some_of,
}
use eal_sync.Prelude.Int.{pos}
use eal_sync.Prelude.Json.{object, end}
use eal_sync.Prelude.Text.{
  Text, codes, trim, trim_end, drop_while, drop_end_while, is_whitespace, byte_len,
}
use eal_sync.Prelude.Result.{ok, err}
use eal_sync.Prelude.Member.{update, Member}
use eal_sync.Queue.Tables.{Job, CrawlJob, attempt_lost}
use eal_sync.Queue.Lease.{
  is_ready, earliest, candidate, LeaseArgs, grant, crawl_job, check_lease, lease_row, lease,
}
use eal_sync.Queue.Seed.{seed}
use eal_sync.Queue.Finish.{finish, complete, fail, is_expired, reap_expired, reschedule_expired}
use eal_sync.Queue.Backoff.{retry_backoff_seconds, sanitize_code}
use eal_sync.Queue.Backoff.Laws.{retry_backoff_doubles}
use eal_sync.Queue.Backoff.Codes.{Keeps, IsStored, IsErrorCode, sanitize_code-IsErrorCode}
use eal_sync.Queue.Leasing.{IsNext, lease-IsNext, lease-none_iff}
use eal_sync.Queue.Holding.{IsHeld, Step-IsHeld, lease-excludes}
use eal_sync.Queue.Fencing.{complete_once, finish_after_reap, reap_frees}
use eal_sync.Queue.Orphans.{IsOrphaned, Step-IsOrphaned, lease_orphans}
use eal_sync.Queue.Invariant.Reaping.{reap_jobs}
use eal_sync.Queue.Invariant.Keys.{IsKeyed}
use eal_sync.Queue.Invariant.Steps.{
  World, here, next, seeds, reaps, initial, Inv, Reach-Inv, leases_unseen,
}
use eal_sync.Queue.Board.{Move, job_state}
use eal_sync.Queue.Board.Refines.{Step-Move}
use eal_sync.Tests.Samples.{
  plain_crate, plain_crate-SerializesHttps, seed_args, idle_job, idle_db, lease_args, held_job,
  held_db, held_db-IsConsistent, later_job, idle_db-IsConsistent,
}

leases_idle : (lease idle_db lease_args).0 ≡ ok (some held_job)
unfolding lease lease_row candidate earliest is_ready check_lease trim trim_end drop_while
    drop_end_while is_whitespace byte_len
leases_idle = refl

lease_args_pass : check_lease lease_args ≡ ok tt
unfolding check_lease trim trim_end drop_while drop_end_while is_whitespace byte_len
lease_args_pass = refl

abbrev seeded_world : World
seeded_world = record initial { db = (seed plain_crate initial.db 100 1 seed_args).1 }

Reach-Inv_example :
    Inv (record seeded_world { db = (reap_expired seeded_world.db 200).1 })
    × IsKeyed (reap_expired seeded_world.db 200).1
Reach-Inv_example =
    Reach-Inv plain_crate plain_crate-SerializesHttps
      (next (next here (seeds 100 1 seed_args)) (reaps 200))

lease-IsNext_example : IsNext idle_db lease_args held_job
lease-IsNext_example = lease-IsNext idle_db lease_args held_job leases_idle

lease-none_iff_example :
    ((lease idle_db lease_args).0 ≡ ok none)
    ↔ ((j : Job) → Member j idle_db.jobs → is_ready 200 j ≡ true → false ≡ true)
lease-none_iff_example = lease-none_iff idle_db lease_args lease_args_pass

-- a second worker, while the first holds its lease
abbrev second_args : LeaseArgs
second_args = record lease_args { now = 400; lease_token = 42; attempt_id = 52 }

leases_second : (lease held_db second_args).0 ≡ ok (some (crawl_job second_args later_job))
unfolding lease lease_row candidate earliest is_ready check_lease trim trim_end drop_while
    drop_end_while is_whitespace byte_len
leases_second = refl

lease-excludes_example : (crawl_job second_args later_job).id ≢ 1
lease-excludes_example =
    lease-excludes 1 41 30_000_200 held_db second_args (crawl_job second_args later_job)
      held_db-IsConsistent refl (omega arith) leases_second

abbrev held_world : World
held_world = record { db = held_db; held = held_job ∷ [] }

held_world-Inv : Inv held_world
held_world-Inv = record { consistent = held_db-IsConsistent; genuine = (refl, tt) }

Step-IsHeld_example : IsHeld 1 41 30_000_200 (reap_expired held_db 300).1
Step-IsHeld_example =
    Step-IsHeld plain_crate 1 41 30_000_200 {w = held_world} (reaps 300) held_world-Inv
      (omega arith) refl

completes_held : (complete held_db 500 held_job (object end) (object end)).0 ≡ ok tt
unfolding complete finish
completes_held = refl

complete_once_example :
    let after = (complete held_db 500 held_job (object end) (object end)).1 in
    (complete after 600 held_job (object end) (object end) ≡ (err attempt_lost, after))
    × (fail after 600 held_job (codes "late") (object end) ≡ (err attempt_lost, after))
complete_once_example =
    complete_once held_db 500 600 held_job (object end) (object end) (codes "late") (object end)
      completes_held

finish_after_reap_example :
    let after = (reap_expired held_db 40_000_000).1 in
    (complete after 50_000_000 held_job (object end) (object end) ≡ (err attempt_lost, after))
    × (fail after 50_000_000 held_job (codes "late") (object end) ≡ (err attempt_lost, after))
finish_after_reap_example =
    finish_after_reap held_db held_job (grant lease_args idle_job) 40_000_000 held_db-IsConsistent
      refl 50_000_000 (object end) (object end) (codes "late") (object end) (inl refl) refl refl

reap_frees_example :
    All (λ j. is_expired 40_000_000 j ≡ false) (reap_expired held_db 40_000_000).1.jobs
reap_frees_example = reap_frees held_db 40_000_000 held_db-IsConsistent

reap_jobs_example :
    ((reap_expired held_db 40_000_000).1.jobs
      ≡ update (is_expired 40_000_000) (reschedule_expired 40_000_000) held_db.jobs)
    × ((reap_expired held_db 40_000_000).0 ≡ 1)
reap_jobs_example = reap_jobs held_db 40_000_000 held_db-IsConsistent

-- a worker that takes over the expired lease before any reap
abbrev third_args : LeaseArgs
third_args = record lease_args { now = 50_000_000; lease_token = 43; attempt_id = 53 }

abbrev taken_job : CrawlJob
taken_job = crawl_job third_args (grant lease_args idle_job)

leases_expired : (lease held_db third_args).0 ≡ ok (some taken_job)
unfolding lease lease_row candidate earliest is_ready check_lease trim trim_end drop_while
    drop_end_while is_whitespace byte_len
leases_expired = refl

only_row : (j : Job) → Member j held_db.jobs → is_some_of 41 j.lease_token ≡ true → j.id ≡ 1
only_row j (inl e) h = ap (λ (i : Job). i.id) e
only_row j (inr (inl e)) h = absurd (ground (arith, e, h))
only_row j (inr (inr m)) h = absurd m

orphan_left : IsOrphaned 41 (lease held_db third_args).1
orphan_left =
    lease_orphans held_db third_args taken_job (grant lease_args idle_job) 41 held_db-IsConsistent
      (inl refl) refl only_row leases_expired refl (λ e. omega (arith, e))

lease_orphans_example : IsOrphaned 41 (lease held_db third_args).1
lease_orphans_example =
    lease_orphans held_db third_args taken_job (grant lease_args idle_job) 41 held_db-IsConsistent
      (inl refl) refl only_row leases_expired refl (λ e. omega (arith, e))

abbrev orphan_world : World
orphan_world = record { db = (lease held_db third_args).1; held = [] }

Step-IsOrphaned_example : IsOrphaned 41 (reap_expired (lease held_db third_args).1 90_000_000).1
Step-IsOrphaned_example =
    Step-IsOrphaned plain_crate 41 {w = orphan_world} (reaps 90_000_000) tt orphan_left

retry_backoff_doubles_example : retry_backoff_seconds (pos 4) ≡ min (30 * 2 ^ 3) 86_400
retry_backoff_doubles_example = retry_backoff_doubles 3

sanitize_code-IsErrorCode_example :
    (kept : Text) × Keeps (codes "HTTP 500!") kept
    × IsStored kept (sanitize_code (codes "HTTP 500!"))
    × IsErrorCode (sanitize_code (codes "HTTP 500!"))
    × (sanitize_code (sanitize_code (codes "HTTP 500!")) ≡ sanitize_code (codes "HTTP 500!"))
sanitize_code-IsErrorCode_example = sanitize_code-IsErrorCode (codes "HTTP 500!")

abbrev idle_queue : World
idle_queue = record { db = idle_db; held = [] }

Step-Move_example :
    Move [] lease_args.now 1 (job_state 1 idle_db) (job_state 1 (lease idle_db lease_args).1)
Step-Move_example =
    Step-Move plain_crate {w = idle_queue} 1 (leases_unseen lease_args)
      (record { consistent = idle_db-IsConsistent; genuine = tt })
