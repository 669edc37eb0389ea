-- ===== src/Runtime/Main/Laws.antt =====
-- The actions of `main` against the step relation of the queue.
use eal_sync.Prelude.{ℕ, List, Option, All, inl, inr}
use eal_sync.Prelude.Text.{Text}
use eal_sync.Prelude.Result.{Result-cases}
use eal_sync.Net.Url.{UrlCrate}
use eal_sync.Queue.Invariant.Steps.{World, Reach, here, next, seeds, reaps}
use eal_sync.Runtime.Api.{ClientBuilder, Options}
use eal_sync.Runtime.Worker.{Setup, Turn}
use eal_sync.Runtime.Worker.Loop.{IsTurn, run_worker-Reach}
use eal_sync.Runtime.Main.{
  Action, migrate, seed_source, worker, reap, Ambient, setup_of, prepare_worker, main,
}

module _ (crate : UrlCrate) (builder : ClientBuilder crate) (parse_uuid : Text → Option ℕ)
    (options : Options) (ambient : Ambient) where
  -- Whatever the action is and whether it succeeds, `main` changes the queue by its transactions only, if
  -- the other workers do.
  main-Reach :
      (turns : List (Turn crate)) (action : Action) (w : World)
      → ((setup : Setup crate) → All (IsTurn crate parse_uuid setup) turns)
      → Reach crate w (main crate builder parse_uuid options ambient turns action w).1
  unfolding main
  main-Reach turns migrate w all_turns = here
  main-Reach turns (seed_source args) w all_turns =
      next here (seeds ambient.now ambient.fresh_id args)
  main-Reach turns reap w all_turns = next here (reaps ambient.now)
  main-Reach turns (worker args) w all_turns =
      elim (Result-cases (prepare_worker crate builder parse_uuid options ambient args)) [
        | inl (_, x) ↦ rw (x, main) here
        | inr (client, a) ↦
            let setup = setup_of crate builder parse_uuid options ambient args client in
            rw (a, main)
              (run_worker-Reach crate parse_uuid setup args.once turns w (all_turns setup))
      ]
