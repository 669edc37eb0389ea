-- ===== src/Runtime/Worker/Loop.antt =====
-- `run_worker` of runtime-worker/src/main.rs against the step relation of the queue.
use eal_sync.Prelude.Text.{Text}
use eal_sync.Prelude.{ℕ, Option, Bool, not, ◌||◌, List, [], ◌∷◌, All, Bool-cases, inl, inr}
use eal_sync.Net.Url.{UrlCrate}
use eal_sync.Queue.Invariant.Steps.{World, Reach, here, Reach-trans}
use eal_sync.Runtime.Worker.{Setup, is_ok, process_next, Turn, round, shutdown, run_worker}
use eal_sync.Runtime.Worker.Steps.{Others, process_next-Reach, cut_short-Reach}

module _ (crate : UrlCrate) (parse_uuid : Text → Option ℕ) (setup : Setup crate) where
  -- In a turn the other workers make transactions only.
  abbrev pub IsTurn : Turn crate → Type 0
  IsTurn (round r) = Others crate r
  IsTurn (shutdown cut r) = Others crate r

  -- A worker that runs until an error, its only round or the shutdown leaves a world that
  -- transactions reach from the one it started in, if the other workers make transactions only.
  pub run_worker-Reach :
      (once : Bool) (turns : List (Turn crate)) (w : World)
      → All IsTurn turns
      → Reach crate w (run_worker crate parse_uuid setup once turns w).1
  unfolding run_worker
  run_worker-Reach once [] w t = here
  run_worker-Reach once (shutdown cut r ∷ turns) w (t, ts) =
      cut_short-Reach crate parse_uuid setup r t cut w
  run_worker-Reach once (round r ∷ turns) w (t, ts) =
      let one = process_next-Reach crate parse_uuid setup r t w in
      elim (Bool-cases (once || not (is_ok (process_next crate parse_uuid setup r w).0))) [
        | inl last ↦ rw last one
        | inr more ↦ rw more (Reach-trans crate one (run_worker-Reach once turns _ ts))
      ]
