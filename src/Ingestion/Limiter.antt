-- ===== src/Ingestion/Limiter.antt =====
-- The limiters of hosts in `HttpFetcher` of src/ingestion/network/fetcher.rs. The semaphore of tokio is
-- an argument; a permit that is dropped goes back to its semaphore.
pub mod Permits
use eal_sync.Prelude.{ℕ, suc, ◌≡◌, Bool, List, [], ◌∷◌, Option, none, some, if◌then◌else◌}
use eal_sync.Prelude.Text.{Text, text_eq}
use eal_sync.Prelude.Member.{Member}

-- `tokio::sync::Semaphore`: `acquire` is `none` while the caller has to wait
pub record SemaphoreCrate : Type 1 where
  pub Semaphore : Type 0
  pub new : ℕ → Semaphore
  pub available_permits : Semaphore → ℕ
  pub acquire : Semaphore → Option Semaphore
  pub release : Semaphore → Semaphore
  pub available-new : (n : ℕ) → available_permits (new n) ≡ n
  pub available-acquire :
      (s t : Semaphore) → acquire s ≡ some t → available_permits s ≡ suc (available_permits t)
  pub acquire-none : (s : Semaphore) → acquire s ≡ none → available_permits s ≡ 0
  pub available-release :
      (s : Semaphore) → available_permits (release s) ≡ suc (available_permits s)

module _ (crate : SemaphoreCrate) where
  open crate use {Semaphore, new, acquire, release}

  -- the map of limiters, and the host of each permit that is held
  pub record Limiters : Type 0 where
    pub host_limiters : List (Text × crate.Semaphore)
    pub held : List Text

  -- `HttpFetcher::new`
  abbrev pub no_limiters : Limiters
  no_limiters = record { host_limiters = []; held = [] }

  abbrev pub find_limiter : Text → List (Text × Semaphore) → Option Semaphore
  find_limiter host [] = none
  find_limiter host ((other, s) ∷ limiters) =
      if text_eq host other then some s else find_limiter host limiters

  abbrev pub set_limiter : Text → Semaphore → List (Text × Semaphore) → List (Text × Semaphore)
  set_limiter host t [] = (host, t) ∷ []
  set_limiter host t ((other, s) ∷ limiters) =
      let rest = set_limiter host t limiters in
      if text_eq host other then (other, t) ∷ limiters else (other, s) ∷ rest

  abbrev pub or_new : ℕ → Option Semaphore → Semaphore
  or_new max none = new max
  or_new max (some s) = s

  -- `none` is a call that waits
  unfoldable pub acquire_host_permit : ℕ → Text → Limiters → Option Limiters
  acquire_host_permit max_concurrency_per_host host fetcher =
      elim (acquire (or_new max_concurrency_per_host (find_limiter host fetcher.host_limiters))) [
        | none ↦ none
        | some s ↦ some (record {
          host_limiters = set_limiter host s fetcher.host_limiters;
          held = host ∷ fetcher.held;
        })
      ]

  abbrev pub remove_one : Text → List Text → List Text
  remove_one host [] = []
  remove_one host (other ∷ held) =
      let rest = remove_one host held in if text_eq host other then held else other ∷ rest

  -- the drop of a permit
  unfoldable pub drop_permit : Text → Limiters → Limiters
  drop_permit host fetcher = elim (find_limiter host fetcher.host_limiters) [
    | none ↦ fetcher
    | some s ↦ record {
      host_limiters = set_limiter host (release s) fetcher.host_limiters;
      held = remove_one host fetcher.held;
    }
  ]

  -- what concurrent fetches do to the limiters
  pub data Step (max : ℕ) : Limiters → Limiters → Type 0 where
    acquired :
        (host : Text) (f g : Limiters) → acquire_host_permit max host f ≡ some g → Step max f g
    dropped : (host : Text) (f : Limiters) → Member host f.held → Step max f (drop_permit host f)

  pub data Reach (max : ℕ) : Limiters → Type 0 where
    start : Reach max no_limiters
    step : (f g : Limiters) → Reach max f → Step max f g → Reach max g
