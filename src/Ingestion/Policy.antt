-- ===== src/Ingestion/Policy.antt =====
-- `FetchPolicy` of src/ingestion/network/policy.rs. A `Duration` is its nanoseconds.
use eal_sync.Prelude.{ℕ, ◌*◌, Bool, true, not, ◌||◌, ◌==◌, ltb, within}
use eal_sync.Prelude.Text.{Text, codes, trim, byte_len, is_empty}
use eal_sync.Prelude.Result.{Result, guard, ◌>>◌}
use eal_sync.Ingestion.Error.{IngestionError, error}

pub record FetchPolicy : Type 0 where
  pub max_redirects : ℕ
  pub max_response_bytes : ℕ
  pub request_timeout : ℕ
  pub connect_timeout : ℕ
  pub max_concurrency_per_host : ℕ
  pub require_content_type : Bool
  pub user_agent : Text

abbrev pub from_secs : ℕ → ℕ
from_secs n = n * 1_000_000_000

-- `FetchPolicy::default`
abbrev pub default_policy : FetchPolicy
default_policy = record {
  max_redirects = 5;
  max_response_bytes = 2 * 1024 * 1024;
  request_timeout = from_secs 20;
  connect_timeout = from_secs 5;
  max_concurrency_per_host = 2;
  require_content_type = true;
  user_agent = codes "embedded-alerts/0.1 (+https://github.com/embedded-alerts/eal-sync)";
}

-- `FetchPolicy::validate`
unfoldable pub validate_policy : FetchPolicy → Result IngestionError (Unit {0})
validate_policy policy = do
  guard (not (ltb 20 policy.max_redirects)) (error "invalid_policy")
  guard (within 1_024 33_554_432 policy.max_response_bytes) (error "invalid_policy")
  guard (not (policy.request_timeout == 0 || ltb (from_secs 120) policy.request_timeout))
      (error "invalid_policy")
  guard (not (policy.connect_timeout == 0 || ltb policy.request_timeout policy.connect_timeout))
      (error "invalid_policy")
  guard (within 1 32 policy.max_concurrency_per_host) (error "invalid_policy")
  guard (not (is_empty (trim policy.user_agent) || ltb 512 (byte_len policy.user_agent)))
      (error "invalid_policy")
