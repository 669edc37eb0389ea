-- ===== src/Queue/Backoff.antt =====
-- `retry_backoff_seconds` and `sanitize_code` of runtime-worker/src/queue.rs. The saturating
-- operations of i64 stop at 2^63 - 1.
pub mod Laws
pub mod Codes
use eal_sync.Prelude.{ℕ, ◌-◌, ◌*◌, ◌^◌, ◌+◌, Bool, ◌||◌, [], ◌∷◌, keep, take, min, max, ◌==◌}
use eal_sync.Prelude.Int.{ℤ, pos, negsuc}
use eal_sync.Prelude.Text.{Text, codes, is_ascii_alphanumeric}

abbrev i64_max : ℕ
i64_max = 2 ^ 63 - 1

abbrev i32_max : ℕ
i32_max = 2 ^ 31 - 1

abbrev saturating_mul : ℕ → ℕ → ℕ
saturating_mul a b = min (a * b) i64_max

abbrev saturating_pow : ℕ → ℕ → ℕ
saturating_pow a n = min (a ^ n) i64_max

-- `attempt.clamp(1, 16)`
abbrev pub exponent : ℤ → ℕ
exponent (pos n) = min (max n 1) 16
exponent (negsuc n) = 1

unfoldable pub retry_backoff_seconds : ℤ → ℕ
retry_backoff_seconds attempt =
    min (saturating_mul 30 (saturating_pow 2 (exponent attempt - 1))) 86_400

-- `job.attempt_count.saturating_add(1)` on i32
abbrev pub next_attempt : ℕ → ℕ
next_attempt n = min (n + 1) i32_max

abbrev pub is_code_char : ℕ → Bool
is_code_char c = is_ascii_alphanumeric c || c == b'_' || c == b'-'

abbrev pub or_default : Text → Text
or_default [] = codes "crawl_failed"
or_default (c ∷ s) = c ∷ s

unfoldable pub sanitize_code : Text → Text
sanitize_code value = or_default (take 128 (keep is_code_char value))
