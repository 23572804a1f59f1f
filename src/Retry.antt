-- ===== src/Retry.antt =====
-- packages/core/src/retry/RetryManager.ts: how often a failed job runs again, and after what delay.
pub mod Laws
use queueway.Base.{ℕ, ◌*◌, ◌^◌, min, Bool, Option, ltb}
use queueway.Types.{Job, or_else}

-- Delays are in milliseconds.
pub record RetryManager : Type 0 where
  pub max_attempts : ℕ
  pub base_delay : ℕ
  pub max_delay : ℕ

-- The constructor and its defaults.
abbrev pub retry_manager : Option ℕ → Option ℕ → Option ℕ → RetryManager
retry_manager attempts base most = record {
  max_attempts = or_else attempts 5;
  base_delay = or_else base 1000;
  max_delay = or_else most 30000;
}

unfoldable pub should_retry : RetryManager → Job → Bool
should_retry m job = ltb job.attempts m.max_attempts

unfoldable pub get_retry_delay : RetryManager → ℕ → ℕ
get_retry_delay m attempts = min (m.base_delay * 2 ^ attempts) m.max_delay
