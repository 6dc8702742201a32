-- ===== src/Retry.antt =====
-- packages/retry/src/retry.ts. Jitter and random numbers are fractions, and the arithmetic on them
-- is exact where the source's is that of doubles. Logs are left out.
pub mod Backoff
pub mod Policy
pub mod Attempts
mod Tests
use platform_ts.Prelude.{ℕ}

-- `jitter` is `jitter / jitter_unit`.
pub record RetryConfig : Type 0 where
  pub max_attempts : ℕ
  pub base_delay_ms : ℕ
  pub max_delay_ms : ℕ
  pub jitter : ℕ
  pub jitter_unit : ℕ
  pub max_elapsed_ms : ℕ
