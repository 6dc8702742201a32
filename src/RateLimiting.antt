-- ===== src/RateLimiting.antt =====
-- packages/ratelimiting/src/ratelimiting.ts: the contract of the limiters.
pub mod Memory
use platform_ts.Prelude.{ℕ, Bool, Option, none, some}

pub record RateLimitResult : Type 0 where
  pub allowed : Bool
  pub remaining : ℕ
  pub limit : ℕ
  pub reset_at : ℕ
  pub retry_after_ms : Option ℕ

-- A JavaScript number as a cost: a non-negative integer, or anything else.
pub data Number : Type 0 where
  whole : ℕ → Number
  unfit : Number

-- `none` is the TypeError.
unfoldable pub assert_valid_cost : Number → Option ℕ
assert_valid_cost (whole n) = some n
assert_valid_cost unfit = none
