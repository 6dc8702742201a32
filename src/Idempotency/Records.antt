-- ===== src/Idempotency/Records.antt =====
-- packages/idempotency/src/record.ts, and the failures that the manager throws.
use platform_ts.Idempotency.Key.{KeyError}
use platform_ts.Prelude.{ℕ, String, Bool, true, false, Option}

abbrev pub record_version : ℕ
record_version = 1

-- `unknown` is a state that this build does not know.
pub data RecordState : Type 0 where
  in_flight completed unknown : RecordState

pub record IdempotencyRecord (T : Type 0) : Type 0 where
  pub version : ℕ
  pub state : RecordState
  pub created_at : ℕ
  pub fingerprint : String
  pub claim_id : String
  pub value : Option T

-- A replayed value is absent if the work returned none.
pub data IdempotentResult (T : Type 0) : Type 0 where
  executed : T → IdempotentResult T
  replayed : Option T → IdempotentResult T
  pending : IdempotentResult T
  fingerprint_mismatch : IdempotentResult T

unfoldable pub has_value : {T : Type 0} → IdempotentResult T → Bool
has_value (executed v) = true
has_value (replayed v) = true
has_value _ = false

pub data Failure : Type 0 where
  bad_key : KeyError → Failure
  fingerprint_required : Failure
  store_unavailable : Failure
  -- What the store, the locker or the work threw.
  fault : Failure
  -- The wait for the lock is still going on when the fuel is out.
  hung : Failure

pub data Outcome : Type 0 where
  was_executed was_replayed was_in_flight was_mismatch : Outcome
