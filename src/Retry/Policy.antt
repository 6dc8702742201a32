-- ===== src/Retry/Policy.antt =====
-- packages/retry/src/retry.ts: ExponentialBackoffPolicy.
use platform_ts.Retry.{RetryConfig}
use platform_ts.Retry.Backoff.{backoff_delay}
use platform_ts.Prelude.{
  ℕ, zero, suc, ◌+◌, ◌-◌, ◌⊎◌, inl, inr, Bool, not, Option, none, some, ltb, leb, if◌then◌else◌,
}

-- What the policy is given: `aborted` reads the signal's reason, `random` gives a numerator, and
-- a sleep says why it ended early.
pub record Runtime (T Err : Type 0) : Type 1 where
  pub World : Type 0
  pub operation : World → World × (T ⊎ Err)
  pub should_retry : Err → ℕ → Bool
  pub now : World → World × ℕ
  pub random : World → World × ℕ
  pub sleep : ℕ → World → World × Option Err
  pub aborted : World → Option Err

pub data Outcome (T Err : Type 0) : Type 0 where
  returned : T → Outcome T Err
  threw : Err → Outcome T Err
  -- The fuel is out.
  running : Outcome T Err

module _ {T Err : Type 0} (s : Runtime T Err) (cfg : RetryConfig) where
  -- `elapsed + delay >= maxElapsedMs`, with the start on the other side.
  abbrev pub is_late : ℕ → ℕ → ℕ → Bool
  is_late start t delay = leb (start + cfg.max_elapsed_ms) (t + delay)

  -- The end of a pass: the sleep before the next one.
  abbrev pub wait_then : (s.World → s.World × Outcome T Err) → ℕ → s.World → s.World × Outcome T Err
  wait_then again delay w =
      let (w', cut) = s.sleep delay w in elim cut [ some e ↦ (w', threw e) | none ↦ again w' ]

  -- The handler of a failed operation.
  unfoldable pub after_failure :
      (s.World → s.World × Outcome T Err) → ℕ → ℕ → Err → s.World → s.World × Outcome T Err
  after_failure again start attempt err w = elim (s.aborted w) [
    | some e ↦ (w, threw e)
    | none ↦
        if not (s.should_retry err attempt)
        then (w, threw err)
        else if leb cfg.max_attempts attempt
        then (w, threw err)
        else (let (w', r) = s.random w in
            let delay = backoff_delay cfg (attempt - 1) r in
            if ltb 0 cfg.max_elapsed_ms
            then (let (w'', t) = s.now w' in
                if is_late start t delay then (w'', threw err) else wait_then again delay w'')
            else wait_then again delay w')
  ]

  unfoldable pub attempts : ℕ → ℕ → ℕ → s.World → s.World × Outcome T Err
  unfolding after_failure
  attempts zero start attempt w = (w, running)
  attempts (suc fuel) start attempt w =
      let again = attempts fuel start (suc attempt) in
      elim (s.aborted w) [
        | some e ↦ (w, threw e)
        | none ↦
            let (w', r) = s.operation w in
            elim r [
              | inl v ↦ (w', returned v)
              | inr err ↦ after_failure again start (suc attempt) err w'
            ]
      ]

  unfoldable pub run : ℕ → s.World → s.World × Outcome T Err
  unfolding attempts
  run fuel w = let (w', start) = s.now w in attempts fuel start 0 w'
