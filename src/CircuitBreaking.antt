-- ===== src/CircuitBreaking.antt =====
-- packages/circuitbreaking/src/providers/partitioned.ts. Each reading of the injected clock is an
-- argument, in the order in which the code takes them. Log lines are not kept; the instruments are.
pub mod Partitions
pub mod States
pub mod Probes
mod Tests
use platform_ts.Prelude.{
  ℕ, suc, ◌+◌, ◌-◌, Bool, true, false, not, ◌&&◌, List, [], ◌∷◌, leb, if◌then◌else◌,
}

pub data State : Type 0 where
  closed half_open opened : State

-- The `state` gauge's encoding.
abbrev pub state_code : State → ℕ
state_code closed = 0
state_code half_open = 1
state_code opened = 2

pub record Config : Type 0 where
  pub failure_threshold : ℕ
  pub open_duration_ms : ℕ
  pub half_open_max_attempts : ℕ

pub record Breaker : Type 0 where
  pub state : State
  pub failures : ℕ
  pub opened_at : ℕ
  pub half_open_at : ℕ
  pub half_open_attempts : ℕ
  -- The transition counter's tags, newest first, the gauge and the rejection counter.
  pub transitions : List (State × State)
  pub gauge : ℕ
  pub rejections : ℕ

unfoldable pub fresh : Breaker
fresh = record {
  state = closed;
  failures = 0;
  opened_at = 0;
  half_open_at = 0;
  half_open_attempts = 0;
  transitions = [];
  gauge = 0;
  rejections = 0;
}

abbrev pub is : State → State → Bool
is closed closed = true
is half_open half_open = true
is opened opened = true
is _ _ = false

abbrev pub record_transition : State → State → Breaker → Breaker
record_transition from to b = record b {
  transitions = (from, to) ∷ b.transitions;
  gauge = state_code to;
}

abbrev pub reject : Breaker → Breaker
reject b = record b { rejections = suc b.rejections }

unfoldable pub open_at : ℕ → Breaker → Breaker
open_at now b =
    record_transition b.state opened
      (record b { state = opened; opened_at = now; half_open_attempts = 0 })

unfoldable pub to_half_open : ℕ → Breaker → Breaker
to_half_open now b =
    record_transition b.state half_open
      (record b { state = half_open; half_open_at = now; half_open_attempts = 0 })

unfoldable pub close : Breaker → Breaker
close b =
    record_transition b.state closed
      (record b { state = closed; failures = 0; half_open_attempts = 0 })

module _ (c : Config) where
  -- `now - openedAt >= openDurationMs`
  abbrev pub cooldown_elapsed : ℕ → Breaker → Bool
  cooldown_elapsed now b = leb (b.opened_at + c.open_duration_ms) now

  abbrev pub half_open_stalled : ℕ → Breaker → Bool
  half_open_stalled now b =
      leb c.half_open_max_attempts b.half_open_attempts
      && leb (b.half_open_at + c.open_duration_ms) now

  -- The first `if` of `canProceed`: `now` is the reading of the test, `then` that of the change.
  unfoldable pub advance : ℕ → ℕ → Breaker → Breaker
  unfolding open_at to_half_open
  advance now later b =
      if is b.state opened && cooldown_elapsed now b
      then to_half_open later b
      else if is b.state half_open && half_open_stalled now b
      then open_at later b
      else b

  -- The rest of it.
  unfoldable pub admit : Breaker → Breaker × Bool
  admit b =
      if is b.state half_open
      then if leb c.half_open_max_attempts b.half_open_attempts
        then (reject b, false)
        else (record b { half_open_attempts = suc b.half_open_attempts }, true)
      else if is b.state closed
      then (b, true)
      else (reject b, false)

  unfoldable pub can_proceed : ℕ → ℕ → Breaker → Breaker × Bool
  unfolding advance admit
  can_proceed now later b = admit (advance now later b)

  unfoldable pub succeeded : Breaker → Breaker
  unfolding close
  succeeded b = if is b.state half_open then close b else record b { failures = 0 }

  -- The count of failures that a call outside half-open leaves, and what it may trip.
  abbrev pub tripped : ℕ → Breaker → Breaker
  tripped now b = if leb c.failure_threshold b.failures then open_at now b else b

  unfoldable pub failed : ℕ → Breaker → Breaker
  unfolding open_at
  failed now b =
      if is b.state half_open
      then open_at now b
      else tripped now (record b { failures = suc b.failures })

  -- One call of the breaker, with its readings of the clock.
  pub data Call : Type 0 where
    proceeds : ℕ → ℕ → Call
    succeeds : Call
    fails : ℕ → Call

  unfoldable pub step : Call → Breaker → Breaker
  unfolding can_proceed succeeded failed
  step (proceeds now later) b = (can_proceed now later b).0
  step succeeds b = succeeded b
  step (fails now) b = failed now b

  unfoldable pub run : List Call → Breaker → Breaker
  unfolding step
  run [] b = b
  run (e ∷ es) b = run es (step e b)
