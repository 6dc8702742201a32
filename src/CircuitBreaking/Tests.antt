-- ===== src/CircuitBreaking/Tests.antt =====
-- Runs of the breaker, and the theorems at concrete inputs.
use platform_ts.Prelude.{◌≡◌, refl, true, false, some, [], ◌∷◌, map, arith, string_ne}
use platform_ts.CircuitBreaking.{
  Config, Breaker, fresh, proceeds, succeeds, fails, run, can_proceed, closed, opened, half_open,
}
use platform_ts.CircuitBreaking.States.{IsValid, run-fresh-IsValid, run-fails-state}
use platform_ts.CircuitBreaking.Probes.{
  attempts, attempts-opened, attempts-half_open, stalled_recovers,
}
use platform_ts.CircuitBreaking.Partitions.{
  call_partition, call_partition_self, call_partition_ne, breaker_of,
}
use platform_ts.OrderedMap

abbrev config : Config
config = record { failure_threshold = 2; open_duration_ms = 100; half_open_max_attempts = 1 }

abbrev tripped : Breaker
tripped = record {
  state = opened;
  failures = 2;
  opened_at = 10;
  half_open_at = 0;
  half_open_attempts = 0;
  transitions = (closed, opened) ∷ [];
  gauge = 2;
  rejections = 0;
}

abbrev probing : Breaker
probing = record {
  state = half_open;
  failures = 2;
  opened_at = 10;
  half_open_at = 110;
  half_open_attempts = 0;
  transitions = (opened, half_open) ∷ (closed, opened) ∷ [];
  gauge = 1;
  rejections = 0;
}

trips_at_threshold : run config (fails 5 ∷ fails 10 ∷ []) fresh ≡ tripped
unfolding run fresh
trips_at_threshold = refl

recovers : (run config (fails 5 ∷ fails 10 ∷ proceeds 110 110 ∷ succeeds ∷ []) fresh).state ≡ closed
unfolding run fresh
recovers = refl

run-fresh-IsValid_example :
    IsValid config (run config (fails 5 ∷ fails 10 ∷ proceeds 110 110 ∷ []) fresh)
run-fresh-IsValid_example =
    run-fresh-IsValid config (fails 5 ∷ fails 10 ∷ proceeds 110 110 ∷ []) (omega arith)

run-fails-state_example : (run config (map fails (5 ∷ 10 ∷ [])) fresh).state ≡ opened
unfolding fresh
run-fails-state_example = run-fails-state config (5 ∷ 10 ∷ []) fresh refl (omega arith)

attempts-opened_example :
    attempts config ((20, 20) ∷ (109, 109) ∷ []) tripped ≡ (record tripped { rejections = 2 }, 0)
attempts-opened_example =
    attempts-opened config ((20, 20) ∷ (109, 109) ∷ []) tripped refl (omega arith)

attempts-half_open_example : (attempts config ((120, 120) ∷ (121, 121) ∷ []) probing).1 ≡ 1
attempts-half_open_example =
    attempts-half_open config ((120, 120) ∷ (121, 121) ∷ []) probing refl (omega arith)

stalled_recovers_example :
    let b = record probing { half_open_attempts = 1 } in
    let (b', first) = can_proceed config 210 211 b in
    let (b'', second) = can_proceed config 311 312 b' in
    (first ≡ false) × (b'.state ≡ opened) × (second ≡ true) × (b''.half_open_attempts ≡ 1)
stalled_recovers_example =
    stalled_recovers config 210 211 311 312 (record probing { half_open_attempts = 1 }) refl
      (omega arith) (omega arith) (omega arith) (omega arith)

call_partition_self_example :
    OrderedMap.get "db" (call_partition config "db" succeeds [])
    ≡ some (run config (succeeds ∷ []) (breaker_of "db" []))
unfolding run
call_partition_self_example = call_partition_self config "db" succeeds []

call_partition_ne_example :
    OrderedMap.get "api" (call_partition config "db" (fails 3) (("api", tripped) ∷ []))
    ≡ OrderedMap.get "api" (("api", tripped) ∷ [])
call_partition_ne_example =
    call_partition_ne config "db" "api" (fails 3) (("api", tripped) ∷ [])
      (string_ne "db" "api" refl)
