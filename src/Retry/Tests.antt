-- ===== src/Retry/Tests.antt =====
-- A policy whose operation always fails, and the theorems at it.
use platform_ts.Retry.{RetryConfig}
use platform_ts.Retry.Backoff.{backoff_delay, backoff_delay_bounds, backoff_delay_exact}
use platform_ts.Retry.Policy.{Runtime, threw, running, run}
use platform_ts.Retry.Attempts.{IsCounted, KeepsFailing, run_bounded, run_exhausted}
use platform_ts.Prelude.{
  ℕ, suc, ◌+◌, ◌*◌, ◌^◌, ◌≤◌, min, String, ◌≡◌, refl, ◌≢◌, inr, true, none, arith,
}

abbrev config : RetryConfig
config = record {
  max_attempts = 3;
  base_delay_ms = 100;
  max_delay_ms = 30000;
  jitter = 1;
  jitter_unit = 10;
  max_elapsed_ms = 0;
}

-- The world counts the calls.
abbrev failing : Runtime ℕ String
failing = record {
  World = ℕ;
  operation = λ w. (suc w, inr "no");
  should_retry = λ e n. true;
  now = λ w. (w, 5);
  random = λ w. (w, 7);
  sleep = λ ms w. (w, none);
  aborted = λ w. none;
}

failing-IsCounted : IsCounted failing config (λ w. w)
failing-IsCounted = record {
  counts = λ w. refl;
  now_keeps = λ w. refl;
  random_keeps = λ w. refl;
  sleep_keeps = λ ms w. refl;
}

failing-KeepsFailing : KeepsFailing failing config failing-IsCounted
failing-KeepsFailing = record {
  fails = λ w. ("no", refl);
  retryable = λ e n. refl;
  unaborted = λ w. refl;
  sleeps = λ ms w. refl;
}

run_bounded_example : let (w, end) = run failing config 3 0 in (end ≢ running) × (w ≤ 0 + 3)
run_bounded_example = run_bounded failing config failing-IsCounted 3 0 (omega arith) (omega arith)

run_exhausted_example :
    let (w, end) = run failing config 3 0 in (w ≡ 3) × ((e : String) × (end ≡ threw e))
run_exhausted_example =
    run_exhausted failing config failing-IsCounted 3 0 failing-KeepsFailing refl (omega arith)
      (omega arith)

backoff_delay_bounds_example :
    let d = backoff_delay config 1 7 in
    (d ≤ min (100 * 2 ^ 1) 30000) × (2 * (min (100 * 2 ^ 1) 30000 * 9) ≤ (2 * d + 1) * 10)
backoff_delay_bounds_example =
    backoff_delay_bounds config 1 7 (omega arith) (omega arith) (omega arith)

backoff_delay_exact_example :
    backoff_delay (record config { jitter = 0 }) 1 7 ≡ min (100 * 2 ^ 1) 30000
backoff_delay_exact_example =
    backoff_delay_exact (record config { jitter = 0 }) 1 7 refl (omega arith) (omega arith)
