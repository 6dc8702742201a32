-- ===== src/Retry/Attempts.antt =====
-- How often an operation is tried.
use platform_ts.Retry.{RetryConfig}
use platform_ts.Retry.Backoff.{backoff_delay}
use platform_ts.Retry.Policy.{
  Runtime, Outcome, returned, threw, running, after_failure, attempts, run,
}
use platform_ts.Prelude.{
  ℕ, zero, suc, ◌+◌, ◌-◌, ◌≤◌, ◌<◌, ◌≡◌, refl, ◌∙◌, ◌≢◌, ◌⊎◌, inl, inr, true, none, some, arith,
  dec_lt, Option-cases,
}

pub Sum-cases : {A B : Type 0} (x : A ⊎ B) → ((a : A) × (x ≡ inl a)) ⊎ ((b : B) × (x ≡ inr b))
Sum-cases (inl a) = inl (a, refl)
Sum-cases (inr b) = inr (b, refl)

module _ {T Err : Type 0} (s : Runtime T Err) (cfg : RetryConfig) where
  -- The operation counts its calls, and nothing else changes the count.
  pub record IsCounted (calls : s.World → ℕ) : Type 0 where
    pub counts : (w : s.World) → calls (s.operation w).0 ≡ suc (calls w)
    pub now_keeps : (w : s.World) → calls (s.now w).0 ≡ calls w
    pub random_keeps : (w : s.World) → calls (s.random w).0 ≡ calls w
    pub sleep_keeps : (ms : ℕ) (w : s.World) → calls (s.sleep ms w).0 ≡ calls w

  attempts_cut :
      (fuel start attempt : ℕ) (w : s.World) (e : Err)
      → s.aborted w ≡ some e
      → attempts s cfg (suc fuel) start attempt w ≡ (w, threw e)
  unfolding attempts
  attempts_cut fuel start attempt w e cut = ground (arith, cut)

  attempts_done :
      (fuel start attempt : ℕ) (w : s.World) (x : T)
      → s.aborted w ≡ none
      → (s.operation w).1 ≡ inl x
      → attempts s cfg (suc fuel) start attempt w ≡ ((s.operation w).0, returned x)
  unfolding attempts
  attempts_done fuel start attempt w x on fine = ground (arith, on, fine)

  attempts_failed :
      (fuel start attempt : ℕ) (w : s.World) (e : Err)
      → s.aborted w ≡ none
      → (s.operation w).1 ≡ inr e
      → attempts s cfg (suc fuel) start attempt w
        ≡ after_failure s cfg
            (attempts s cfg fuel start (suc attempt))
            start
            (suc attempt)
            e
            (s.operation w).0
  unfolding attempts
  attempts_failed fuel start attempt w e on failed = ground (arith, on, failed)

  module _ {calls : s.World → ℕ} (v : IsCounted calls) where
    -- A run that ends, and calls the operation no more than `n` times.
    abbrev EndsWithin : ℕ → s.World → s.World × Outcome T Err → Type 0
    EndsWithin n w end = (end.1 ≢ running) × (calls end.0 ≤ calls w + n)

    after_failure-EndsWithin :
        (again : s.World → s.World × Outcome T Err) (start attempt : ℕ) (err : Err) (w : s.World)
        → ((w' : s.World)
            → attempt < cfg.max_attempts
            → EndsWithin (cfg.max_attempts - attempt) w' (again w'))
        → EndsWithin (cfg.max_attempts - attempt) w (after_failure s cfg again start attempt err w)
    unfolding after_failure
    after_failure-EndsWithin again start attempt err w ih =
        let drawn = s.random w in
        let delay = backoff_delay cfg (attempt - 1) drawn.1 in
        let read = s.now drawn.0 in
        let slept = s.sleep delay read.0 in
        let slept' = s.sleep delay drawn.0 in
        ground (
          arith,
          v.random_keeps w,
          v.now_keeps drawn.0,
          v.sleep_keeps delay read.0,
          v.sleep_keeps delay drawn.0,
          ih slept.0,
          ih slept'.0,
        )

    attempts-EndsWithin :
        (fuel start attempt : ℕ) (w : s.World)
        → attempt < cfg.max_attempts
        → cfg.max_attempts ≤ attempt + fuel
        → EndsWithin (cfg.max_attempts - attempt) w (attempts s cfg fuel start attempt w)
    attempts-EndsWithin zero start attempt w h k = absurd (omega arith)
    attempts-EndsWithin (suc fuel) start attempt w h k =
        let called = s.operation w in
        elim (Option-cases (s.aborted w)) [
          | inr (e, cut) ↦ rw (attempts_cut fuel start attempt w e cut) (λ e. cc, omega arith)
          | inl on ↦ elim (Sum-cases called.1) [
            | inl (x, fine) ↦
                rw (attempts_done fuel start attempt w x on fine)
                  (λ e. cc, omega (arith, v.counts w))
            | inr (err, failed) ↦
                let rest =
                  after_failure-EndsWithin (attempts s cfg fuel start (suc attempt)) start
                    (suc attempt) err called.0
                    (λ w' l. attempts-EndsWithin fuel start (suc attempt) w' l (omega arith)) in
                rw (attempts_failed fuel start attempt w err on failed)
                  (rest.0, omega (arith, rest.1, v.counts w))
          ]
        ]

    -- A run ends within the configured number of attempts: it gives the operation's result or an
    -- error, and calls the operation no more often than that.
    pub run_bounded :
        (fuel : ℕ) (w : s.World)
        → 0 < cfg.max_attempts
        → cfg.max_attempts ≤ fuel
        → let (w', end) = run s cfg fuel w in
          (end ≢ running) × (calls w' ≤ calls w + cfg.max_attempts)
    unfolding run
    run_bounded fuel w h k =
        let rest = attempts-EndsWithin fuel (s.now w).1 0 (s.now w).0 h (omega arith) in
        (rest.0, omega (arith, rest.1, v.now_keeps w))

    -- An operation that keeps failing in a way that is worth a retry.
    pub record KeepsFailing : Type 0 where
      pub fails : (w : s.World) → (e : Err) × ((s.operation w).1 ≡ inr e)
      pub retryable : (e : Err) (n : ℕ) → s.should_retry e n ≡ true
      pub unaborted : (w : s.World) → s.aborted w ≡ none
      pub sleeps : (ms : ℕ) (w : s.World) → (s.sleep ms w).1 ≡ none

    after_failure_again :
        KeepsFailing
        → cfg.max_elapsed_ms ≡ 0
        → (again : s.World → s.World × Outcome T Err) (start attempt : ℕ) (err : Err) (w : s.World)
        → attempt < cfg.max_attempts
        → (w' : s.World) × (calls w' ≡ calls w)
          × (after_failure s cfg again start attempt err w ≡ again w')
    unfolding after_failure
    after_failure_again f unlimited again start attempt err w h =
        let drawn = s.random w in
        let delay = backoff_delay cfg (attempt - 1) drawn.1 in
        (
          (s.sleep delay drawn.0).0,
          v.sleep_keeps delay drawn.0 ∙ v.random_keeps w,
          ground (arith, f.retryable err attempt, f.unaborted w, f.sleeps delay drawn.0),
        )

    after_failure_last :
        KeepsFailing
        → (again : s.World → s.World × Outcome T Err) (start attempt : ℕ) (err : Err) (w : s.World)
        → cfg.max_attempts ≤ attempt
        → after_failure s cfg again start attempt err w ≡ (w, threw err)
    unfolding after_failure
    after_failure_last f again start attempt err w h =
        ground (arith, f.retryable err attempt, f.unaborted w)

    attempts_exhausted :
        KeepsFailing
        → cfg.max_elapsed_ms ≡ 0
        → (fuel start attempt : ℕ) (w : s.World) → attempt < cfg.max_attempts
        → cfg.max_attempts ≤ attempt + fuel
        → let (w', end) = attempts s cfg fuel start attempt w in
          (calls w' ≡ calls w + (cfg.max_attempts - attempt)) × ((e : Err) × (end ≡ threw e))
    attempts_exhausted f unlimited zero start attempt w h k = absurd (omega arith)
    attempts_exhausted f unlimited (suc fuel) start attempt w h k =
        let called = s.operation w in
        let (err, failed) = f.fails w in
        rw (attempts_failed fuel start attempt w err (f.unaborted w) failed)
          (elim (dec_lt (suc attempt) cfg.max_attempts) [
            | yes more ↦
                let (w', same, next) =
                  after_failure_again f unlimited (attempts s cfg fuel start (suc attempt)) start
                    (suc attempt) err called.0 more in
                let rest =
                  attempts_exhausted f unlimited fuel start (suc attempt) w' more (omega arith) in
                rw next (omega (arith, rest.0, same, v.counts w), rest.1)
            | no last ↦
                rw
                  (after_failure_last f (attempts s cfg fuel start (suc attempt)) start
                    (suc attempt) err called.0 (omega arith))
                  (omega (arith, v.counts w), (err, refl))
          ])

    -- Without a limit on the time, an operation that keeps failing in a way that is worth a retry is
    -- called exactly the configured number of times, and then an error of it is thrown.
    pub run_exhausted :
        (fuel : ℕ) (w : s.World)
        → KeepsFailing
        → cfg.max_elapsed_ms ≡ 0
        → 0 < cfg.max_attempts
        → cfg.max_attempts ≤ fuel
        → let (w', end) = run s cfg fuel w in
          (calls w' ≡ calls w + cfg.max_attempts) × ((e : Err) × (end ≡ threw e))
    unfolding run
    run_exhausted fuel w f unlimited h k =
        let rest = attempts_exhausted f unlimited fuel (s.now w).1 0 (s.now w).0 h (omega arith) in
        (omega (arith, rest.0, v.now_keeps w), rest.1)
