-- ===== src/CircuitBreaking/States.antt =====
-- The state machine of one breaker: its invariant, its legal transitions, and when it rejects.
use platform_ts.Prelude.{
  ℕ, suc, ◌+◌, ◌≤◌, ◌<◌, ◌≡◌, refl, ◌≢◌, List, [], ◌∷◌, map, arith, dec_le, leb, if◌then◌else◌,
  length, All,
}
use platform_ts.CircuitBreaking.{
  State, closed, half_open, opened, state_code, Config, Breaker, fresh, can_proceed, succeeded,
  failed, step, Call, run, fails, proceeds, succeeds,
}

-- The transitions that the code may record. A failure reported while open opens it again.
pub data Legal : State × State → Type 0 where
  trips : Legal (closed, opened)
  cools : Legal (opened, half_open)
  recovers : Legal (half_open, closed)
  relapses : Legal (half_open, opened)
  reopens : Legal (opened, opened)

module _ (c : Config) where
  pub record IsValid (b : Breaker) : Type 0 where
    -- A closed breaker has not reached the threshold.
    pub below : b.state ≡ closed → b.failures < c.failure_threshold
    -- Probes are handed out while half-open only, and no more than configured.
    pub bounded : b.half_open_attempts ≤ c.half_open_max_attempts
    pub idle : b.state ≢ half_open → b.half_open_attempts ≡ 0
    pub gauged : b.gauge ≡ state_code b.state
    pub legal : All Legal b.transitions

  fresh-IsValid : 0 < c.failure_threshold → IsValid fresh
  unfolding fresh
  fresh-IsValid h = record {
    below = λ _. h;
    bounded = omega arith;
    idle = λ _. refl;
    gauged = refl;
    legal = tt;
  }

  can_proceed-IsValid :
      (now later : ℕ) (b : Breaker) → IsValid b → IsValid (can_proceed c now later b).0
  unfolding can_proceed
  can_proceed-IsValid now later b v = grind (arith, cools, relapses)

  succeeded-IsValid : (b : Breaker) → 0 < c.failure_threshold → IsValid b → IsValid (succeeded c b)
  unfolding succeeded
  succeeded-IsValid b h v = grind (arith, recovers)

  failed-IsValid : (now : ℕ) (b : Breaker) → IsValid b → IsValid (failed c now b)
  unfolding failed
  failed-IsValid now b v = grind (arith, trips, relapses, reopens)

  step-IsValid :
      (e : Call c) (b : Breaker) → 0 < c.failure_threshold → IsValid b → IsValid (step c e b)
  unfolding step
  step-IsValid (proceeds now later) b h v = can_proceed-IsValid now later b v
  step-IsValid succeeds b h v = succeeded-IsValid b h v
  step-IsValid (fails now) b h v = failed-IsValid now b v

  run-IsValid_from :
      (es : List (Call c)) (b : Breaker)
      → 0 < c.failure_threshold
      → IsValid b
      → IsValid (run c es b)
  unfolding run
  run-IsValid_from [] b h v = v
  run-IsValid_from (e ∷ es) b h v = run-IsValid_from es (step c e b) h (step-IsValid e b h v)

  -- If the failure threshold is positive, then after any calls on a fresh breaker, at any readings
  -- of the clock: a closed breaker has counted fewer failures than the threshold; no more probes
  -- are out than configured, and none outside half-open; the gauge shows the state; and each
  -- recorded transition is closed to open, open to half-open, half-open to closed or open, or
  -- open to open.
  pub run-fresh-IsValid : (es : List (Call c)) → 0 < c.failure_threshold → IsValid (run c es fresh)
  run-fresh-IsValid es h = run-IsValid_from es fresh h (fresh-IsValid h)

  tripped_once : (now : ℕ) (b : Breaker) → b.state ≡ opened → (failed c now b).state ≡ opened
  unfolding failed
  tripped_once now b h = ground arith

  stays_open :
      (ts : List ℕ) (b : Breaker) → b.state ≡ opened → (run c (map fails ts) b).state ≡ opened
  unfolding run step
  stays_open [] b h = h
  stays_open (t ∷ ts) b h = stays_open ts (failed c t b) (tripped_once t b h)

  one_more :
      (now : ℕ) (b : Breaker)
      → b.state ≡ closed
      → suc b.failures < c.failure_threshold
      → ((failed c now b).state ≡ closed) × ((failed c now b).failures ≡ suc b.failures)
  unfolding failed
  one_more now b h k = ground arith

  last_one :
      (now : ℕ) (b : Breaker)
      → b.state ≡ closed
      → c.failure_threshold ≤ suc b.failures
      → (failed c now b).state ≡ opened
  unfolding failed
  last_one now b h k = ground arith

  -- A closed breaker below its threshold that sees nothing but failures is open as soon as its
  -- count and the new failures together reach the threshold, and closed until then.
  pub run-fails-state :
      (ts : List ℕ) (b : Breaker)
      → b.state ≡ closed
      → b.failures < c.failure_threshold
      → (run c (map fails ts) b).state
        ≡ (if leb c.failure_threshold (b.failures + length ts) then opened else closed)
  unfolding run step
  run-fails-state [] b h k = ground arith
  run-fails-state (t ∷ ts) b h k = elim (dec_le c.failure_threshold (suc b.failures)) [
    | yes p ↦ ground (arith, last_one t b h p, stays_open ts (failed c t b))
    | no p ↦
        let (same, count) = one_more t b h (omega arith) in
        ground (arith, run-fails-state ts (failed c t b) same (omega arith))
  ]
