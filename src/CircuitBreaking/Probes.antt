-- ===== src/CircuitBreaking/Probes.antt =====
-- The attempts that a breaker lets through while open and while half-open.
use platform_ts.Prelude.{
  ℕ, suc, ◌+◌, ◌-◌, ◌≤◌, ◌<◌, min, ◌≡◌, true, false, List, [], ◌∷◌, arith, dec_lt, if◌then◌else◌,
  length, All,
}
use platform_ts.CircuitBreaking.{half_open, opened, Config, Breaker, can_proceed}

-- Attempts one after another, each with its readings of the clock, and how many were let through.
pub attempts : Config → List (ℕ × ℕ) → Breaker → Breaker × ℕ
attempts c [] b = (b, 0)
attempts c ((now, later) ∷ ts) b =
    let (b', let_through) = can_proceed c now later b in
    let (b'', n) = attempts c ts b' in (b'', if let_through then suc n else n)

module _ (c : Config) where
  abbrev pub AllBefore : ℕ → List (ℕ × ℕ) → Type 0
  AllBefore deadline = All (λ t. t.0 < deadline)

  cooling :
      (now later : ℕ) (b : Breaker)
      → b.state ≡ opened
      → now < b.opened_at + c.open_duration_ms
      → can_proceed c now later b ≡ (record b { rejections = suc b.rejections }, false)
  unfolding can_proceed
  cooling now later b h k = ground arith

  -- While an open breaker cools down, every attempt is turned away and counted, and nothing else
  -- of it changes.
  pub attempts-opened :
      (ts : List (ℕ × ℕ)) (b : Breaker)
      → b.state ≡ opened
      → AllBefore (b.opened_at + c.open_duration_ms) ts
      → attempts c ts b ≡ (record b { rejections = b.rejections + length ts }, 0)
  unfolding attempts
  attempts-opened [] b h k = ground arith
  attempts-opened ((now, later) ∷ ts) b h (k, ks) =
      rw (cooling now later b h k)
        (rw (attempts-opened ts (record b { rejections = suc b.rejections }) h ks) (ground arith))

  probing :
      (now later : ℕ) (b : Breaker)
      → b.state ≡ half_open
      → now < b.half_open_at + c.open_duration_ms
      → b.half_open_attempts < c.half_open_max_attempts
      → can_proceed c now later b
        ≡ (record b { half_open_attempts = suc b.half_open_attempts }, true)
  unfolding can_proceed
  probing now later b h k p = ground arith

  spent :
      (now later : ℕ) (b : Breaker)
      → b.state ≡ half_open
      → now < b.half_open_at + c.open_duration_ms
      → c.half_open_max_attempts ≤ b.half_open_attempts
      → can_proceed c now later b ≡ (record b { rejections = suc b.rejections }, false)
  unfolding can_proceed
  spent now later b h k p = ground arith

  -- Until the cooldown has passed again, a half-open breaker lets through exactly the probes that
  -- are left, however many attempts there are.
  pub attempts-half_open :
      (ts : List (ℕ × ℕ)) (b : Breaker)
      → b.state ≡ half_open
      → AllBefore (b.half_open_at + c.open_duration_ms) ts
      → (attempts c ts b).1 ≡ min (length ts) (c.half_open_max_attempts - b.half_open_attempts)
  unfolding attempts
  attempts-half_open [] b h k = omega arith
  attempts-half_open ((now, later) ∷ ts) b h (k, ks) =
      elim (dec_lt b.half_open_attempts c.half_open_max_attempts) [
        | yes p ↦ rw (probing now later b h k p) (
            omega (
              arith,
              attempts-half_open ts (record b { half_open_attempts = suc b.half_open_attempts }) h
                  ks,
            ))
        | no p ↦
            rw (spent now later b h k (omega arith)) (
              omega
                (arith, attempts-half_open ts (record b { rejections = suc b.rejections }) h ks))
      ]

  -- A breaker never stays stuck: if all probes were handed out and none reported back, then an
  -- attempt after the cooldown opens it again, and the next one after a further cooldown is let
  -- through as a fresh probe (if the configuration allows any).
  pub stalled_recovers :
      (now later now' later' : ℕ) (b : Breaker)
      → b.state ≡ half_open
      → c.half_open_max_attempts ≤ b.half_open_attempts
      → b.half_open_at + c.open_duration_ms ≤ now
      → later + c.open_duration_ms ≤ now'
      → 0 < c.half_open_max_attempts
      → let (b', first) = can_proceed c now later b in
        let (b'', second) = can_proceed c now' later' b' in
        (first ≡ false) × (b'.state ≡ opened) × (second ≡ true) × (b''.half_open_attempts ≡ 1)
  unfolding can_proceed
  stalled_recovers now later now' later' b h s t u p = ground arith
