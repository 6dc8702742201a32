-- ===== src/Idempotency/WithLock.antt =====
-- packages/idempotency/src/with-lock.node.ts. The wait takes fuel, one unit for each attempt.
use platform_ts.Idempotency.Records.{hung, Failure}
use platform_ts.Idempotency.Services.{
  Services, Run, ◌>>=◌, ◌>>◌, pure, throw, call, or_fault, finally, Session, err, Result, ok,
}
use platform_ts.Prelude.{
  ℕ, zero, suc, ◌+◌, ◌≤◌, ◌<◌, String, ◌≡◌, refl, ◌≢◌, ◌⊎◌, inl, inr, Option, none, some, arith,
  leb, if◌then◌else◌, Bool-cases, Option-cases,
}

pub record WithLockOptions : Type 0 where
  pub ttl_ms : ℕ
  pub wait_ms : ℕ
  pub poll_ms : ℕ

Result-cases : {A : Type 0} (r : Result A) → ((a : A) × (r ≡ ok a)) ⊎ ((e : Failure) × (r ≡ err e))
Result-cases (ok a) = inl (a, refl)
Result-cases (err e) = inr (e, refl)

module _ {T : Type 0} (s : Services T) where
  -- `none` is contention.
  unfoldable pub lock_loop :
      {R : Type 0} → ℕ → ℕ → WithLockOptions → String → Run s.World R → Run s.World (Option R)
  lock_loop zero deadline o key body = throw hung
  lock_loop (suc fuel) deadline o key body =
      let again = lock_loop fuel deadline o key body in
      do
        answer ← call (s.lock_acquire key o.ttl_ms)
        held ← or_fault answer
        elim held [
          | some handle ↦
              finally (do value ← body; pure (some value)) (λ w. (s.lock_release handle w).0)
          | none ↦ do
            t ← call s.now
            if leb deadline t then pure none else do call (λ w. (s.sleep o.poll_ms w, tt)); again
        ]

  unfoldable pub with_lock :
      {R : Type 0} → ℕ → WithLockOptions → String → Run s.World R → Run s.World (Option R)
  unfolding lock_loop
  with_lock fuel o key body = do start ← call s.now; lock_loop fuel (start + o.wait_ms) o key body

  -- What the wait needs of the clock: it reads some time that never goes back, and that a delay
  -- moves on by at least its length.
  pub record IsTimed (time : s.World → ℕ) : Type 0 where
    pub now_reads : (w : s.World) → (s.now w).1 ≡ time w
    pub now_keeps : (w : s.World) → time w ≤ time (s.now w).0
    pub sleep_passes : (ms : ℕ) (w : s.World) → time w + ms ≤ time (s.sleep ms w)
    pub acquire_keeps :
        (key : String) (ttl : ℕ) (w : s.World) → time w ≤ time (s.lock_acquire key ttl w).0

  abbrev pub Ends : {A : Type 0} → Run s.World A → Type 0
  Ends m = (z : Session s.World) → (m z).1 ≢ err hung

  pub >>=-Ends :
      {A B : Type 0} (m : Run s.World A) (f : A → Run s.World B)
      → Ends m
      → ((a : A) → Ends (f a))
      → Ends (m >>= f)
  >>=-Ends m f h k z = elim (Result-cases (m z).1) [
    | inl (a, e) ↦ λ stuck. ground (arith, e, k a (m z).0)
    | inr (x, e) ↦ λ stuck. ground (arith, e, h z)
  ]

  module _ {R : Type 0} {time : s.World → ℕ} (clock : IsTimed time) (o : WithLockOptions)
      (key : String) (body : Run s.World R) (polls : 0 < o.poll_ms) (ends : Ends body) where
    held-Ends :
        (h : s.Handle)
        → Ends (finally (do value ← body; pure (some value)) (λ w. (s.lock_release h w).0))
    held-Ends h z = λ e. ground (arith, ends z)

    lock_loop_ends :
        (fuel deadline : ℕ) (z : Session s.World)
        → 0 < fuel
        → deadline < time z.world + fuel
        → (lock_loop fuel deadline o key body z).1 ≢ err hung
    unfolding lock_loop
    lock_loop_ends zero deadline z p h = absurd (omega arith)
    lock_loop_ends (suc fuel) deadline z p h =
        let w = s.lock_acquire key o.ttl_ms z.world in
        let t = s.now w.0 in
        let slept = s.sleep o.poll_ms t.0 in
        let ih = lock_loop_ends fuel deadline (record z { world = slept }) in
        elim (Option-cases w.1) [
          | inl threw ↦ rw threw (λ e. cc)
          | inr (answer, answered) ↦ rw answered (elim (Option-cases answer) [
            | inr (handle, got) ↦ rw got (held-Ends handle (record z { world = w.0 }))
            | inl busy ↦ rw busy (elim (Bool-cases (leb deadline t.1)) [
              | inl over ↦ rw over (λ e. cc)
              | inr left ↦ rw left (
                  let later : t.1 < deadline = ground arith in
                  ih
                    (omega
                      (arith, later, clock.now_reads w.0, clock.acquire_keeps key o.ttl_ms z.world))
                    (omega (
                      arith,
                      later,
                      clock.now_reads w.0,
                      clock.acquire_keeps key o.ttl_ms z.world,
                      clock.now_keeps w.0,
                      clock.sleep_passes o.poll_ms t.0,
                    )))
            ])
          ])
        ]

    -- A wait for a lock comes to an end: as the clock never goes back and each delay moves it on by
    -- at least one unit, an attempt more than the length of the wait, and one for its end, is fuel
    -- enough, if the body ends.
    pub with_lock_ends :
        (fuel : ℕ) (z : Session s.World)
        → o.wait_ms + 1 < fuel
        → (with_lock fuel o key body z).1 ≢ err hung
    unfolding with_lock
    with_lock_ends fuel z h =
        lock_loop_ends fuel ((s.now z.world).1 + o.wait_ms) (record z { world = (s.now z.world).0 })
          (omega arith) (omega (arith, clock.now_reads z.world, clock.now_keeps z.world))
