-- ===== src/Idempotency/Manager/Answers.antt =====
-- How the manager answers from what is stored, and the ends of its methods.
use platform_ts.Idempotency.Key.{validate_key}
use platform_ts.Idempotency.Records.{
  record_version, RecordState, in_flight, completed, unknown, IdempotencyRecord, IdempotentResult,
  replayed, pending, fingerprint_mismatch, store_unavailable,
}
use platform_ts.Idempotency.Services.{Services, Session, ok, err}
use platform_ts.Idempotency.WithLock.{Ends, IsTimed, with_lock_ends, >>=-Ends}
use platform_ts.Idempotency.Manager.{
  Config, store_key, resolve, load, claim_locked, execute, run_checked, run, resolve_state, claim,
  proceed, hung, Claim, existing, lock_key, claimed, contended, retention, after_read,
}
use platform_ts.Prelude.{
  ℕ, suc, ◌+◌, ◌<◌, String, ◌≡◌, refl, ◌≢◌, ite, false, Option, none, some, arith, string_discrete,
}

-- What a record says to a request: another request's record is reported as such whatever its
-- state, a completed one is replayed, and any other is still in flight.
abbrev answer_state : {T : Type 0} → RecordState → Option T → IdempotentResult T
answer_state completed value = replayed value
answer_state in_flight value = pending
answer_state unknown value = pending

abbrev pub answer : {T : Type 0} → IdempotencyRecord T → String → IdempotentResult T
answer r fingerprint =
    ite (string_discrete r.fingerprint fingerprint) (answer_state r.state r.value)
      fingerprint_mismatch

module _ {T : Type 0} (s : Services T) (cfg : Config) where
  state-answer :
      (state : RecordState) (value : Option T) (z : Session s.World)
      → ((resolve_state state value z).1 ≡ ok (answer_state state value))
        × ((resolve_state state value z).0.world ≡ z.world)
  unfolding resolve_state
  state-answer completed value z = (refl, refl)
  state-answer in_flight value z = (refl, refl)
  state-answer unknown value z = (refl, refl)

  resolve-answer :
      (r : IdempotencyRecord T) (fingerprint : String) (z : Session s.World)
      → ((resolve r fingerprint z).1 ≡ ok (answer r fingerprint))
        × ((resolve r fingerprint z).0.world ≡ z.world)
  unfolding resolve
  resolve-answer r fingerprint z = ground (arith, state-answer r.state r.value z)

  -- Past the checks.
  pub run-checked :
      (fuel : ℕ) (key fingerprint : String) (ttl : Option ℕ) (z : Session s.World)
      → validate_key key cfg.max_key_length ≡ none
      → fingerprint ≢ ""
      → run s cfg fuel key fingerprint ttl z ≡ run_checked s cfg fuel key fingerprint ttl z
  unfolding run
  run-checked fuel key fingerprint ttl z valid given = ground arith

  -- With a usable key and a fingerprint, a record of this version that the first read finds decides
  -- the answer, and nothing but that read is done: no lock, no write and no work.
  pub run-stored :
      (fuel : ℕ) (key fingerprint : String) (ttl : Option ℕ) (z : Session s.World)
      (r : IdempotencyRecord T)
      → validate_key key cfg.max_key_length ≡ none
      → fingerprint ≢ ""
      → (s.store_get (store_key cfg key) z.world).1 ≡ some (some r)
      → r.version ≡ record_version
      → let (z', result) = run s cfg fuel key fingerprint ttl z in
        (result ≡ ok (answer r fingerprint))
        × (z'.world ≡ (s.store_get (store_key cfg key) z.world).0)
  unfolding run_checked load
  run-stored fuel key fingerprint ttl z r valid given found same =
      rw (run-checked fuel key fingerprint ttl z valid given) (
        ground (
          arith,
          found,
          same,
          resolve-answer r fingerprint
              (record z { world = (s.store_get (store_key cfg key) z.world).0 }),
        ))

  -- If the first read fails and the manager fails closed, the request is refused as such, and again
  -- nothing but that read is done.
  pub run-store_down :
      (fuel : ℕ) (key fingerprint : String) (ttl : Option ℕ) (z : Session s.World)
      → validate_key key cfg.max_key_length ≡ none
      → fingerprint ≢ ""
      → (s.store_get (store_key cfg key) z.world).1 ≡ none
      → cfg.fail_open ≡ false
      → run s cfg fuel key fingerprint ttl z ≡ (
        record z {
          world = (s.store_get (store_key cfg key) z.world).0;
          store_errors = suc z.store_errors;
        },
        err store_unavailable,
      )
  unfolding run_checked load
  run-store_down fuel key fingerprint ttl z valid given down closed =
      rw (run-checked fuel key fingerprint ttl z valid given) (ground (arith, down, closed))

  load-Ends : (key : String) → Ends s (load s cfg key)
  unfolding load
  load-Ends key z = λ e. ground arith

  resolve-Ends : (r : IdempotencyRecord T) (fingerprint : String) → Ends s (resolve r fingerprint)
  unfolding resolve
  resolve-Ends r fingerprint z = λ e. ground (arith, (resolve-answer r fingerprint z).0)

  claim_locked-Ends : (key fingerprint : String) → Ends s (claim_locked s cfg key fingerprint)
  unfolding claim_locked
  claim_locked-Ends key fingerprint z = λ e. ground arith

  execute-Ends :
      (key claim_id fingerprint : String) (ttl : ℕ)
      → Ends s (execute s cfg key claim_id fingerprint ttl)
  unfolding execute
  execute-Ends key claim_id fingerprint ttl z = λ e. ground arith

  module _ {time : s.World → ℕ} (clock : IsTimed s time) (polls : 0 < cfg.lock.poll_ms) (fuel : ℕ)
      (enough : cfg.lock.wait_ms + 1 < fuel) where
    claim-Ends : (key fingerprint : String) → Ends s (claim s cfg fuel key fingerprint)
    unfolding claim
    claim-Ends key fingerprint z = λ e. ground (
      arith,
      with_lock_ends s clock cfg.lock (lock_key cfg key)
          (claim_locked s cfg (store_key cfg key) fingerprint) polls
          (claim_locked-Ends (store_key cfg key) fingerprint) fuel z enough,
    )

    proceed-Ends :
        (c : Claim T) (key fingerprint : String) (ttl : ℕ)
        → Ends s (proceed s cfg c key fingerprint ttl)
    unfolding proceed
    proceed-Ends (existing r) key fingerprint ttl z = resolve-Ends r fingerprint z
    proceed-Ends contended key fingerprint ttl z = λ e. cc
    proceed-Ends (claimed claim_id) key fingerprint ttl z =
        execute-Ends key claim_id fingerprint ttl z

    after_read-Ends :
        (key fingerprint : String) (ttl : Option ℕ) (found : Option (IdempotencyRecord T))
        → Ends s (after_read s cfg fuel key fingerprint ttl found)
    unfolding after_read
    after_read-Ends key fingerprint ttl (some r) = resolve-Ends r fingerprint
    after_read-Ends key fingerprint ttl none =
        >>=-Ends s (claim s cfg fuel key fingerprint)
          (λ c. proceed s cfg c (store_key cfg key) fingerprint (retention s cfg ttl))
          (claim-Ends key fingerprint)
          (λ c. proceed-Ends c (store_key cfg key) fingerprint (retention s cfg ttl))

    run_checked-Ends :
        (key fingerprint : String) (ttl : Option ℕ)
        → Ends s (run_checked s cfg fuel key fingerprint ttl)
    unfolding run_checked
    run_checked-Ends key fingerprint ttl =
        >>=-Ends s (load s cfg (store_key cfg key)) (after_read s cfg fuel key fingerprint ttl)
          (load-Ends (store_key cfg key)) (after_read-Ends key fingerprint ttl)

    -- Every request is answered, whatever the store, the locker and the work do: the only loop is
    -- the wait for the claim lock, and it ends as the clock and the delays move on.
    pub run_ends :
        (key fingerprint : String) (ttl : Option ℕ) (z : Session s.World)
        → (run s cfg fuel key fingerprint ttl z).1 ≢ err hung
    unfolding run
    run_ends key fingerprint ttl z = λ e. ground (arith, run_checked-Ends key fingerprint ttl z)
