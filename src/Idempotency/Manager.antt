-- ===== src/Idempotency/Manager.antt =====
-- packages/idempotency/src/manager.node.ts: IdempotencyManager.run and its parts. Logs and span
-- attributes are not kept. `fuel` bounds the wait for the claim lock.
pub mod Answers
use platform_ts.Idempotency.Key.{validate_key}
use platform_ts.Idempotency.Records.{
  record_version, RecordState, in_flight, completed, unknown, IdempotencyRecord, IdempotentResult,
  executed, replayed, pending, fingerprint_mismatch, Failure, bad_key, fingerprint_required,
  store_unavailable, fault, hung, Outcome, was_executed, was_replayed, was_in_flight, was_mismatch,
}
use platform_ts.Idempotency.Services.{
  Services, Session, Result, ok, err, Run, ◌>>=◌, ◌>>◌, pure, throw, call, or_fault, note, catch,
}
use platform_ts.Idempotency.WithLock.{WithLockOptions, with_lock}
use Prim.Native.String.{◌++◌ as str_append}
use platform_ts.Prelude.{
  ℕ, suc, String, ite, Bool, true, false, not, Option, none, some, ◌∷◌, ◌++◌, string_discrete, ltb,
  ◌==◌, if◌then◌else◌,
}

pub record Config : Type 0 where
  pub key_prefix : String
  pub ttl_ms : ℕ
  pub in_flight_ttl_ms : ℕ
  pub max_key_length : ℕ
  pub fail_open : Bool
  pub lock : WithLockOptions

abbrev pub store_key : Config → String → String
store_key cfg key = str_append cfg.key_prefix key

abbrev pub lock_key : Config → String → String
lock_key cfg key = str_append cfg.key_prefix (str_append "lock:" key)

pub data Claim (T : Type 0) : Type 0 where
  claimed : String → Claim T
  existing : IdempotencyRecord T → Claim T
  contended : Claim T

module _ {W : Type 0} where
  abbrev pub count : Outcome → Run W (Unit {0})
  count o = note (λ z. record z { requests = o ∷ z.requests })

  abbrev pub count_store_error : Run W (Unit {0})
  count_store_error = note (λ z. record z { store_errors = suc z.store_errors })

  abbrev pub count_stale : Run W (Unit {0})
  count_stale = note (λ z. record z { stale_records = suc z.stale_records })

  abbrev pub count_lost : Run W (Unit {0})
  count_lost = note (λ z. record z { claims_lost = suc z.claims_lost })

  abbrev pub count_record_failure : Run W (Unit {0})
  count_record_failure = note (λ z. record z { record_failures = suc z.record_failures })

  -- `#resolve`, by the state once the fingerprints agree.
  unfoldable pub resolve_state : {T : Type 0} → RecordState → Option T → Run W (IdempotentResult T)
  resolve_state completed value = do count was_replayed; pure (replayed value)
  resolve_state in_flight value = do count was_in_flight; pure pending
  resolve_state unknown value = do count_stale; count was_in_flight; pure pending

  unfoldable pub resolve : {T : Type 0} → IdempotencyRecord T → String → Run W (IdempotentResult T)
  unfolding resolve_state
  resolve r fingerprint =
      ite (string_discrete r.fingerprint fingerprint) (resolve_state r.state r.value)
        (do count was_mismatch; pure fingerprint_mismatch)

-- The record of a claim, and that of a result.
abbrev pub in_flight_record : {T : Type 0} → ℕ → String → String → IdempotencyRecord T
in_flight_record created fingerprint claim_id = record {
  version = record_version;
  state = in_flight;
  created_at = created;
  fingerprint = fingerprint;
  claim_id = claim_id;
  value = none;
}

abbrev pub completed_record : {T : Type 0} → ℕ → String → String → T → IdempotencyRecord T
completed_record created fingerprint claim_id value = record {
  version = record_version;
  state = completed;
  created_at = created;
  fingerprint = fingerprint;
  claim_id = claim_id;
  value = some value;
}

module _ {T : Type 0} (s : Services T) (cfg : Config) where
  unfoldable pub load : String → Run s.World (Option (IdempotencyRecord T))
  load key = do
    answer ← call (s.store_get key)
    elim answer [
      | none ↦ do count_store_error; if cfg.fail_open then pure none else throw store_unavailable
      | some none ↦ pure none
      | some (some r) ↦
          if r.version == record_version then pure (some r) else do count_stale; pure none
    ]

  -- What `#claim` does under the lock.
  unfoldable pub claim_locked : String → String → Run s.World (Claim T)
  unfolding load
  claim_locked key fingerprint = do
    found ← load key
    elim found [
      | some r ↦ pure (existing r)
      | none ↦ do
        claim_id ← call s.new_claim_id
        created ← call s.now
        answer ←
            call
              (s.store_set key (in_flight_record created fingerprint claim_id) cfg.in_flight_ttl_ms)
        or_fault answer
        pure (claimed claim_id)
    ]

  -- The handler of `#claim`.
  claim_failed : {A : Type 0} → Failure → Run s.World A
  claim_failed store_unavailable = throw store_unavailable
  claim_failed _ = do count_store_error; throw store_unavailable

  or_contended : Option (Claim T) → Claim T
  or_contended none = contended
  or_contended (some c) = c

  unfoldable pub claim : ℕ → String → String → Run s.World (Claim T)
  unfolding claim_failed or_contended
  claim fuel key fingerprint = do
    attempt ←
        catch
          (with_lock s fuel cfg.lock (lock_key cfg key)
            (claim_locked (store_key cfg key) fingerprint))
          claim_failed
    pure (or_contended attempt)

  abbrev owned_by : String → Option (IdempotencyRecord T) → Bool
  owned_by claim_id none = false
  owned_by claim_id (some r) = ite (string_discrete r.claim_id claim_id) true false

  unfoldable pub still_ours : String → String → Run s.World Bool
  unfolding load
  still_ours key claim_id =
      catch
        (do
          found ← load key
          if owned_by claim_id found then pure true else do count_lost; pure false)
        (λ _. do count_record_failure; pure false)

  unfoldable pub commit : String → String → String → T → ℕ → Run s.World (Unit {0})
  unfolding still_ours
  commit key claim_id fingerprint value ttl = do
    ours ← still_ours key claim_id
    if ours
        then (do
          created ← call s.now
          answer ← call (s.store_set key (completed_record created fingerprint claim_id value) ttl)
          elim answer [ none ↦ count_record_failure | some _ ↦ pure tt ])
        else pure tt

  unfoldable pub release : String → String → Run s.World (Unit {0})
  unfolding still_ours
  release key claim_id = do
    ours ← still_ours key claim_id
    if ours then (do answer ← call (s.store_delete key); pure tt) else pure tt

  -- The work under a claim, and what becomes of the claim.
  unfoldable pub execute : String → String → String → ℕ → Run s.World (IdempotentResult T)
  unfolding commit release
  execute key claim_id fingerprint ttl = do
    answer ← call s.work
    elim answer [
      | none ↦ do release key claim_id; throw fault
      | some value ↦
          if s.recordable value
          then (do
            commit key claim_id fingerprint value ttl
            count was_executed
            pure (executed value))
          else (do release key claim_id; count was_executed; pure (executed value))
    ]

  unfoldable pub proceed : Claim T → String → String → ℕ → Run s.World (IdempotentResult T)
  proceed (existing r) key fingerprint ttl = resolve r fingerprint
  proceed contended key fingerprint ttl = do count was_in_flight; pure pending
  proceed (claimed claim_id) key fingerprint ttl = execute key claim_id fingerprint ttl

  -- `options.ttlMs`, or the configured one.
  abbrev pub retention : Option ℕ → ℕ
  retention none = cfg.ttl_ms
  retention (some ms) = if ltb 0 ms then ms else cfg.ttl_ms

  -- `run` past its first read.
  unfoldable pub after_read :
      ℕ
      → String
      → String
      → Option ℕ
      → Option (IdempotencyRecord T)
      → Run s.World (IdempotentResult T)
  after_read fuel key fingerprint ttl (some r) = resolve r fingerprint
  after_read fuel key fingerprint ttl none = do
    c ← claim fuel key fingerprint
    proceed c (store_key cfg key) fingerprint (retention ttl)

  -- `run` past its checks of the key and the fingerprint.
  unfoldable pub run_checked : ℕ → String → String → Option ℕ → Run s.World (IdempotentResult T)
  unfolding after_read
  run_checked fuel key fingerprint ttl = do
    found ← load (store_key cfg key)
    after_read fuel key fingerprint ttl found

  unfoldable pub run : ℕ → String → String → Option ℕ → Run s.World (IdempotentResult T)
  run fuel key fingerprint ttl = elim (validate_key key cfg.max_key_length) [
    | some e ↦ throw (bad_key e)
    | none ↦
        ite (string_discrete fingerprint "") (throw fingerprint_required)
          (run_checked fuel key fingerprint ttl)
  ]
