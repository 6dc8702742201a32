-- ===== src/Idempotency/Tests.antt =====
-- The manager over the memory providers, and the theorems at concrete requests.
use platform_ts.OrderedMap
use platform_ts.Cache.Memory.{Cache}
use platform_ts.Cache.Memory
use platform_ts.Idempotency.Key.{
  validate_key, validate_key_iff, codes, IsPrintable, all_allowed, validate_codes,
}
use platform_ts.Idempotency.Records.{
  hung, store_unavailable, executed, replayed, fingerprint_mismatch,
}
use platform_ts.Idempotency.Services.{Services, Session, ok, err, pure}
use platform_ts.Idempotency.WithLock.{with_lock, with_lock_ends}
use platform_ts.Idempotency.Memory.{World, Job, memory_services, memory-IsTimed}
use platform_ts.Idempotency.Manager.{Config, run, completed_record}
use platform_ts.Idempotency.Manager.Answers.{run-stored, run-store_down, run_ends, answer}
use platform_ts.Cache.Memory.Views.{view}
use platform_ts.Idempotency.Memory.Claims.{IsReady}
use platform_ts.Idempotency.Memory.Replay.{run-replays}
use platform_ts.Prelude.{
  ℕ, ◌+◌, ◌≤◌, String, ◌≡◌, refl, ◌≢◌, ◌↔◌, ◌⊎◌, ite, true, false, none, some, [], ◌∷◌, arith,
  string_discrete, length, All, string_ne,
}

abbrev job : Job ℕ
job = record { duration = 5; outcome = some 7; recordable = λ v. true; claim_ids = λ n. "claim" }

abbrev config : Config
config = record {
  key_prefix = "idem:";
  ttl_ms = 1000;
  in_flight_ttl_ms = 100;
  max_key_length = 255;
  fail_open = false;
  lock = record { ttl_ms = 10; wait_ms = 2; poll_ms = 1 };
}

abbrev empty_world : World ℕ
empty_world = record {
  cache = record { store = []; expiry_ms = none; max_entries = none; hits = 0; misses = 0 };
  locker = record { leases = []; default_ttl_ms = 10; contention = 0; next_token = 0 };
  clock = 0;
  next_id = 0;
  runs = 0;
}

abbrev session : World ℕ → Session (World ℕ)
session w = record {
  world = w;
  requests = [];
  store_errors = 0;
  stale_records = 0;
  claims_lost = 0;
  record_failures = 0;
}

-- A store with the result of an earlier request.
abbrev answered_world : World ℕ
answered_world = record empty_world {
  cache = record {
    store =
        ("idem:k", record { value = completed_record 0 "f" "claim" 7; expires_at = some 1000 })
        ∷ [];
    expiry_ms = none;
    max_entries = none;
    hits = 0;
    misses = 0;
  };
}

-- A store that throws.
abbrev broken : Services ℕ
broken = record (memory_services job) { store_get = λ key w. (w, none) }

valid_key : validate_key "k" 255 ≡ none
unfolding validate_key validate_codes all_allowed
valid_key = refl

abbrev fingerprint : String
fingerprint = "f"

given : fingerprint ≢ ""
given = string_ne "f" "" refl

with_lock_ends_example :
    (with_lock (memory_services job) {R = ℕ} 4 config.lock "lock" (pure 3) (session empty_world)).1
    ≢ err hung
with_lock_ends_example =
    with_lock_ends (memory_services job) (memory-IsTimed job) config.lock "lock" (pure 3)
      (omega arith) (λ z e. cc) 4 (session empty_world) (omega arith)

run_ends_example :
    (run (memory_services job) config 4 "k" fingerprint none (session empty_world)).1 ≢ err hung
run_ends_example =
    run_ends (memory_services job) config (memory-IsTimed job) (omega arith) 4 (omega arith) "k"
      fingerprint none (session empty_world)

run-stored_example :
    let z = session answered_world in
    let (z', result) = run (memory_services job) config 1 "k" "g" none z in
    (result ≡ ok (answer (completed_record 0 "f" "claim" 7) "g"))
    × (z'.world ≡ ((memory_services job).store_get "idem:k" answered_world).0)
unfolding Memory.get OrderedMap.get string_discrete
run-stored_example =
    run-stored (memory_services job) config 1 "k" "g" none (session answered_world)
      (completed_record 0 "f" "claim" 7) valid_key (string_ne "g" "" refl) (ground arith) refl

run-store_down_example :
    run broken config 1 "k" fingerprint none (session empty_world)
    ≡ (record (session empty_world) { store_errors = 1 }, err store_unavailable)
run-store_down_example =
    run-store_down broken config 1 "k" fingerprint none (session empty_world) valid_key given refl
      refl

validate_key_iff_example : (validate_key "k1" 255 ≡ none) ↔ (
    (codes "k1" ≢ [])
    × All IsPrintable (codes "k1")
    × ((◌≡◌ {A = ℕ} 255 0) ⊎ (length (codes "k1") ≤ 255)))
validate_key_iff_example = validate_key_iff "k1" 255

empty-IsReady : IsReady empty_world.cache
empty-IsReady = record {
  uncapped = refl;
  valid = record { unique = tt; bounded = tt; cap_positive = λ e. cc };
}

nothing_visible : view empty_world.cache 0 "idem:k" ≡ none
unfolding view OrderedMap.get
nothing_visible = refl

nothing_leased : OrderedMap.get "idem:lock:k" empty_world.locker.leases ≡ none
unfolding OrderedMap.get
nothing_leased = refl

run-replays_example :
    let s = memory_services job in
    let (z1, first) = run s config 4 "k" fingerprint none (session empty_world) in
    let z2 = record z1 { world = record z1.world { clock = z1.world.clock + 900 } } in
    let (z3, second) = run s config 1 "k" "g" none z2 in
    (first ≡ ok (executed 7))
    × (second ≡ ok (ite (string_discrete fingerprint "g") (replayed (some 7)) fingerprint_mismatch))
    × (z3.world.runs ≡ 1)
run-replays_example =
    run-replays job config 3 "k" fingerprint none 7 (session empty_world) 1 900 "g" none valid_key
      given (string_ne "g" "" refl) empty-IsReady (omega arith) (omega arith) (omega arith) refl
      refl nothing_visible nothing_leased
