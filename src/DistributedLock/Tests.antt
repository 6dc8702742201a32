-- ===== src/DistributedLock/Tests.antt =====
-- A run of the lock, and the theorems at concrete inputs.
use platform_ts.OrderedMap
use platform_ts.DistributedLock.{
  Lock, Locker, acquire, release, refresh, run, acquires, releases, refreshes, new_locker, owns,
  owned_by, sweep_expired,
}
use platform_ts.DistributedLock.Tokens.{IsValid, run-new_locker-IsValid}
use platform_ts.DistributedLock.Exclusion.{held_excludes, stale_lock, acquire-free}
use platform_ts.Prelude.{
  ◌+◌, ◌≡◌, refl, true, false, none, some, [], ◌∷◌, arith, string_discrete, ltb,
}

abbrev held : Locker
held = record {
  leases = ("job", record { token = 1; expires_at = 50 }) ∷ [];
  next_token = 2;
  default_ttl_ms = 30;
  contention = 0;
}

abbrev first : Lock
first = record { key = "job"; token = 1; ttl_ms = 30 }

abbrev stale : Lock
stale = record { key = "job"; token = 0; ttl_ms = 30 }

reacquired_after_expiry :
    (acquire 50 50 50 "job" none held).1 ≡ some (record { key = "job"; token = 2; ttl_ms = 30 })
unfolding acquire sweep_expired OrderedMap.keep OrderedMap.get string_discrete
reacquired_after_expiry = refl

run-new_locker-IsValid_example :
    IsValid (run (acquires 1 1 1 "job" none ∷ releases 2 first ∷ []) (new_locker none))
run-new_locker-IsValid_example =
    run-new_locker-IsValid none (acquires 1 1 1 "job" none ∷ releases 2 first ∷ [])

held_excludes_example :
    let s = run (acquires 10 10 10 "other" none ∷ refreshes 20 20 stale none ∷ []) held in
    (OrderedMap.get "job" s.leases ≡ some (record { token = 1; expires_at = 50 }))
    × ((acquire 30 30 30 "job" none s).1 ≡ none)
unfolding OrderedMap.get string_discrete
held_excludes_example =
    held_excludes "job" (record { token = 1; expires_at = 50 })
      (acquires 10 10 10 "other" none ∷ refreshes 20 20 stale none ∷ []) held refl
      ((omega arith, omega arith), ((λ e. omega arith), tt)) 30 30 30 none (omega arith)
      (omega arith)

stale_lock_example :
    (release 20 stale held ≡ (record held { contention = 1 }, false))
    × (refresh 20 20 stale none held ≡ (record held { contention = 1 }, false))
unfolding OrderedMap.get string_discrete
stale_lock_example =
    stale_lock 20 20 stale none held (record { token = 1; expires_at = 50 }) refl (omega arith)

acquire-free_example :
    (k : Lock) × ((acquire 1 1 1 "new" none held).1 ≡ some k)
    × (owns 5 k (acquire 1 1 1 "new" none held).0 ≡ true)
    × (owned_by 5 k.token
          (OrderedMap.get "new" (refresh 5 6 k none (acquire 1 1 1 "new" none held).0).0.leases)
        ≡ ltb 5 (6 + k.ttl_ms))
    × ((release 5 k (acquire 1 1 1 "new" none held).0).1 ≡ true)
    × (OrderedMap.get "new" (release 5 k (acquire 1 1 1 "new" none held).0).0.leases ≡ none)
unfolding OrderedMap.get string_discrete
acquire-free_example = acquire-free 1 1 1 5 6 "new" none held refl (omega arith)
