-- ===== src/Cache/Memory/Tests.antt =====
-- Runs of the cache, and the theorems at concrete inputs.
use platform_ts.OrderedMap
use platform_ts.Cache.Memory.{
  Cache, gets, sets, deletes, run, new_cache, get, set_entry, delete, get_many, evict_if_needed,
  trim,
}
use platform_ts.Cache.Memory.Bounds.{IsValid, run-new_cache-IsValid}
use platform_ts.Cache.Memory.Views.{view, get-view, set_entry-view, delete-view, seen}
use platform_ts.Cache.Memory.Batches.{batch_view, get_many-get}
use platform_ts.Prelude.{
  ℕ, ◌≤◌, String, ◌≡◌, refl, ite, none, some, [], ◌∷◌, arith, string_discrete,
}

abbrev small : Cache ℕ
small = record {
  store =
      ("a", record { value = 1; expires_at = some 10 })
      ∷ ("b", record { value = 2; expires_at = none })
      ∷ [];
  expiry_ms = some 100;
  max_entries = some 2;
  hits = 0;
  misses = 0;
}

-- At the cap the expired entry goes first, and the one without an expiry stays.
sweep_first :
    (set_entry 50 50 "c" 3 (some 0) small).store
    ≡ ("b", record { value = 2; expires_at = none })
      ∷ ("c", record { value = 3; expires_at = some 150 })
      ∷ []
unfolding set_entry evict_if_needed trim OrderedMap.get OrderedMap.put OrderedMap.keep
    string_discrete
sweep_first = refl

run-new_cache-IsValid_example :
    IsValid
      (run (sets 1 1 "a" 1 none ∷ gets 2 "a" ∷ deletes "a" ∷ []) (new_cache {V = ℕ} none (some 3)))
run-new_cache-IsValid_example =
    run-new_cache-IsValid none (some 3) (sets 1 1 "a" 1 none ∷ gets 2 "a" ∷ deletes "a" ∷ [])

get-view_example :
    ((get 5 "a" small).1 ≡ view small 5 "a")
    × ((later : ℕ) (other : String)
        → 5 ≤ later
        → view (get 5 "a" small).0 later other ≡ view small later other)
get-view_example = get-view 5 "a" small

set_entry-view_example :
    view (set_entry 50 50 "c" 3 none small) 60 "c"
    ≡ ite
        (string_discrete "c" "c")
        (seen 60 (some (record { value = 3; expires_at = some 150 })))
        (view small 60 "c")
unfolding OrderedMap.keep OrderedMap.get string_discrete platform_ts.Cache.resolve_ttl_ms
set_entry-view_example =
    set_entry-view 50 50 60 "c" "c" 3 none small (refl, (refl, tt)) (λ n e k. ground arith)
      (omega arith)

delete-view_example :
    view (delete "a" small) 5 "b" ≡ ite (string_discrete "a" "b") none (view small 5 "b")
delete-view_example = delete-view 5 "a" "b" small

get_many-get_example :
    OrderedMap.get "b" (get_many ((20, "a") ∷ (30, "b") ∷ []) small).1
    ≡ batch_view (view small) ((20, "a") ∷ (30, "b") ∷ []) "b" none
get_many-get_example = get_many-get 0 ((20, "a") ∷ (30, "b") ∷ []) small "b" (omega arith)
