-- ===== src/RateLimiting/Memory/Tests.antt =====
-- Runs of the limiter, and the theorems at concrete inputs.
use platform_ts.OrderedMap
use platform_ts.RateLimiting.{whole, unfit}
use platform_ts.RateLimiting.Memory.{
  Options, Limiter, new_limiter, limit_whole, Call, limits, run, current_window, charge, evict,
}
use platform_ts.RateLimiting.Memory.Bounds.{IsValid, run-new_limiter-IsValid}
use platform_ts.RateLimiting.Memory.Windows.{
  usage, limit_whole_decides, retry_after_suffices, serve, serve_within_limit,
}
use platform_ts.Prelude.{
  ◌+◌, ◌-◌, ◌≤◌, ◌≡◌, refl, true, some, List, [], ◌∷◌, arith, string_discrete, leb, if◌then◌else◌,
}

abbrev options : Options
options = record { limit = 5; window_ms = 100; max_keys = 2 }

abbrev busy : Limiter
busy = record { windows = ("a", record { used = 4; reset_at = 100 }) ∷ []; allowed = 1; denied = 0 }

abbrev calls : List (Call options)
calls =
    limits 0 "a" (whole 4)
    ∷ limits 1 "b" (whole 1)
    ∷ limits 2 "a" (whole 2)
    ∷ limits 3 "c" unfit
    ∷ limits 4 "c" (whole 1)
    ∷ []

-- The third key pushes out the oldest one.
oldest_evicted :
    (run options calls new_limiter).windows
    ≡ ("b", record { used = 1; reset_at = 101 }) ∷ ("c", record { used = 1; reset_at = 104 }) ∷ []
unfolding run new_limiter limit_whole current_window charge evict OrderedMap.get OrderedMap.put
    OrderedMap.keep string_discrete
oldest_evicted = refl

run-new_limiter-IsValid_example : IsValid options (run options calls new_limiter)
run-new_limiter-IsValid_example = run-new_limiter-IsValid options calls

limit_whole_decides_example :
    let (l', r) = limit_whole options 50 "a" 2 busy in
    (r.allowed ≡ leb (usage 50 "a" busy + 2) 5)
    × (r.remaining ≡ 5 - usage 50 "a" l')
    × (usage 50 "a" l' ≡ usage 50 "a" busy + (if r.allowed then 2 else 0))
limit_whole_decides_example = limit_whole_decides options 50 "a" 2 busy (omega arith)

retry_after_suffices_example :
    (limit_whole options 100 "a" 2 (limit_whole options 50 "a" 2 busy).0).1.allowed ≡ true
unfolding limit_whole current_window charge OrderedMap.get string_discrete
retry_after_suffices_example =
    retry_after_suffices options 50 100 "a" 2 2 50 busy refl (omega arith) (omega arith)

serve_within_limit_example :
    let (l', admitted) =
      serve (record options { max_keys = 9 }) "a" ((10, "a", 1) ∷ (20, "b", 1) ∷ []) busy in
    (OrderedMap.get "a" l'.windows ≡ some (record { used = 4 + admitted; reset_at = 100 }))
    × (4 + admitted ≤ 5)
unfolding OrderedMap.get string_discrete
serve_within_limit_example =
    serve_within_limit (record options { max_keys = 9 }) "a" ((10, "a", 1) ∷ (20, "b", 1) ∷ []) busy
      (record { used = 4; reset_at = 100 }) refl (omega arith) (omega arith) (omega arith)
