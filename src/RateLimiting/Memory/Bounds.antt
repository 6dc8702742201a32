-- ===== src/RateLimiting/Memory/Bounds.antt =====
-- The bounds of the limiter's memory and of its windows.
use platform_ts.OrderedMap
use platform_ts.OrderedMap.{Map}
use platform_ts.OrderedMap.Laws.{
  HasUniqueKeys, put-HasUniqueKeys, delete-HasUniqueKeys, keep-HasUniqueKeys, size-put-le,
  size-put_known, size-delete-le, HoldsEach, put-HoldsEach, delete-HoldsEach, keep-HoldsEach,
  drop-HoldsEach, drop-HasUniqueKeys, get-HoldsEach, get-put_self,
}
use platform_ts.RateLimiting.{whole, unfit, assert_valid_cost}
use platform_ts.RateLimiting.Memory.{
  Window, Options, Limiter, new_limiter, evict, fresh_window, make_room, current_window, charge,
  limit_whole, limit_call, reset, Call, limits, resets, step, run,
}
use platform_ts.Prelude.{
  ℕ, suc, ◌+◌, ◌-◌, ◌≤◌, max, String, ◌≡◌, inl, inr, false, some, List, [], ◌∷◌, arith, dec_lt, ltb,
  lt→ltb, Option-cases, length-drop,
}

module _ (o : Options) where
  -- The cap on the keys; a cap of zero still lets the key of the call in.
  abbrev pub cap : ℕ
  cap = max 1 o.max_keys

  abbrev pub IsWithin : Window → Type 0
  IsWithin w = w.used ≤ o.limit

  pub record IsValid (l : Limiter) : Type 0 where
    pub bounded : OrderedMap.size l.windows ≤ cap
    pub within : HoldsEach IsWithin l.windows
    pub unique : HasUniqueKeys l.windows

  evict_room : (now : ℕ) (ws : Map Window) → suc (OrderedMap.size (evict o now ws)) ≤ cap
  unfolding evict
  evict_room now ws = ground (
    arith,
    length-drop
        (OrderedMap.size (OrderedMap.keep (λ (w : Window). ltb now w.reset_at) ws) - o.max_keys + 1)
        (OrderedMap.keep (λ (w : Window). ltb now w.reset_at) ws),
  )

  make_room-size : (now : ℕ) (ws : Map Window) → suc (OrderedMap.size (make_room o now ws)) ≤ cap
  make_room-size now ws = ground (arith, evict_room now ws)

  evict-HoldsEach :
      (now : ℕ) (ws : Map Window) → HoldsEach IsWithin ws → HoldsEach IsWithin (evict o now ws)
  unfolding evict
  evict-HoldsEach now ws h = ground (
    arith,
    keep-HoldsEach IsWithin (λ (w : Window). ltb now w.reset_at) ws h,
    drop-HoldsEach IsWithin
        (OrderedMap.size (OrderedMap.keep (λ (w : Window). ltb now w.reset_at) ws) - o.max_keys + 1)
        (OrderedMap.keep (λ (w : Window). ltb now w.reset_at) ws),
  )

  evict-HasUniqueKeys :
      (now : ℕ) (ws : Map Window) → HasUniqueKeys ws → HasUniqueKeys (evict o now ws)
  unfolding evict
  evict-HasUniqueKeys now ws h = ground (
    arith,
    keep-HasUniqueKeys (λ (w : Window). ltb now w.reset_at) ws h,
    drop-HasUniqueKeys
        (OrderedMap.size (OrderedMap.keep (λ (w : Window). ltb now w.reset_at) ws) - o.max_keys + 1)
        (OrderedMap.keep (λ (w : Window). ltb now w.reset_at) ws),
  )

  current_window-IsWithin :
      (now : ℕ) (key : String) (ws : Map Window)
      → HoldsEach IsWithin ws
      → IsWithin (current_window o now key ws).0
  unfolding current_window
  current_window-IsWithin now key ws h = elim (Option-cases (OrderedMap.get key ws)) [
    | inl e ↦ rw (e, current_window) (omega arith)
    | inr (w, e) ↦ rw (e, current_window) (ground (arith, get-HoldsEach IsWithin key w ws h e))
  ]

  make_room-HoldsEach :
      (now : ℕ) (ws : Map Window) → HoldsEach IsWithin ws → HoldsEach IsWithin (make_room o now ws)
  make_room-HoldsEach now ws h = ground (arith, evict-HoldsEach now ws h)

  make_room-HasUniqueKeys :
      (now : ℕ) (ws : Map Window) → HasUniqueKeys ws → HasUniqueKeys (make_room o now ws)
  make_room-HasUniqueKeys now ws h = ground (arith, evict-HasUniqueKeys now ws h)

  -- What a call finds in the map once its window is in place.
  abbrev Prepared : String → Window × Map Window → Type 0
  Prepared key (w, ws) =
      (OrderedMap.get key ws ≡ some w)
      × (OrderedMap.size ws ≤ cap)
      × HoldsEach IsWithin ws
      × HasUniqueKeys ws
      × IsWithin w

  current_window-Prepared :
      (now : ℕ) (key : String) (l : Limiter)
      → IsValid l
      → Prepared key (current_window o now key l.windows)
  unfolding current_window
  current_window-Prepared now key l v = elim (Option-cases (OrderedMap.get key l.windows)) [
    | inl e ↦
        let room = make_room o now l.windows in
        let fresh : Window = fresh_window o now in
        rw (e, current_window)
          (
            get-put_self key fresh room,
            omega (arith, size-put-le key fresh room, make_room-size now l.windows),
            put-HoldsEach IsWithin key fresh room (make_room-HoldsEach now l.windows v.within)
                (omega arith),
            put-HasUniqueKeys key fresh room (make_room-HasUniqueKeys now l.windows v.unique),
            omega arith,
          )
    | inr (w, e) ↦
        rw (e, current_window)
          (ground (
            arith,
            v.within,
            v.unique,
            get-put_self key (fresh_window o now) l.windows,
            size-put_known key (fresh_window o now) w l.windows e,
            put-HoldsEach IsWithin key (fresh_window o now) l.windows v.within,
            put-HasUniqueKeys key (fresh_window o now) l.windows v.unique,
            get-HoldsEach IsWithin key w l.windows v.within e,
          ))
  ]

  charge-IsValid :
      (now : ℕ) (key : String) (cost : ℕ) (p : Window × Map Window) (l : Limiter)
      → Prepared key p
      → IsValid (charge o now key cost p l).0
  unfolding charge
  charge-IsValid now key cost (w, ws) l (found, size, within, unique, low) =
      let w' : Window = record w { used = w.used + cost } in
      elim (dec_lt o.limit (w.used + cost)) [
        | yes p ↦ rw (lt→ltb _ _ p) (record { bounded = size; within = within; unique = unique })
        | no p ↦
            let e : ltb o.limit (w.used + cost) ≡ false = ground arith in
            rw e (record {
              bounded = omega (arith, size-put_known key w' w ws found);
              within = put-HoldsEach IsWithin key w' ws within (omega arith);
              unique = put-HasUniqueKeys key w' ws unique;
            })
      ]

  limit_whole-IsValid :
      (now : ℕ) (key : String) (cost : ℕ) (l : Limiter)
      → IsValid l
      → IsValid (limit_whole o now key cost l).0
  unfolding limit_whole
  limit_whole-IsValid now key cost l v =
      charge-IsValid now key cost _ l (current_window-Prepared now key l v)

  step-IsValid : (c : Call o) (l : Limiter) → IsValid l → IsValid (step o c l)
  unfolding step limit_call assert_valid_cost reset
  step-IsValid (limits now key (whole n)) l v = limit_whole-IsValid now key n l v
  step-IsValid (limits now key unfit) l v = v
  step-IsValid (resets key) l v = record {
    bounded = omega (arith, size-delete-le key l.windows, v.bounded);
    within = delete-HoldsEach IsWithin key l.windows v.within;
    unique = delete-HasUniqueKeys key l.windows v.unique;
  }

  run-IsValid_from : (cs : List (Call o)) (l : Limiter) → IsValid l → IsValid (run o cs l)
  unfolding run
  run-IsValid_from [] l v = v
  run-IsValid_from (c ∷ cs) l v = run-IsValid_from cs (step o c l) (step-IsValid c l v)

  -- Whatever calls a new limiter has served: it tracks at most `maxKeys` keys (one, if `maxKeys` is
  -- zero), each key once, and no window has used more than the limit.
  pub run-new_limiter-IsValid : (cs : List (Call o)) → IsValid (run o cs new_limiter)
  unfolding new_limiter
  run-new_limiter-IsValid cs =
      run-IsValid_from cs new_limiter (record { bounded = omega arith; within = tt; unique = tt })
