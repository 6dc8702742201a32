-- ===== src/RateLimiting/Memory/Windows.antt =====
-- What the limiter promises its callers: its decision, the hint to a denied caller, and the limit
-- that no window exceeds.
use platform_ts.OrderedMap
use platform_ts.OrderedMap.{Map}
use platform_ts.OrderedMap.Laws.{get-put_self, get-put_ne, size-put-le, size-put_known}
use platform_ts.RateLimiting.Memory.{
  Window, Options, Limiter, fresh_window, make_room, current_window, charge, limit_whole,
}
use platform_ts.Prelude.{
  ℕ, suc, ◌+◌, ◌-◌, ◌≤◌, ◌<◌, String, ◌≡◌, ◌∙◌, ◌≢◌, ite, true, Option, none, some, List, [], ◌∷◌,
  arith, string_discrete, ltb, leb, if◌then◌else◌, length, All,
}

-- What a window that has not ended has used; nothing, for an absent window or one that has ended.
abbrev pub live_usage : ℕ → Option Window → ℕ
live_usage now none = 0
live_usage now (some w) = if ltb now w.reset_at then w.used else 0

pub usage : ℕ → String → Limiter → ℕ
usage now key l = live_usage now (OrderedMap.get key l.windows)

module _ (o : Options) where
  current_window-usage :
      (now : ℕ) (key : String) (l : Limiter)
      → (current_window o now key l.windows).0.used ≡ usage now key l
  unfolding current_window usage
  current_window-usage now key l = ground arith

  current_window-get :
      (now : ℕ) (key : String) (ws : Map Window)
      → OrderedMap.get key (current_window o now key ws).1 ≡ some (current_window o now key ws).0
  unfolding current_window
  current_window-get now key ws = ground (
    arith,
    get-put_self key (fresh_window o now) ws,
    get-put_self key (fresh_window o now) (make_room o now ws),
  )

  current_window-live :
      (now : ℕ) (key : String) (ws : Map Window)
      → 0 < o.window_ms
      → now < (current_window o now key ws).0.reset_at
  unfolding current_window
  current_window-live now key ws h = ground arith

  charge_decides :
      (now : ℕ) (key : String) (cost : ℕ) (p : Window × Map Window) (l : Limiter)
      → OrderedMap.get key p.1 ≡ some p.0
      → let (l', r) = charge o now key cost p l in
        (r.allowed ≡ leb (p.0.used + cost) o.limit)
        × (r.remaining ≡ o.limit - (p.0.used + (if r.allowed then cost else 0)))
        × (r.reset_at ≡ p.0.reset_at)
        × (r.retry_after_ms ≡ (if r.allowed then none else some (p.0.reset_at - now)))
        × (OrderedMap.get key l'.windows
            ≡ some (record p.0 { used = p.0.used + (if r.allowed then cost else 0) }))
  unfolding charge
  charge_decides now key cost (w, ws) l h =
      ground (arith, get-put_self key (record w { used = w.used + cost }) ws)

  -- A call is allowed exactly if its cost still fits beside what the key has used in a window that
  -- has not ended. The answer reports what is left, and afterwards (for windows of positive length)
  -- the key has used that much more if the call was allowed, and no more if it was denied.
  pub limit_whole_decides :
      (now : ℕ) (key : String) (cost : ℕ) (l : Limiter)
      → 0 < o.window_ms
      → let (l', r) = limit_whole o now key cost l in
        (r.allowed ≡ leb (usage now key l + cost) o.limit)
        × (r.remaining ≡ o.limit - usage now key l')
        × (usage now key l' ≡ usage now key l + (if r.allowed then cost else 0))
  unfolding limit_whole usage
  limit_whole_decides now key cost l h =
      let p = current_window o now key l.windows in
      let d = charge_decides now key cost p l (current_window-get now key l.windows) in
      ground (
        arith,
        d.0,
        d.1,
        d.4,
        current_window-usage now key l,
        current_window-live now key l.windows h,
      )

  -- A window that has ended by a call is replaced before the call is charged.
  window_ended :
      (now : ℕ) (key : String) (cost : ℕ) (l : Limiter) (w : Window)
      → OrderedMap.get key l.windows ≡ some w
      → w.reset_at ≤ now
      → cost ≤ o.limit
      → (limit_whole o now key cost l).1.allowed ≡ true
  unfolding limit_whole current_window charge
  window_ended now key cost l w e h fits = ground arith

  -- A denied caller that comes back when it was told to is allowed, if its cost fits the limit at
  -- all and nobody has called for the key in between.
  pub retry_after_suffices :
      (now later : ℕ) (key : String) (cost again wait : ℕ) (l : Limiter)
      → (limit_whole o now key cost l).1.retry_after_ms ≡ some wait
      → now + wait ≤ later
      → again ≤ o.limit
      → (limit_whole o later key again (limit_whole o now key cost l).0).1.allowed ≡ true
  unfolding limit_whole
  retry_after_suffices now later key cost again wait l h k fits =
      let p = current_window o now key l.windows in
      let d = charge_decides now key cost p l (current_window-get now key l.windows) in
      window_ended later key again (limit_whole o now key cost l).0 _ d.4 (ground (arith, d.3)) fits

  -- What the calls of a list, made one after another, were admitted for one key in all.
  pub serve : String → List (ℕ × String × ℕ) → Limiter → Limiter × ℕ
  serve key [] l = (l, 0)
  serve key ((now, k, cost) ∷ cs) l =
      let (l', r) = limit_whole o now k cost l in
      let (l'', n) = serve key cs l' in
      (l'', if r.allowed then ite (string_discrete k key) (cost + n) n else n)

  record InWindow (key : String) (w : Window) (l : Limiter) (calls : ℕ) : Type 0 where
    found : OrderedMap.get key l.windows ≡ some w
    low : w.used ≤ o.limit
    room : OrderedMap.size l.windows + calls ≤ o.max_keys

  -- With room for a new key nothing is evicted, so a call leaves the other keys' windows alone.
  current_window-other :
      (now : ℕ) (key k : String) (ws : Map Window)
      → k ≢ key
      → OrderedMap.size ws < o.max_keys
      → (OrderedMap.get key (current_window o now k ws).1 ≡ OrderedMap.get key ws)
        × (OrderedMap.size (current_window o now k ws).1 ≤ suc (OrderedMap.size ws))
  unfolding current_window
  current_window-other now key k ws h room =
      ground
        (arith, get-put_ne k key (fresh_window o now) ws h, size-put-le k (fresh_window o now) ws)

  current_window-open :
      (now : ℕ) (key : String) (w : Window) (ws : Map Window)
      → OrderedMap.get key ws ≡ some w
      → now < w.reset_at
      → current_window o now key ws ≡ (w, ws)
  unfolding current_window
  current_window-open now key w ws e h = ground arith

  charge-size :
      (now : ℕ) (key : String) (cost : ℕ) (p : Window × Map Window) (l : Limiter)
      → OrderedMap.get key p.1 ≡ some p.0
      → OrderedMap.size (charge o now key cost p l).0.windows ≡ OrderedMap.size p.1
  unfolding charge
  charge-size now key cost (w, ws) l e =
      ground (arith, size-put_known key (record w { used = w.used + cost }) w ws e)

  charge-other :
      (now : ℕ) (key k : String) (cost : ℕ) (p : Window × Map Window) (l : Limiter)
      → k ≢ key
      → OrderedMap.get key (charge o now k cost p l).0.windows ≡ OrderedMap.get key p.1
  unfolding charge
  charge-other now key k cost (w, ws) l h =
      ground (arith, get-put_ne k key (record w { used = w.used + cost }) ws h)

  own_call :
      (now : ℕ) (key : String) (cost calls : ℕ) (l : Limiter) (w : Window)
      → InWindow key w l (suc calls)
      → now < w.reset_at
      → let (l', r) = limit_whole o now key cost l in
        InWindow key (record w { used = w.used + (if r.allowed then cost else 0) }) l' calls
  unfolding limit_whole
  own_call now key cost calls l w v h =
      let d = charge_decides now key cost (w, l.windows) l v.found in
      let n = charge-size now key cost (w, l.windows) l v.found in
      rw (current_window-open now key w l.windows v.found h)
        (record { found = d.4; low = ground (arith, d.0, v.low); room = omega (arith, v.room, n) })

  other_call :
      (now : ℕ) (key k : String) (cost calls : ℕ) (l : Limiter) (w : Window)
      → InWindow key w l (suc calls)
      → k ≢ key
      → InWindow key w (limit_whole o now k cost l).0 calls
  unfolding limit_whole
  other_call now key k cost calls l w v h =
      let p = current_window o now k l.windows in
      let (same, size) = current_window-other now key k l.windows h (omega (arith, v.room)) in
      let n = charge-size now k cost p l (current_window-get now k l.windows) in
      record {
        found = charge-other now key k cost p l h ∙ same ∙ v.found;
        low = v.low;
        room = omega (arith, v.room, n, size);
      }

  -- As long as a key's window lasts, everything admitted for the key adds to what the window has
  -- used, and the sum never exceeds the limit, however calls for other keys are mixed in, provided
  -- that the calls cannot fill the map up to its cap.
  pub serve_within_limit :
      (key : String) (cs : List (ℕ × String × ℕ)) (l : Limiter) (w : Window)
      → OrderedMap.get key l.windows ≡ some w
      → w.used ≤ o.limit
      → OrderedMap.size l.windows + length cs ≤ o.max_keys
      → All (λ c. c.0 < w.reset_at) cs
      → let (l', admitted) = serve key cs l in
        (OrderedMap.get key l'.windows ≡ some (record w { used = w.used + admitted }))
        × (w.used + admitted ≤ o.limit)
  unfolding serve
  serve_within_limit key [] l w found low room h = ground arith
  serve_within_limit key ((now, k, cost) ∷ cs) l w found low room (h, hs) =
      let v : InWindow key w l (suc (length cs)) = record {
        found = found;
        low = low;
        room = room;
      } in
      elim (string_discrete k key) [
        | yes p ↦
            let v' = own_call now key cost (length cs) l w v h in
            let ih =
              serve_within_limit key cs (limit_whole o now key cost l).0
                (record w {
                  used = w.used + (if (limit_whole o now key cost l).1.allowed then cost else 0);
                })
                v'.found v'.low v'.room hs in
            rw p (ground (arith, ih))
        | no p ↦
            let v' = other_call now key k cost (length cs) l w v p in
            let ih =
              serve_within_limit key cs (limit_whole o now k cost l).0 w v'.found v'.low v'.room
                hs in
            ground (arith, ih)
      ]
