-- ===== src/RateLimiting/Memory.antt =====
-- packages/ratelimiting/src/providers/memory.ts. `now` is the one reading of the clock that a call
-- takes; the instruments are the two counters.
pub mod Bounds
pub mod Windows
mod Tests
use platform_ts.OrderedMap
use platform_ts.OrderedMap.{Map}
use platform_ts.RateLimiting.{RateLimitResult, Number, assert_valid_cost}
use platform_ts.Prelude.{
  ℕ, suc, ◌+◌, ◌-◌, String, Bool, true, false, Option, none, some, List, [], ◌∷◌, map, ltb, leb,
  if◌then◌else◌, drop,
}

pub record Window : Type 0 where
  pub used : ℕ
  pub reset_at : ℕ

pub record Options : Type 0 where
  pub limit : ℕ
  pub window_ms : ℕ
  pub max_keys : ℕ

pub record Limiter : Type 0 where
  pub windows : Map Window
  pub allowed : ℕ
  pub denied : ℕ

unfoldable pub new_limiter : Limiter
new_limiter = record { windows = []; allowed = 0; denied = 0 }

abbrev pub is_live : ℕ → Window → Bool
is_live now w = ltb now w.reset_at

module _ (o : Options) where
  unfoldable pub evict : ℕ → Map Window → Map Window
  evict now ws =
      let swept = OrderedMap.keep (is_live now) ws in
      if leb o.max_keys (OrderedMap.size swept)
      then drop (OrderedMap.size swept - o.max_keys + 1) swept
      else swept

  abbrev pub fresh_window : ℕ → Window
  fresh_window now = record { used = 0; reset_at = now + o.window_ms }

  abbrev pub make_room : ℕ → Map Window → Map Window
  make_room now ws = if leb o.max_keys (OrderedMap.size ws) then evict now ws else ws

  -- The window that a call of `limit` is charged to, and the map with it in place.
  unfoldable pub current_window : ℕ → String → Map Window → Window × Map Window
  current_window now key ws = elim (OrderedMap.get key ws) [
    | none ↦ (fresh_window now, OrderedMap.put key (fresh_window now) (make_room now ws))
    | some w ↦
        if leb w.reset_at now
        then (fresh_window now, OrderedMap.put key (fresh_window now) ws)
        else (w, ws)
  ]

  unfoldable pub charge : ℕ → String → ℕ → Window × Map Window → Limiter → Limiter × RateLimitResult
  charge now key cost (w, ws) l =
      if ltb o.limit (w.used + cost)
      then (
        record l { windows = ws; denied = suc l.denied },
        record {
          allowed = false;
          remaining = o.limit - w.used;
          limit = o.limit;
          reset_at = w.reset_at;
          retry_after_ms = some (w.reset_at - now);
        },
      )
      else (
        record l {
          windows = OrderedMap.put key (record w { used = w.used + cost }) ws;
          allowed = suc l.allowed;
        },
        record {
          allowed = true;
          remaining = o.limit - (w.used + cost);
          limit = o.limit;
          reset_at = w.reset_at;
          retry_after_ms = none;
        },
      )

  -- `limit` past its check of the cost.
  unfoldable pub limit_whole : ℕ → String → ℕ → Limiter → Limiter × RateLimitResult
  limit_whole now key cost l = charge now key cost (current_window now key l.windows) l

  -- `none` is the TypeError of an unfit cost, which is thrown before anything changes.
  unfoldable pub limit_call : ℕ → String → Number → Limiter → Limiter × Option RateLimitResult
  unfolding assert_valid_cost limit_whole
  limit_call now key cost l = elim (assert_valid_cost cost) [
    | none ↦ (l, none)
    | some n ↦ let (l', r) = limit_whole now key n l in (l', some r)
  ]

  unfoldable pub reset : String → Limiter → Limiter
  reset key l = record l { windows = OrderedMap.delete key l.windows }

  pub data Call : Type 0 where
    limits : ℕ → String → Number → Call
    resets : String → Call

  unfoldable pub step : Call → Limiter → Limiter
  unfolding limit_call reset
  step (limits now key cost) l = (limit_call now key cost l).0
  step (resets key) l = reset key l

  unfoldable pub run : List Call → Limiter → Limiter
  unfolding step
  run [] l = l
  run (c ∷ cs) l = run cs (step c l)
