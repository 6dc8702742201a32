-- ===== src/Cache/Memory.antt =====
-- packages/cache/src/providers/memory.ts. Readings of the clock are arguments. Values are
-- immutable here, so `structuredClone` is the identity; the instruments are the two counters.
pub mod Views
pub mod Bounds
pub mod Batches
mod Tests
use platform_ts.OrderedMap
use platform_ts.OrderedMap.{Map}
use platform_ts.Cache.{normalize_expiry_ms, resolve_ttl_ms}
use platform_ts.Prelude.{
  ℕ, suc, ◌+◌, String, Bool, true, Option, none, some, List, [], ◌∷◌, ltb, leb, if◌then◌else◌,
  length,
}

pub record Entry {ℓ} (V : Type ℓ) : Type ℓ where
  pub value : V
  pub expires_at : Option ℕ

pub record Cache {ℓ} (V : Type ℓ) : Type ℓ where
  pub store : Map (Entry V)
  pub expiry_ms : Option ℕ
  -- `none` disables the cap.
  pub max_entries : Option ℕ
  pub hits : ℕ
  pub misses : ℕ

abbrev default_max_entries : ℕ
default_max_entries = 100000

abbrev pub resolve_max_entries : Option ℕ → Option ℕ
resolve_max_entries none = some default_max_entries
resolve_max_entries (some n) = if ltb 0 n then some n else none

abbrev pub is_live {ℓ} : {V : Type ℓ} → ℕ → Entry V → Bool
is_live now e = elim e.expires_at [ none ↦ true | some at ↦ ltb now at ]

abbrev pub expires : ℕ → Option ℕ → Option ℕ
expires now none = none
expires now (some ttl) = some (now + ttl)

module _ {ℓ} {V : Type ℓ} where
  unfoldable pub new_cache : Option ℕ → Option ℕ → Cache V
  unfolding normalize_expiry_ms
  new_cache expiry cap = record {
    store = [];
    expiry_ms = normalize_expiry_ms expiry;
    max_entries = resolve_max_entries cap;
    hits = 0;
    misses = 0;
  }

  unfoldable pub get : ℕ → String → Cache V → Cache V × Option V
  get now key c = elim (OrderedMap.get key c.store) [
    | none ↦ (record c { misses = suc c.misses }, none)
    | some e ↦
        if is_live now e
        then (record c { hits = suc c.hits }, some e.value)
        else (record c { store = OrderedMap.delete key c.store; misses = suc c.misses }, none)
  ]

  -- The loop that drops the oldest entry while the store is at the cap.
  unfoldable pub trim : ℕ → Map (Entry V) → Map (Entry V)
  trim cap [] = []
  trim cap (e ∷ m) = let rest = trim cap m in if leb cap (length (e ∷ m)) then rest else e ∷ m

  unfoldable pub evict_if_needed : ℕ → Option ℕ → Map (Entry V) → Map (Entry V)
  unfolding trim
  evict_if_needed now none m = m
  evict_if_needed now (some cap) m =
      if ltb (OrderedMap.size m) cap then m else trim cap (OrderedMap.keep (is_live now) m)

  abbrev pub make_room : ℕ → String → Cache V → Map (Entry V)
  make_room now key c = elim (OrderedMap.get key c.store) [
    | some _ ↦ c.store
    | none ↦ evict_if_needed now c.max_entries c.store
  ]

  -- `now` is the reading for the expiry, `later` that of an eviction.
  unfoldable pub set_entry : ℕ → ℕ → String → V → Option ℕ → Cache V → Cache V
  unfolding resolve_ttl_ms
  set_entry now later key value ttl c = record c {
    store =
        OrderedMap.put key
          (record { value = value; expires_at = expires now (resolve_ttl_ms ttl c.expiry_ms) })
          (make_room later key c);
  }

  unfoldable pub delete : String → Cache V → Cache V
  delete key c = record c { store = OrderedMap.delete key c.store }

  -- The loop of `getMany`; each `get` takes a reading of its own.
  unfoldable pub collect : List (ℕ × String) → Cache V → Map V → Cache V × Map V
  collect [] c found = (c, found)
  collect ((now, key) ∷ reads) c found =
      let (c', r) = get now key c in
      collect reads c' (elim r [ none ↦ found | some v ↦ OrderedMap.put key v found ])

  unfoldable pub get_many : List (ℕ × String) → Cache V → Cache V × Map V
  unfolding collect
  get_many reads c = collect reads c []

  unfoldable pub set_many : List (ℕ × ℕ × String × V) → Option ℕ → Cache V → Cache V
  set_many [] ttl c = c
  set_many ((now, later, key, value) ∷ items) ttl c =
      set_many items ttl (set_entry now later key value ttl c)

-- One call of the cache, with its readings of the clock.
pub data Call {ℓ} (V : Type ℓ) : Type ℓ where
  gets : ℕ → String → Call V
  sets : ℕ → ℕ → String → V → Option ℕ → Call V
  deletes : String → Call V

module _ {ℓ} {V : Type ℓ} where
  unfoldable pub step : Call V → Cache V → Cache V
  unfolding get set_entry delete
  step (gets now key) c = (get now key c).0
  step (sets now later key value ttl) c = set_entry now later key value ttl c
  step (deletes key) c = delete key c

  unfoldable pub run : List (Call V) → Cache V → Cache V
  unfolding step
  run [] c = c
  run (e ∷ es) c = run es (step e c)
