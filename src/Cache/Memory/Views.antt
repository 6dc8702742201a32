-- ===== src/Cache/Memory/Views.antt =====
-- The cache seen by its readers: what a read of a key would return at each time. The operations
-- refine a map from keys and times to values, whatever the store drops behind the scenes.
use platform_ts.OrderedMap
use platform_ts.OrderedMap.{Map}
use platform_ts.OrderedMap.Laws.{
  HasUniqueKeys, get-put_self, get-put_ne, get-delete_self, get-delete_ne, get-keep_pass,
  get-keep_fail, get-keep-none,
}
use platform_ts.Cache.{resolve_ttl_ms}
use platform_ts.Cache.Memory.{
  Cache, Entry, trim, evict_if_needed, get, set_entry, delete, expires, make_room, is_live,
}
use platform_ts.Prelude.{
  ℕ, ◌≤◌, ◌<◌, String, ◌≡◌, refl, sym, inl, inr, ite, if_pos, if_neg, false, Option, none, some, [],
  ◌∷◌, arith, string_discrete, ltb, if◌then◌else◌, Bool-cases, Option-cases,
}

module _ {ℓ} {V : Type ℓ} where
  abbrev pub seen : ℕ → Option (Entry V) → Option V
  seen now none = none
  seen now (some e) = if is_live now e then some e.value else none

  -- What is visible under a key at a time.
  unfoldable pub view : Cache V → ℕ → String → Option V
  view c now key = seen now (OrderedMap.get key c.store)

  seen-expired :
      (now later : ℕ) (e : Entry V)
      → is_live now e ≡ false
      → now ≤ later
      → seen later (some e) ≡ none
  seen-expired now later e h k = ground arith

  pub get-view_result : (now : ℕ) (key : String) (c : Cache V) → (get now key c).1 ≡ view c now key
  unfolding get view
  get-view_result now key c = ground arith

  pub get-view_kept :
      (now later : ℕ) (key other : String) (c : Cache V)
      → now ≤ later
      → view (get now key c).0 later other ≡ view c later other
  unfolding get view
  get-view_kept now later key other c h = ground (
    arith,
    get-delete_self key c.store,
    get-delete_ne key other c.store,
    string_discrete key other,
  )

  -- A read returns what is visible at its time, and changes nothing that is visible then or later.
  pub get-view :
      (now : ℕ) (key : String) (c : Cache V)
      → ((get now key c).1 ≡ view c now key)
        × ((later : ℕ) (other : String)
            → now ≤ later
            → view (get now key c).0 later other ≡ view c later other)
  get-view now key c =
      (get-view_result now key c, λ later other. get-view_kept now later key other c)

  keep-seen :
      (now later : ℕ) (key : String) (m : Map (Entry V))
      → HasUniqueKeys m
      → now ≤ later
      → seen later (OrderedMap.get key (OrderedMap.keep (is_live now) m))
        ≡ seen later (OrderedMap.get key m)
  keep-seen now later key m u h = elim (Option-cases (OrderedMap.get key m)) [
    | inl e ↦ rw (e, get-keep-none (is_live now) key m e)
    | inr (e, found) ↦ elim (Bool-cases (is_live now e)) [
      | inl live ↦ rw (found, get-keep_pass (is_live now) key e m found live)
      | inr dead ↦
          rw (found, get-keep_fail (is_live now) key e m u found dead)
            (sym (seen-expired now later e dead h))
    ]
  ]

  -- There is room for the key: it is known, or a sweep of what has expired makes room under the cap.
  abbrev pub HasRoom : ℕ → String → Cache V → Type ℓ
  HasRoom now key c =
      (n : ℕ)
      → c.max_entries ≡ some n
      → OrderedMap.get key c.store ≡ none
      → OrderedMap.size (OrderedMap.keep (is_live now) c.store) < n

  trim-room : (n : ℕ) (m : Map (Entry V)) → OrderedMap.size m < n → trim n m ≡ m
  unfolding trim
  trim-room n [] h = refl
  trim-room n (e ∷ m) h = ground arith

  evict-seen :
      (now later : ℕ) (most : Option ℕ) (m : Map (Entry V)) (other : String)
      → HasUniqueKeys m
      → ((n : ℕ) → most ≡ some n → OrderedMap.size (OrderedMap.keep (is_live now) m) < n)
      → now ≤ later
      → seen later (OrderedMap.get other (evict_if_needed now most m))
        ≡ seen later (OrderedMap.get other m)
  unfolding evict_if_needed
  evict-seen now later none m other u room h = refl
  evict-seen now later (some n) m other u room h = elim (Bool-cases (ltb (OrderedMap.size m) n)) [
    | inl small ↦ rw small
    | inr full ↦ rw full (
        rw (trim-room n (OrderedMap.keep (is_live now) m) (room n refl))
          (keep-seen now later other m u h))
  ]

  make_room-seen :
      (now later : ℕ) (key other : String) (c : Cache V)
      → HasUniqueKeys c.store
      → HasRoom now key c
      → now ≤ later
      → seen later (OrderedMap.get other (make_room now key c))
        ≡ seen later (OrderedMap.get other c.store)
  make_room-seen now later key other c u room h = elim (Option-cases (OrderedMap.get key c.store)) [
    | inl new ↦
        rw (new, make_room)
          (evict-seen now later c.max_entries c.store other u (λ n e. room n e new) h)
    | inr (e, known) ↦ rw (known, make_room)
  ]

  -- A write makes the value visible for its TTL, or the cache's default, from the time of the write
  -- on (for good, if there is neither), and changes nothing that is visible under another key at or
  -- after the write, provided that there is room for the key.
  pub set_entry-view :
      (now written later : ℕ) (key other : String) (value : V) (ttl : Option ℕ) (c : Cache V)
      → HasUniqueKeys c.store
      → HasRoom written key c
      → written ≤ later
      → view (set_entry now written key value ttl c) later other
        ≡ ite
            (string_discrete key other)
            (seen later (
              some (record {
                value = value;
                expires_at = expires now (resolve_ttl_ms ttl c.expiry_ms);
              })))
            (view c later other)
  unfolding set_entry view
  set_entry-view now written later key other value ttl c u room h =
      let e : Entry V = record {
        value = value;
        expires_at = expires now (resolve_ttl_ms ttl c.expiry_ms);
      } in
      elim (string_discrete key other) [
        | yes p ↦
            rw (if_pos _ p) (rw (← p) (rw (get-put_self key e (make_room written key c)) refl))
        | no p ↦ rw (if_neg _ p) (
            rw (get-put_ne key other e (make_room written key c) p)
              (make_room-seen written later key other c u room h))
      ]

  -- A removed key is not visible, and the others are as they were.
  pub delete-view :
      (later : ℕ) (key other : String) (c : Cache V)
      → view (delete key c) later other ≡ ite (string_discrete key other) none (view c later other)
  unfolding delete view
  delete-view later key other c = elim (string_discrete key other) [
    | yes p ↦ rw (if_pos _ p) (rw (← p) (rw (get-delete_self key c.store) refl))
    | no p ↦ rw (if_neg _ p) (rw (get-delete_ne key other c.store p) refl)
  ]
