-- ===== src/Cache/Memory/Bounds.antt =====
-- The keys of the store, and its cap.
use platform_ts.OrderedMap
use platform_ts.OrderedMap.{Map}
use platform_ts.OrderedMap.Laws.{
  HasUniqueKeys, put-HasUniqueKeys, delete-HasUniqueKeys, keep-HasUniqueKeys, size-put-le,
  size-put_known, size-delete-le,
}
use platform_ts.Cache.Memory.{
  Cache, Entry, trim, evict_if_needed, get, set_entry, delete, expires, make_room, is_live,
  resolve_ttl_ms, run, new_cache, resolve_max_entries, step, Call, gets, sets, deletes,
}
use platform_ts.Prelude.{
  ℕ, zero, suc, ◌≤◌, ◌<◌, String, ◌≡◌, refl, ◌≢◌, inl, inr, Option, none, some, List, [], ◌∷◌,
  arith, Bool-cases, Option-cases,
}

-- Within the cap, if there is one.
abbrev pub IsWithin : Option ℕ → ℕ → Type 0
IsWithin none n = Unit
IsWithin (some most) n = n ≤ most

IsWithin-le : (most : Option ℕ) (m n : ℕ) → m ≤ n → IsWithin most n → IsWithin most m
IsWithin-le none m n h w = tt
IsWithin-le (some most) m n h w = omega arith

resolved_positive : (most : Option ℕ) → resolve_max_entries most ≢ some 0
resolved_positive none = λ e. cc
resolved_positive (some n) = λ e. ground arith

IsWithin-zero : (most : Option ℕ) → IsWithin most 0
IsWithin-zero none = tt
IsWithin-zero (some n) = omega arith

module _ {ℓ} {V : Type ℓ} where
  pub record IsValid (c : Cache V) : Type ℓ where
    pub bounded : IsWithin c.max_entries (OrderedMap.size c.store)
    pub unique : HasUniqueKeys c.store
    pub cap_positive : c.max_entries ≢ some 0

  trim-lt : (cap : ℕ) (m : Map (Entry V)) → 0 < cap → OrderedMap.size (trim cap m) < cap
  unfolding trim
  trim-lt cap [] h = h
  trim-lt cap (e ∷ m) h = ground (arith, trim-lt cap m h)

  trim-HasUniqueKeys : (cap : ℕ) (m : Map (Entry V)) → HasUniqueKeys m → HasUniqueKeys (trim cap m)
  unfolding trim
  trim-HasUniqueKeys cap [] u = tt
  trim-HasUniqueKeys cap (e ∷ m) u = ground (arith, trim-HasUniqueKeys cap m u.1)

  evict_if_needed-lt :
      (now cap : ℕ) (m : Map (Entry V))
      → 0 < cap
      → OrderedMap.size (evict_if_needed now (some cap) m) < cap
  unfolding evict_if_needed
  evict_if_needed-lt now cap m h = ground (arith, trim-lt cap (OrderedMap.keep (is_live now) m) h)

  evict_if_needed-HasUniqueKeys :
      (now : ℕ) (cap : Option ℕ) (m : Map (Entry V))
      → HasUniqueKeys m
      → HasUniqueKeys (evict_if_needed now cap m)
  unfolding evict_if_needed
  evict_if_needed-HasUniqueKeys now none m u = u
  evict_if_needed-HasUniqueKeys now (some cap) m u = ground (
    arith,
    trim-HasUniqueKeys cap (OrderedMap.keep (is_live now) m),
    keep-HasUniqueKeys (is_live now) m u,
  )

  pub get-IsValid : (now : ℕ) (key : String) (c : Cache V) → IsValid c → IsValid (get now key c).0
  unfolding get
  get-IsValid now key c v =
      let gone : IsValid
          (record c { store = OrderedMap.delete key c.store; misses = suc c.misses }) =
        record {
          bounded =
              IsWithin-le c.max_entries _ (OrderedMap.size c.store) (size-delete-le key c.store)
                v.bounded;
          unique = delete-HasUniqueKeys key c.store v.unique;
          cap_positive = v.cap_positive;
        } in
      elim (Option-cases (OrderedMap.get key c.store)) [
        | inl e ↦
            rw (e, get)
              (record { bounded = v.bounded; unique = v.unique; cap_positive = v.cap_positive })
        | inr (e, found) ↦
            rw (found, get)
              (elim (Bool-cases (is_live now e)) [
                | inl live ↦ rw live (record {
                  bounded = v.bounded;
                  unique = v.unique;
                  cap_positive = v.cap_positive;
                })
                | inr dead ↦ rw dead gone
              ])
      ]

  -- The map that `set` writes a new key into has room for it.
  IsWithin-evict :
      (now : ℕ) (most : Option ℕ) (m : Map (Entry V))
      → most ≢ some 0
      → IsWithin most (suc (OrderedMap.size (evict_if_needed now most m)))
  IsWithin-evict now none m h = tt
  IsWithin-evict now (some zero) m h = absurd (h refl)
  IsWithin-evict now (some (suc n)) m h = evict_if_needed-lt now (suc n) m (omega arith)

  pub set_entry-IsValid :
      (now later : ℕ) (key : String) (value : V) (ttl : Option ℕ) (c : Cache V)
      → IsValid c
      → IsValid (set_entry now later key value ttl c)
  unfolding set_entry
  set_entry-IsValid now later key value ttl c v =
      let e : Entry V = record {
        value = value;
        expires_at = expires now (resolve_ttl_ms ttl c.expiry_ms);
      } in
      let room = evict_if_needed later c.max_entries c.store in
      elim (Option-cases (OrderedMap.get key c.store)) [
        | inl new ↦
            rw (new, make_room)
              (record {
                bounded =
                    IsWithin-le c.max_entries _ (suc (OrderedMap.size room))
                      (size-put-le key e room)
                      (IsWithin-evict later c.max_entries c.store v.cap_positive);
                unique =
                    put-HasUniqueKeys key e room
                      (evict_if_needed-HasUniqueKeys later c.max_entries c.store v.unique);
                cap_positive = v.cap_positive;
              })
        | inr (w, known) ↦
            rw (known, make_room)
              (record {
                bounded = rw (size-put_known key e w c.store known) v.bounded;
                unique = put-HasUniqueKeys key e c.store v.unique;
                cap_positive = v.cap_positive;
              })
      ]

  delete-IsValid : (key : String) (c : Cache V) → IsValid c → IsValid (delete key c)
  unfolding delete
  delete-IsValid key c v = record {
    bounded =
        IsWithin-le c.max_entries _ (OrderedMap.size c.store) (size-delete-le key c.store)
          v.bounded;
    unique = delete-HasUniqueKeys key c.store v.unique;
    cap_positive = v.cap_positive;
  }

  step-IsValid : (e : Call V) (c : Cache V) → IsValid c → IsValid (step e c)
  unfolding step
  step-IsValid (gets now key) c v = get-IsValid now key c v
  step-IsValid (sets now later key value ttl) c v = set_entry-IsValid now later key value ttl c v
  step-IsValid (deletes key) c v = delete-IsValid key c v

  run-IsValid_from : (es : List (Call V)) (c : Cache V) → IsValid c → IsValid (run es c)
  unfolding run
  run-IsValid_from [] c v = v
  run-IsValid_from (e ∷ es) c v = run-IsValid_from es (step e c) (step-IsValid e c v)

  -- Whatever calls a new cache has served, at any readings of the clock, it holds each key once and
  -- never more entries than its cap, if it has one; and the cap is not zero.
  pub run-new_cache-IsValid :
      (expiry most : Option ℕ) (es : List (Call V)) → IsValid (run es (new_cache expiry most))
  unfolding new_cache
  run-new_cache-IsValid expiry most es = run-IsValid_from es (new_cache expiry most) (record {
    bounded = IsWithin-zero (resolve_max_entries most);
    unique = tt;
    cap_positive = resolved_positive most;
  })

  -- The configuration never changes.
  pub get-cap :
      (now : ℕ) (key : String) (c : Cache V) → (get now key c).0.max_entries ≡ c.max_entries
  unfolding get
  get-cap now key c = ground arith

  pub set_entry-cap :
      (now later : ℕ) (key : String) (value : V) (ttl : Option ℕ) (c : Cache V)
      → (set_entry now later key value ttl c).max_entries ≡ c.max_entries
  unfolding set_entry
  set_entry-cap now later key value ttl c = refl
