-- ===== src/OrderedMap/Laws.antt =====
-- How reads, writes, removals and sweeps of an ordered map interact.
use platform_ts.Prelude.{
  ℕ, zero, suc, ◌≤◌, String, ◌≡◌, refl, subst, ◌≢◌, Bool, true, false, none, some, [], ◌∷◌, arith,
  string_discrete, drop,
}
use platform_ts.OrderedMap.{Map, get, put, delete, size, keep}

module _ {ℓ} {V : Type ℓ} where
  -- No key stands twice.
  abbrev pub HasUniqueKeys : Map V → Type ℓ
  HasUniqueKeys [] = Unit
  HasUniqueKeys ((k, v) ∷ m) = (get k m ≡ none) × HasUniqueKeys m

  pub get-put_self : (k : String) (v : V) (m : Map V) → get k (put k v m) ≡ some v
  unfolding get put
  get-put_self k v [] = ground arith
  get-put_self k v ((j, w) ∷ m) = ground (arith, get-put_self k v m)

  pub get-put_ne : (k j : String) (v : V) (m : Map V) → k ≢ j → get j (put k v m) ≡ get j m
  unfolding get put
  get-put_ne k j v [] h = ground arith
  get-put_ne k j v ((i, w) ∷ m) h = ground (arith, get-put_ne k j v m h)

  pub get-delete_self : (k : String) (m : Map V) → get k (delete k m) ≡ none
  unfolding get delete
  get-delete_self k [] = refl
  get-delete_self k ((j, w) ∷ m) = ground (arith, get-delete_self k m)

  pub get-delete_ne : (k j : String) (m : Map V) → k ≢ j → get j (delete k m) ≡ get j m
  unfolding get delete
  get-delete_ne k j [] h = refl
  get-delete_ne k j ((i, w) ∷ m) h = ground (arith, get-delete_ne k j m h)

  pub size-put_new :
      (k : String) (v : V) (m : Map V) → get k m ≡ none → size (put k v m) ≡ suc (size m)
  unfolding get put
  size-put_new k v [] h = refl
  size-put_new k v ((j, w) ∷ m) h = ground (arith, size-put_new k v m)

  pub size-put_known :
      (k : String) (v w : V) (m : Map V) → get k m ≡ some w → size (put k v m) ≡ size m
  unfolding get put
  size-put_known k v w [] h = absurd (cc)
  size-put_known k v w ((j, u) ∷ m) h = ground (arith, size-put_known k v w m)

  pub size-put-le : (k : String) (v : V) (m : Map V) → size (put k v m) ≤ suc (size m)
  unfolding put
  size-put-le k v [] = omega arith
  size-put-le k v ((j, w) ∷ m) = ground (arith, size-put-le k v m)

  pub size-delete-le : (k : String) (m : Map V) → size (delete k m) ≤ size m
  unfolding delete
  size-delete-le k [] = omega arith
  size-delete-le k ((j, w) ∷ m) = ground (arith, size-delete-le k m)

  pub size-keep-le : (p : V → Bool) (m : Map V) → size (keep p m) ≤ size m
  unfolding keep
  size-keep-le p [] = omega arith
  size-keep-le p ((j, w) ∷ m) = ground (arith, size-keep-le p m)

  pub get-keep-none :
      (p : V → Bool) (k : String) (m : Map V) → get k m ≡ none → get k (keep p m) ≡ none
  unfolding get keep
  get-keep-none p k [] h = refl
  get-keep-none p k ((j, w) ∷ m) h = ground (arith, get-keep-none p k m)

  -- What a sweep leaves of a key's entry.
  pub get-keep_pass :
      (p : V → Bool) (k : String) (v : V) (m : Map V)
      → get k m ≡ some v
      → p v ≡ true
      → get k (keep p m) ≡ some v
  unfolding get keep
  get-keep_pass p k v [] h t = absurd (cc)
  get-keep_pass p k v ((j, w) ∷ m) h t = ground (arith, get-keep_pass p k v m)

  pub get-keep_fail :
      (p : V → Bool) (k : String) (v : V) (m : Map V)
      → HasUniqueKeys m
      → get k m ≡ some v
      → p v ≡ false
      → get k (keep p m) ≡ none
  unfolding get keep
  get-keep_fail p k v [] u h t = absurd (cc)
  get-keep_fail p k v ((j, w) ∷ m) u h t =
      ground (arith, get-keep_fail p k v m u.1, get-keep-none p k m)

  -- Each operation keeps the keys unique.
  pub put-HasUniqueKeys :
      (k : String) (v : V) (m : Map V) → HasUniqueKeys m → HasUniqueKeys (put k v m)
  unfolding put
  put-HasUniqueKeys k v [] u = (unfold get in refl, tt)
  put-HasUniqueKeys k v ((j, w) ∷ m) u =
      ground (arith, put-HasUniqueKeys k v m u.1, get-put_ne k j v m)

  pub get-delete-none : (k j : String) (m : Map V) → get j m ≡ none → get j (delete k m) ≡ none
  unfolding get delete
  get-delete-none k j [] h = refl
  get-delete-none k j ((i, w) ∷ m) h = ground (arith, get-delete-none k j m)

  pub delete-HasUniqueKeys : (k : String) (m : Map V) → HasUniqueKeys m → HasUniqueKeys (delete k m)
  unfolding delete
  delete-HasUniqueKeys k [] u = tt
  delete-HasUniqueKeys k ((j, w) ∷ m) u =
      ground (arith, delete-HasUniqueKeys k m u.1, get-delete-none k j m)

  pub keep-HasUniqueKeys : (p : V → Bool) (m : Map V) → HasUniqueKeys m → HasUniqueKeys (keep p m)
  unfolding keep
  keep-HasUniqueKeys p [] u = tt
  keep-HasUniqueKeys p ((j, w) ∷ m) u =
      ground (arith, keep-HasUniqueKeys p m u.1, get-keep-none p j m)

  pub get-drop-none : (n : ℕ) (k : String) (m : Map V) → get k m ≡ none → get k (drop n m) ≡ none
  unfolding get
  get-drop-none zero k m h = h
  get-drop-none (suc n) k [] h = refl
  get-drop-none (suc n) k ((j, w) ∷ m) h = ground (arith, get-drop-none n k m)

  pub drop-HasUniqueKeys : (n : ℕ) (m : Map V) → HasUniqueKeys m → HasUniqueKeys (drop n m)
  drop-HasUniqueKeys zero m u = u
  drop-HasUniqueKeys (suc n) [] u = tt
  drop-HasUniqueKeys (suc n) (e ∷ m) u = drop-HasUniqueKeys n m u.1

  -- A write that changes the value of a key that has one.
  pub put-put : (k : String) (v w : V) (m : Map V) → put k v (put k w m) ≡ put k v m
  unfolding put
  put-put k v w [] = ground arith
  put-put k v w ((j, u) ∷ m) = ground (arith, put-put k v w m)

module _ {ℓ κ} {V : Type ℓ} (P : V → Type κ) where
  -- Every value of the map has the property.
  abbrev pub HoldsEach : Map V → Type κ
  HoldsEach [] = Unit
  HoldsEach ((k, v) ∷ m) = P v × HoldsEach m

  pub get-HoldsEach : (k : String) (v : V) (m : Map V) → HoldsEach m → get k m ≡ some v → P v
  unfolding get
  get-HoldsEach k v [] h e = absurd (cc)
  get-HoldsEach k v ((j, w) ∷ m) h e = elim (string_discrete j k) [
    | yes p ↦ subst P (ground arith) h.0
    | no p ↦ get-HoldsEach k v m h.1 (ground arith)
  ]

  pub put-HoldsEach : (k : String) (v : V) (m : Map V) → HoldsEach m → P v → HoldsEach (put k v m)
  unfolding put
  put-HoldsEach k v [] h p = (p, tt)
  put-HoldsEach k v ((j, w) ∷ m) h p = ground (arith, put-HoldsEach k v m h.1 p)

  pub delete-HoldsEach : (k : String) (m : Map V) → HoldsEach m → HoldsEach (delete k m)
  unfolding delete
  delete-HoldsEach k [] h = tt
  delete-HoldsEach k ((j, w) ∷ m) h = ground (arith, delete-HoldsEach k m h.1)

  pub keep-HoldsEach : (p : V → Bool) (m : Map V) → HoldsEach m → HoldsEach (keep p m)
  unfolding keep
  keep-HoldsEach p [] h = tt
  keep-HoldsEach p ((j, w) ∷ m) h = ground (arith, keep-HoldsEach p m h.1)

  pub drop-HoldsEach : (n : ℕ) (m : Map V) → HoldsEach m → HoldsEach (drop n m)
  drop-HoldsEach zero m h = h
  drop-HoldsEach (suc n) [] h = tt
  drop-HoldsEach (suc n) (e ∷ m) h = drop-HoldsEach n m h.1
