-- ===== src/Cache/Memory/Batches.antt =====
-- `getMany` against the view that its readers had when it began.
use platform_ts.OrderedMap
use platform_ts.OrderedMap.{Map}
use platform_ts.OrderedMap.Laws.{get-put_self, get-put_ne}
use platform_ts.Cache.Memory.{Cache, get, collect, get_many}
use platform_ts.Cache.Memory.Views.{view, get-view_result, get-view_kept}
use platform_ts.Prelude.{
  ℕ, ◌≤◌, String, ◌≡◌, refl, ap, ◌∙◌, ite, if_pos, if_neg, Option, none, some, List, [], ◌∷◌, arith,
  string_discrete,
}

abbrev pub Ascending : ℕ → List (ℕ × String) → Type 0
Ascending since [] = Unit
Ascending since ((now, key) ∷ reads) = (since ≤ now) × Ascending now reads

module _ {ℓ} {V : Type ℓ} where
  -- A later reading of a key that finds a value replaces an earlier one.
  abbrev or_else : Option V → Option V → Option V
  or_else none old = old
  or_else (some v) old = some v

  -- What a batch of reads should give for a key, from what is visible at each of them.
  pub batch_view : (ℕ → String → Option V) → List (ℕ × String) → String → Option V → Option V
  batch_view look [] key old = old
  batch_view look ((now, k) ∷ reads) key old =
      batch_view look reads key (ite (string_discrete k key) (or_else (look now k) old) old)

  put_found : String → Option V → Map V → Map V
  put_found k r found = elim r [ none ↦ found | some v ↦ OrderedMap.put k v found ]

  get-put_found :
      (k key : String) (r : Option V) (found : Map V)
      → OrderedMap.get key (put_found k r found)
        ≡ ite
            (string_discrete k key)
            (or_else r (OrderedMap.get key found))
            (OrderedMap.get key found)
  unfolding put_found
  get-put_found k key none found = ground arith
  get-put_found k key (some v) found = elim (string_discrete k key) [
    | yes p ↦ rw (if_pos _ p) (rw (← p) (rw (get-put_self k v found) refl))
    | no p ↦ rw (if_neg _ p) (get-put_ne k key v found p)
  ]

  collect-get :
      (look : ℕ → String → Option V) (since : ℕ) (reads : List (ℕ × String)) (c : Cache V)
      (found : Map V) (key : String)
      → Ascending since reads
      → ((later : ℕ) (other : String) → since ≤ later → view c later other ≡ look later other)
      → OrderedMap.get key (collect reads c found).1
        ≡ batch_view look reads key (OrderedMap.get key found)
  unfolding collect batch_view put_found
  collect-get look since [] c found key a h = refl
  collect-get look since ((now, k) ∷ reads) c found key (s, a) h =
      let (c', r) = get now k c in
      let same : r ≡ look now k = get-view_result now k c ∙ h now k s in
      let ih =
        collect-get look now reads c' (put_found k r found) key a
          (λ later other le. get-view_kept now later k other c le ∙ h later other (omega arith)) in
      ih ∙ ap (batch_view look reads key) (get-put_found k key r found ∙ rw same refl)

  -- A batch of reads at ascending times gives for each key the last value that its reads could see
  -- when the batch began, whatever expired entries the batch drops on its way; and nothing for the
  -- other keys.
  pub get_many-get :
      (since : ℕ) (reads : List (ℕ × String)) (c : Cache V) (key : String)
      → Ascending since reads
      → OrderedMap.get key (get_many reads c).1 ≡ batch_view (view c) reads key none
  unfolding get_many OrderedMap.get
  get_many-get since reads c key a =
      collect-get (view c) since reads c [] key a (λ later other le. refl)
