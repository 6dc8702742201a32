-- ===== src/Authorization/Counting.antt =====
-- How many keys a map lacks, which writes lessen.
use platform_ts.OrderedMap.{Map, get, put}
use platform_ts.OrderedMap.Laws.{get-put_self, get-put_ne}
use platform_ts.Authorization.Members.{contains}
use platform_ts.Prelude.{
  ℕ, suc, ◌≤◌, ◌<◌, String, ◌≡◌, sym, ◌∙◌, true, none, some, List, [], ◌∷◌, arith, string_discrete,
}

module _ {V : Type 0} where
  -- How many of the given keys the map does not have.
  abbrev pub left : List String → Map V → ℕ
  left [] marks = 0
  left (k ∷ ks) marks = elim (get k marks) [ none ↦ suc (left ks marks) | some _ ↦ left ks marks ]

  -- No key is gone.
  abbrev pub Grows : Map V → Map V → Type 0
  Grows marks marks' = (k : String) → get k marks' ≡ none → get k marks ≡ none

  pub left-Grows : (ks : List String) (m m' : Map V) → Grows m m' → left ks m' ≤ left ks m
  left-Grows [] m m' g = omega arith
  left-Grows (k ∷ ks) m m' g = ground (arith, g k, left-Grows ks m m' g)

  pub put-Grows : (k : String) (v : V) (m : Map V) → Grows m (put k v m)
  put-Grows k v m = λ j e. elim (string_discrete k j) [
    | yes same ↦ absurd (ground (arith, same, e, get-put_self k v m))
    | no ne ↦ sym (get-put_ne k j v m ne) ∙ e
  ]

  pub left-put :
      (k : String) (v : V) (ks : List String) (m : Map V)
      → contains k ks ≡ true
      → get k m ≡ none
      → left ks (put k v m) < left ks m
  unfolding contains
  left-put k v [] m h e = absurd (cc h)
  left-put k v (j ∷ ks) m h e = elim (string_discrete j k) [
    | yes same ↦
        ground (arith, same, e, get-put_self k v m, left-Grows ks m (put k v m) (put-Grows k v m))
    | no ne ↦ ground (arith, ne, h, get-put_ne k j v m (λ s. ne (sym s)), left-put k v ks m, e)
  ]
