-- ===== src/Authorization/Policy/Outcome.antt =====
-- The entries of an expansion, and the fuel that it takes.
use platform_ts.OrderedMap
use platform_ts.OrderedMap.{Map}
use platform_ts.OrderedMap.Laws.{get-put_self}
use platform_ts.Authorization.Counting.{left, Grows, left-Grows, put-Grows, left-put}
use platform_ts.Authorization.Members.{contains}
use platform_ts.Authorization.Permissions.{PermissionSet, new_set, union}
use platform_ts.Authorization.Policy.{
  Role, parents_of, permissions_of, names, resolve, resolve_each, resolve_all,
}
use platform_ts.Authorization.Policy.Ends.{unknown}
use platform_ts.Authorization.Policy.Expansion.{some-inj}
use platform_ts.Authorization.Policy.Resolved.{resolve-zero, resolve_known, resolve_new}
use platform_ts.Prelude.{
  ℕ, zero, suc, ◌<◌, String, ◌≡◌, refl, sym, ap, subst, ◌∙◌, ◌≢◌, inl, inr, Option, none, some,
  List, [], ◌∷◌, arith, Bool-cases, Option-cases, All,
}

module _ (by_name : Map Role) where
  resolve_each-Grows :
      (f : String → Map PermissionSet → Option (PermissionSet × Map PermissionSet)) (name : String)
      (ps : List String) (s t : PermissionSet) (e e' : Map PermissionSet)
      → ((p : String) (u : PermissionSet) (a b : Map PermissionSet)
          → f p a ≡ some (u, b)
          → Grows a b)
      → OrderedMap.get name e ≡ some s
      → resolve_each by_name f name ps s e ≡ some (t, e')
      → Grows e e' × (OrderedMap.get name e' ≡ some t)
  unfolding resolve_each
  resolve_each-Grows f name [] s t e e' grows at h =
      subst
        (λ (x : PermissionSet × Map PermissionSet).
          Grows e x.1 × (OrderedMap.get name x.1 ≡ some x.0))
        (some-inj (s, e) (t, e') h) (λ k a. a, at)
  resolve_each-Grows f name (p ∷ ps) s t e e' grows at h = elim (Option-cases (f p e)) [
    | inl stuck ↦ absurd (ground (arith, stuck, h))
    | inr ((u, e1), did) ↦
        let next = union s (u ∷ []) in
        let (rest, last) =
          resolve_each-Grows f name ps next t (OrderedMap.put name next e1) e' grows
            (get-put_self name next e1) (ground (arith, did, h)) in
        (λ k a. grows p u e e1 did k (put-Grows name next e1 k (rest k a)), last)
  ]

  resolve-Grows :
      (fuel : ℕ) (name : String) (s : PermissionSet) (e e' : Map PermissionSet)
      → resolve by_name fuel name e ≡ some (s, e')
      → Grows e e' × (OrderedMap.get name e' ≡ some s)
  resolve-Grows zero name s e e' h = absurd (resolve-zero by_name name e (s, e') h)
  resolve-Grows (suc fuel) name s e e' h = elim (Option-cases (OrderedMap.get name e)) [
    | inr (memo, at) ↦
        subst
          (λ (x : PermissionSet × Map PermissionSet).
            Grows e x.1 × (OrderedMap.get name x.1 ≡ some x.0))
          (some-inj (memo, e) (s, e') (sym (resolve_known by_name fuel name e memo at) ∙ h))
          (λ k a. a, at)
    | inl new ↦
        let own = new_set (permissions_of by_name name) in
        let (grows, last) =
          resolve_each-Grows (resolve by_name fuel) name (parents_of by_name name) own s
            (OrderedMap.put name own e) e' (λ p u a b did. (resolve-Grows fuel p u a b did).0)
            (get-put_self name own e) (sym (resolve_new by_name fuel name e new) ∙ h) in
        (λ k a. put-Grows name own e k (grows k a), last)
  ]

  resolve_each_ends :
      (f : String → Map PermissionSet → Option (PermissionSet × Map PermissionSet)) (name : String)
      (ps : List String) (s : PermissionSet) (e : Map PermissionSet) (bound : ℕ)
      → ((p : String) (u : PermissionSet) (a b : Map PermissionSet)
          → f p a ≡ some (u, b)
          → Grows a b)
      → ((p : String) (a : Map PermissionSet) → left (names by_name) a < bound → f p a ≢ none)
      → left (names by_name) e < bound
      → resolve_each by_name f name ps s e ≢ none
  unfolding resolve_each
  resolve_each_ends f name [] s e bound grows ends l = λ h. cc h
  resolve_each_ends f name (p ∷ ps) s e bound grows ends l = λ h. elim (Option-cases (f p e)) [
    | inl stuck ↦ ends p e l stuck
    | inr ((u, e1), did) ↦
        let next = union s (u ∷ []) in
        resolve_each_ends f name ps next (OrderedMap.put name next e1) bound grows ends
          (omega (
            arith,
            l,
            left-Grows (names by_name) e e1 (grows p u e e1 did),
            left-Grows (names by_name) e1 (OrderedMap.put name next e1) (put-Grows name next e1),
          ))
          (ground (arith, did, h))
  ]

  resolve_each_nothing :
      (f : String → Map PermissionSet → Option (PermissionSet × Map PermissionSet)) (name : String)
      (s : PermissionSet) (e : Map PermissionSet)
      → resolve_each by_name f name [] s e ≢ none
  unfolding resolve_each
  resolve_each_nothing f name s e = λ h. cc h

  resolve_ends :
      (fuel : ℕ) (name : String) (e : Map PermissionSet)
      → left (names by_name) e < fuel
      → resolve by_name fuel name e ≢ none
  resolve_ends zero name e l = absurd (omega arith)
  resolve_ends (suc fuel) name e l = λ h. elim (Option-cases (OrderedMap.get name e)) [
    | inr (memo, at) ↦ cc (sym (resolve_known by_name fuel name e memo at) ∙ h)
    | inl new ↦
        let own = new_set (permissions_of by_name name) in
        let each = sym (resolve_new by_name fuel name e new) ∙ h in
        elim (Bool-cases (contains name (names by_name))) [
          | inl known ↦
              resolve_each_ends (resolve by_name fuel) name (parents_of by_name name) own
                (OrderedMap.put name own e) fuel (λ p u a b did. (resolve-Grows fuel p u a b did).0)
                (resolve_ends fuel)
                (omega (arith, l, left-put name own (names by_name) e known new)) each
          | inr not_known ↦
              let no_parents : parents_of by_name name ≡ [] =
                ground (arith, unknown by_name name by_name not_known) in
              resolve_each_nothing (resolve by_name fuel) name own (OrderedMap.put name own e) (
                ap
                  (λ ps.
                    resolve_each by_name (resolve by_name fuel) name ps own
                      (OrderedMap.put name own e))
                  (sym no_parents)
                ∙ each)
        ]
  ]

  -- Each role has an entry.
  abbrev pub HasEntries : List Role → Map PermissionSet → Type 0
  HasEntries roles e = All (λ r. OrderedMap.get r.name e ≢ none) roles

  HasEntries-Grows :
      (roles : List Role) (e e' : Map PermissionSet)
      → Grows e e'
      → HasEntries roles e
      → HasEntries roles e'
  HasEntries-Grows [] e e' g h = tt
  HasEntries-Grows (r ∷ rs) e e' g h = (λ a. h.0 (g r.name a), HasEntries-Grows rs e e' g h.1)

  pub resolve_all_ends :
      (fuel : ℕ) (roles : List Role) (e : Map PermissionSet)
      → left (names by_name) e < fuel
      → (e' : Map PermissionSet) × (resolve_all by_name fuel roles e ≡ some e')
        × Grows e e'
        × HasEntries roles e'
  unfolding resolve_all
  resolve_all_ends fuel [] e l = (e, refl, λ k a. a, tt)
  resolve_all_ends fuel (r ∷ rs) e l = elim (Option-cases (resolve by_name fuel r.name e)) [
    | inl stuck ↦ absurd (resolve_ends fuel r.name e l stuck)
    | inr ((s, e1), did) ↦
        let (grows, at) = resolve-Grows fuel r.name s e e1 did in
        let (e', rest, grows', entries) =
          resolve_all_ends fuel rs e1 (omega (arith, l, left-Grows (names by_name) e e1 grows)) in
        (
          e',
          ground (arith, did, rest),
          λ k a. grows k (grows' k a),
          (λ a. cc (sym at ∙ grows' r.name a), entries),
        )
  ]
