-- ===== src/Authorization/Policy/Resolved.antt =====
-- What `resolve` and `expandInheritance` give.
use platform_ts.OrderedMap
use platform_ts.OrderedMap.{Map}
use platform_ts.OrderedMap.Laws.{get-put_self, get-put_ne}
use platform_ts.Authorization.Members.{contains}
use platform_ts.Authorization.Permissions.{has-new_set, new_set, PermissionSet, has}
use platform_ts.Authorization.Policy.{
  Role, parents_of, permissions_of, resolve_each, resolve, resolve_all,
}
use platform_ts.Authorization.Policy.Cycles.{Grounded, grounded}
use platform_ts.Prelude.{
  ℕ, zero, suc, String, ◌≡◌, sym, ap, subst, ◌∙◌, ◌≢◌, ◌↔◌, ◌⊎◌, inl, inr, true, none, some, List,
  [], ◌∷◌, arith, string_discrete, Option-cases, set, All,
}
use platform_ts.Authorization.Policy.Expansion.{
  self, up, Entitles, IsExpansion, Extends, Knows, Through, some-inj, resolve_each-Expands,
}

module _ (by_name : Map Role) where
  parent-Grounded :
      (name p : String)
      → Grounded by_name name
      → contains p (parents_of by_name name) ≡ true
      → Grounded by_name p
  parent-Grounded name p (grounded _ f) k = f p k

  -- A role has its own permissions and what its parents have.
  entitled-Through :
      (name perm : String)
      → Entitles by_name name perm
      → (contains perm (permissions_of by_name name) ≡ true)
        ⊎ Through by_name (parents_of by_name name) perm
  entitled-Through name perm (r, self _, c) = inl c
  entitled-Through name perm (r, up _ p _ k l, c) = inr (p, k, (r, l, c))

  parts-IsExpansion :
      (name : String) (set : PermissionSet)
      → ((perm : String)
          → perm ≢ ""
          → (has perm set ≡ true) ↔ (
              (has perm (new_set (permissions_of by_name name)) ≡ true)
              ⊎ Through by_name (parents_of by_name name) perm))
      → IsExpansion by_name name set
  parts-IsExpansion name set parts perm ne =
      let own = has-new_set perm (permissions_of by_name name) in
      (
        λ h. elim ((parts perm ne).0 h) [
          | inl k ↦ (name, self name, ground (arith, k, own, ne))
          | inr (p, k, (r, l, c)) ↦ (r, up name p r k l, c)
        ],
        λ t. elim (entitled-Through name perm t) [
          | inl c ↦ (parts perm ne).1 (inl (ground (arith, c, own, ne)))
          | inr u ↦ (parts perm ne).1 (inr u)
        ],
      )

  pub resolve-zero :
      (name : String) (e : Map PermissionSet) (x : PermissionSet × Map PermissionSet)
      → resolve by_name zero name e ≢ some x
  unfolding resolve
  resolve-zero name e x = λ h. cc h

  pub resolve_known :
      (fuel : ℕ) (name : String) (e : Map PermissionSet) (memo : PermissionSet)
      → OrderedMap.get name e ≡ some memo
      → resolve by_name (suc fuel) name e ≡ some (memo, e)
  unfolding resolve
  resolve_known fuel name e memo at = ground (arith, at)

  pub resolve_new :
      (fuel : ℕ) (name : String) (e : Map PermissionSet)
      → OrderedMap.get name e ≡ none
      → let set = new_set (permissions_of by_name name) in
        resolve by_name (suc fuel) name e
        ≡ resolve_each by_name
            (resolve by_name fuel)
            name
            (parents_of by_name name)
            set
            (OrderedMap.put name set e)
  unfolding resolve
  resolve_new fuel name e at = ground (arith, at)

  -- What is resolved is the expansion of its role, and so is what is added to the memo.
  resolve-Expands :
      (fuel : ℕ) (name : String) (e e' : Map PermissionSet) (set : PermissionSet)
      → Grounded by_name name
      → Knows by_name name e
      → resolve by_name fuel name e ≡ some (set, e')
      → IsExpansion by_name name set × Extends by_name e e'
  resolve-Expands zero name e e' set g knows h = absurd (resolve-zero name e (set, e') h)
  resolve-Expands (suc fuel) name e e' set g knows h = elim (Option-cases (OrderedMap.get name e)) [
    | inr (memo, at) ↦
        subst
          (λ (x : PermissionSet × Map PermissionSet).
            IsExpansion by_name name x.0 × Extends by_name e x.1)
          (some-inj (memo, e) (set, e') (sym (resolve_known fuel name e memo at) ∙ h))
          (knows name (self name) memo at, λ k s there. inl there)
    | inl new ↦
        let own = new_set (permissions_of by_name name) in
        let (ext, parts) =
          resolve_each-Expands by_name (resolve by_name fuel) name (parents_of by_name name) own set
            e (OrderedMap.put name own e) e' g (λ p k. k)
            (λ p k e1 e2 s known did.
              resolve-Expands fuel p e1 e2 s (parent-Grounded name p g k) known did)
            knows
            (get-put_self name own e, λ k s ne at. inl (sym (get-put_ne name k own e ne) ∙ at))
            (sym (resolve_new fuel name e new) ∙ h) in
        let expansion = parts-IsExpansion name set parts in
        (
          expansion,
          λ k s at. elim (string_discrete name k) [
            | yes same ↦
                let is_set : set ≡ s =
                  some-inj set s (sym ext.0 ∙ ap (λ k. OrderedMap.get k e') same ∙ at) in
                inr (
                  subst (λ s. IsExpansion by_name k s) is_set
                    (subst (λ k. IsExpansion by_name k set) same expansion))
            | no ne ↦ ext.1 k s ne at
          ],
        )
  ]

  -- If every line of inheritance comes to an end, each set in an expansion of the roles has just the
  -- permissions of its role and of all that the role inherits from, the empty one apart.
  pub resolve_all-IsExpansion :
      (fuel : ℕ) (roles : List Role) (e e' : Map PermissionSet)
      → All (λ r. Grounded by_name r.name) roles
      → ((k : String) (s : PermissionSet) → OrderedMap.get k e ≡ some s → IsExpansion by_name k s)
      → resolve_all by_name fuel roles e ≡ some e'
      → (k : String) (s : PermissionSet) → OrderedMap.get k e' ≡ some s
      → IsExpansion by_name k s
  unfolding resolve_all
  resolve_all-IsExpansion fuel [] e e' g right h k s at =
      right k s (ap (OrderedMap.get k) (some-inj e e' h) ∙ at)
  resolve_all-IsExpansion fuel (r ∷ rs) e e' g right h k s at =
      elim (Option-cases (resolve by_name fuel r.name e)) [
        | inl stuck ↦ absurd (ground (arith, stuck, h))
        | inr ((t, e1), did) ↦
            let (_, ext) = resolve-Expands fuel r.name e e1 t g.0 (λ k l s at. right k s at) did in
            resolve_all-IsExpansion fuel rs e1 e' g.1
              (λ k s at. elim (ext k s at) [ inl old ↦ right k s old | inr x ↦ x ])
              (ground (arith, did, h)) k s at
      ]
