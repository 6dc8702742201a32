-- ===== src/Authorization/Policy/Expansion.antt =====
-- What the expansion of a role holds.
use platform_ts.OrderedMap
use platform_ts.OrderedMap.{Map}
use platform_ts.OrderedMap.Laws.{get-put_self, get-put_ne}
use platform_ts.Authorization.Members.{contains}
use platform_ts.Authorization.Permissions.{PermissionSet, has, union, has-union}
use platform_ts.Authorization.Policy.{Role, parents_of, permissions_of, resolve_each}
use platform_ts.Authorization.Policy.Cycles.{Grounded, grounded}
use platform_ts.Prelude.{
  String, ◌≡◌, sym, subst, ◌∙◌, ◌≢◌, ◌↔◌, ◌⊎◌, inl, inr, true, false, ◌||◌, Option, some, List, [],
  ◌∷◌, arith, string_discrete, Bool-cases, Option-cases, set,
}

pub some-inj : {A : Type 0} (a b : A) → some a ≡ some b → a ≡ b
some-inj a b e = cc e

module _ (by_name : Map Role) where
  -- A role and all that it inherits from.

  pub data Lineage : String → String → Type 0 where
    self : (a : String) → Lineage a a
    up : (a p b : String) → contains p (parents_of by_name a) ≡ true → Lineage p b → Lineage a b

  Lineage-snoc :
      {a b : String} (p : String)
      → Lineage a b
      → contains p (parents_of by_name b) ≡ true
      → Lineage a p
  Lineage-snoc p (self a) k = up a p p k (self p)
  Lineage-snoc p (up a q b h l) k = up a q p h (Lineage-snoc p l k)

  abbrev IsCyclic : String → Type 0
  IsCyclic a = (p : String) × (contains p (parents_of by_name a) ≡ true) × Lineage p a

  rotate : (a p : String) → contains p (parents_of by_name a) ≡ true → Lineage p a → IsCyclic p
  rotate a p k (self _) = (p, k, self p)
  rotate a p k (up _ q _ h l) = (q, h, Lineage-snoc p l k)

  Grounded-acyclic : (a : String) → Grounded by_name a → ¬ IsCyclic a
  Grounded-acyclic a (grounded _ f) = λ (p, k, l). Grounded-acyclic p (f p k) (rotate a p k l)

  -- Some role of the lineage has the permission.
  abbrev pub Entitles : String → String → Type 0
  Entitles name perm =
      (r : String) × Lineage name r × (contains perm (permissions_of by_name r) ≡ true)

  -- The set has just what the lineage of the role entitles it to.
  abbrev pub IsExpansion : String → PermissionSet → Type 0
  IsExpansion name set = (perm : String) → perm ≢ "" → (has perm set ≡ true) ↔ Entitles name perm

  -- What a part of the expansion leaves in the memo: an entry is an old one or an expansion.
  abbrev pub Extends : Map PermissionSet → Map PermissionSet → Type 0
  Extends e e' =
      (k : String) (s : PermissionSet)
      → OrderedMap.get k e' ≡ some s
      → (OrderedMap.get k e ≡ some s) ⊎ IsExpansion k s

  -- The memo is right about the lineage of a role.
  abbrev pub Knows : String → Map PermissionSet → Type 0
  Knows name e =
      (k : String)
      → Lineage name k
      → (s : PermissionSet) → OrderedMap.get k e ≡ some s
      → IsExpansion k s

  -- The same but for one role, whose entry is the given one.
  abbrev pub ExtendsBut : String → PermissionSet → Map PermissionSet → Map PermissionSet → Type 0
  ExtendsBut name set e e' =
      (OrderedMap.get name e' ≡ some set)
      × ((k : String) (s : PermissionSet)
          → name ≢ k
          → OrderedMap.get k e' ≡ some s
          → (OrderedMap.get k e ≡ some s) ⊎ IsExpansion k s)

  -- What `resolve` does for one parent.
  abbrev pub Resolves :
      (String → Map PermissionSet → Option (PermissionSet × Map PermissionSet)) → String → Type 0
  Resolves f p =
      (e e' : Map PermissionSet) (s : PermissionSet)
      → Knows p e
      → f p e ≡ some (s, e')
      → IsExpansion p s × Extends e e'

  -- Some of the parents has the permission.
  abbrev pub Through : List String → String → Type 0
  Through ps perm = (p : String) × (contains p ps ≡ true) × Entitles p perm

  later : (q p : String) (ps : List String) → contains q ps ≡ true → contains q (p ∷ ps) ≡ true
  unfolding contains
  later q p ps k = ground (arith, k)

  -- A parent's share joins those of the parents after it.
  joins :
      (p : String) (ps : List String) (set s next final : PermissionSet) (perm : String)
      → (has perm s ≡ true) ↔ Entitles p perm
      → has perm next ≡ (has perm set || (has perm s || false))
      → (has perm final ≡ true) ↔ ((has perm next ≡ true) ⊎ Through ps perm)
      → (has perm final ≡ true) ↔ ((has perm set ≡ true) ⊎ Through (p ∷ ps) perm)
  unfolding contains
  joins p ps set s next final perm of_s of_next of_final = (
    λ h. elim (of_final.0 h) [
      | inr (q, k, t) ↦ inr (q, ground (arith, k), t)
      | inl k ↦ elim (Bool-cases (has perm set)) [
        | inl yes_set ↦ inl yes_set
        | inr no_set ↦ inr (p, ground arith, of_s.0 (ground (arith, k, of_next, no_set)))
      ]
    ],
    λ h. elim h [
      | inl k ↦ of_final.1 (inl (ground (arith, k, of_next)))
      | inr (q, k, t) ↦ elim (string_discrete p q) [
        | yes same ↦
            let by_s : has perm s ≡ true = of_s.1 (subst (λ q. Entitles q perm) (sym same) t) in
            of_final.1 (inl (ground (arith, by_s, of_next)))
        | no ne ↦ of_final.1 (inr (q, ground (arith, k, ne), t))
      ]
    ],
  )

  pub resolve_each-Expands :
      (f : String → Map PermissionSet → Option (PermissionSet × Map PermissionSet)) (name : String)
      (ps : List String) (set final : PermissionSet) (e cur e' : Map PermissionSet)
      → Grounded by_name name
      → ((p : String) → contains p ps ≡ true → contains p (parents_of by_name name) ≡ true)
      → ((p : String) → contains p ps ≡ true → Resolves f p)
      → Knows name e
      → ExtendsBut name set e cur
      → resolve_each by_name f name ps set cur ≡ some (final, e')
      → ExtendsBut name final e e'
        × ((perm : String)
            → perm ≢ ""
            → (has perm final ≡ true) ↔ ((has perm set ≡ true) ⊎ Through ps perm))
  unfolding resolve_each contains
  resolve_each-Expands f name [] set final e cur e' g parents each knows ext h =
      subst
        (λ (x : PermissionSet × Map PermissionSet).
          ExtendsBut name x.0 e x.1
          × ((perm : String)
              → perm ≢ ""
              → (has perm x.0 ≡ true) ↔ ((has perm set ≡ true) ⊎ Through [] perm)))
        (some-inj (set, cur) (final, e') h)
        (
          ext,
          λ perm ne.
              (λ k. inl k, λ k. elim k [ inl k ↦ k | inr (p, nobody, _) ↦ absurd (cc nobody) ]),
        )
  resolve_each-Expands f name (p ∷ ps) set final e cur e' g parents each knows ext h =
      elim (Option-cases (f p cur)) [
        | inl stuck ↦ absurd (ground (arith, stuck, h))
        | inr ((s, e1), did) ↦
            let first : contains p (p ∷ ps) ≡ true = ground arith in
            let parent = parents p first in
            let knows_p : Knows p cur = λ k l t at. elim (string_discrete name k) [
              | yes same ↦
                  absurd (Grounded-acyclic name g (p, parent, subst (Lineage p) (sym same) l))
              | no ne ↦ elim (ext.1 k t ne at) [
                | inl old ↦ knows k (up name p k parent l) t old
                | inr x ↦ x
              ]
            ] in
            let sub = each p first cur e1 s knows_p did in
            let next = union set (s ∷ []) in
            let ext2 : ExtendsBut name next e (OrderedMap.put name next e1) = (
              get-put_self name next e1,
              λ k t ne at. elim (sub.1 k t (sym (get-put_ne name k next e1 ne) ∙ at)) [
                | inl in_cur ↦ ext.1 k t ne in_cur
                | inr x ↦ inr x
              ],
            ) in
            let rest =
              resolve_each-Expands f name ps next final e (OrderedMap.put name next e1) e' g
                (λ q k. parents q (later q p ps k)) (λ q k. each q (later q p ps k)) knows ext2
                (ground (arith, did, h)) in
            (
              rest.0,
              λ perm ne.
                  joins p ps set s next final perm (sub.0 perm ne) (has-union perm set (s ∷ []))
                    (rest.1 perm ne),
            )
      ]
