-- ===== src/Authorization/Policy/Rejects.antt =====
-- What the search for cycles rejects.
use platform_ts.OrderedMap
use platform_ts.OrderedMap.{Map}
use platform_ts.OrderedMap.Laws.{get-put_self, get-put_ne}
use platform_ts.Authorization.Members.{contains}
use platform_ts.Authorization.Sorting.{sort_texts}
use platform_ts.Authorization.Policy.{
  Role, Checked, passed, rejected, PolicyProblem, parents_of, Mark, visiting, visited, walk_each,
  walk, names, detect_cycles,
}
use platform_ts.Authorization.Policy.Cycles.{Mark-cases, Checked-all, passed-inj, walk_cases}
use platform_ts.Prelude.{
  ℕ, zero, suc, String, ◌≡◌, sym, ap, subst, ◌∙◌, ◌≢◌, ◌⊎◌, inl, inr, true, some, List, [], ◌∷◌,
  arith, string_discrete, Option-cases,
}

module _ (by_name : Map Role) where
  -- One role inherits from another, directly or through others.
  pub data Inherits : String → String → Type 0 where
    direct : (a b : String) → contains b (parents_of by_name a) ≡ true → Inherits a b
    through : {a b c : String} → Inherits a b → Inherits b c → Inherits a c

  -- Every role on the stack inherits from the one that the search comes to.
  abbrev Stacked : String → Map Mark → Type 0
  Stacked name marks = (k : String) → OrderedMap.get k marks ≡ some visiting → Inherits k name

  -- No role is on the stack afterwards that was not before.
  abbrev Unwinds : Map Mark → Map Mark → Type 0
  Unwinds marks marks' =
      (k : String)
      → OrderedMap.get k marks' ≡ some visiting
      → OrderedMap.get k marks ≡ some visiting

  walk_each-Unwinds :
      (f : String → Map Mark → Checked (Map Mark)) (ps : List String) (marks marks' : Map Mark)
      → ((p : String) (m m' : Map Mark) → f p m ≡ passed m' → Unwinds m m')
      → walk_each by_name f ps marks ≡ passed marks'
      → Unwinds marks marks'
  unfolding walk_each
  walk_each-Unwinds f [] marks marks' each h =
      λ k e. ap (OrderedMap.get k) (passed-inj marks marks' h) ∙ e
  walk_each-Unwinds f (p ∷ ps) marks marks' each h = elim (Checked-all (f p marks)) [
    | inl (m, did) ↦ λ k e.
        each p marks m did k (walk_each-Unwinds f ps m marks' each (ground (arith, did, h)) k e)
    | inr (inl (x, e)) ↦ absurd (ground (arith, e, h))
    | inr (inr e) ↦ absurd (ground (arith, e, h))
  ]

  walk-Unwinds :
      (fuel : ℕ) (name : String) (marks marks' : Map Mark)
      → walk by_name fuel name marks ≡ passed marks'
      → Unwinds marks marks'
  unfolding walk
  walk-Unwinds zero name marks marks' h = absurd (cc h)
  walk-Unwinds (suc fuel) name marks marks' h = elim (walk_cases by_name fuel name marks marks' h) [
    | inl (there, same) ↦ λ k e. ap (OrderedMap.get k) same ∙ e
    | inr (new, m, did, is_put) ↦ λ k e. elim (string_discrete name k) [
      | yes at ↦ absurd (ground (arith, at, e, is_put, get-put_self name visited m))
      | no ne ↦
          let in_m : OrderedMap.get k m ≡ some visiting =
            sym (get-put_ne name k visited m ne) ∙ ap (OrderedMap.get k) (sym is_put) ∙ e in
          sym (get-put_ne name k visiting marks ne)
          ∙ walk_each-Unwinds (walk by_name fuel) (parents_of by_name name)
              (OrderedMap.put name visiting marks) m (walk-Unwinds fuel) did k in_m
    ]
  ]

  abbrev SomeCycle : Type 0
  SomeCycle = (k : String) × Inherits k k

  walk_each_rejects :
      (f : String → Map Mark → Checked (Map Mark)) (ps : List String) (marks : Map Mark)
      (e : PolicyProblem)
      → ((p : String) (m m' : Map Mark) → f p m ≡ passed m' → Unwinds m m')
      → ((p : String) (m : Map Mark)
          → contains p ps ≡ true
          → f p m ≡ rejected e
          → Stacked p m
          → SomeCycle)
      → ((p : String) → contains p ps ≡ true → Stacked p marks)
      → walk_each by_name f ps marks ≡ rejected e
      → SomeCycle
  unfolding walk_each contains
  walk_each_rejects f [] marks e unwinds each stack h = absurd (cc h)
  walk_each_rejects f (p ∷ ps) marks e unwinds each stack h = elim (Checked-all (f p marks)) [
    | inl (m, did) ↦
        walk_each_rejects f ps m e unwinds (λ q m' k. each q m' (ground (arith, k)))
          (λ q k j at. stack q (ground (arith, k)) j (unwinds p marks m did j at))
          (ground (arith, did, h))
    | inr (inl (x, did)) ↦
        each p marks (ground arith) (ground (arith, did, h)) (stack p (ground arith))
    | inr (inr did) ↦ absurd (ground (arith, did, h))
  ]

  walk-zero :
      (name : String) (marks : Map Mark) (e : PolicyProblem)
      → walk by_name zero name marks ≢ rejected e
  unfolding walk
  walk-zero name marks e = λ h. cc h

  rejected_cases :
      (fuel : ℕ) (name : String) (marks : Map Mark) (e : PolicyProblem)
      → walk by_name (suc fuel) name marks ≡ rejected e
      → (OrderedMap.get name marks ≡ some visiting)
        ⊎ (walk_each by_name
              (walk by_name fuel)
              (parents_of by_name name)
              (OrderedMap.put name visiting marks)
            ≡ rejected e)
  unfolding walk
  rejected_cases fuel name marks e h = elim (Option-cases (OrderedMap.get name marks)) [
    | inr (m, at) ↦ elim (Mark-cases m) [
      | inl v ↦ inl (at ∙ ap some v)
      | inr v ↦ absurd (ground (arith, at, v, h))
    ]
    | inl at ↦
        elim (Checked-all (
          walk_each by_name (walk by_name fuel) (parents_of by_name name)
            (OrderedMap.put name visiting marks))) [
              | inl (m, did) ↦ absurd (ground (arith, at, did, h))
              | inr (inl (x, did)) ↦ inr (did ∙ ground (arith, at, did, h))
              | inr (inr did) ↦ absurd (ground (arith, at, did, h))
            ]
  ]

  walk_rejects :
      (fuel : ℕ) (name : String) (marks : Map Mark) (e : PolicyProblem)
      → walk by_name fuel name marks ≡ rejected e
      → Stacked name marks
      → SomeCycle
  walk_rejects zero name marks e h stack = absurd (walk-zero name marks e h)
  walk_rejects (suc fuel) name marks e h stack = elim (rejected_cases fuel name marks e h) [
    | inl at ↦ (name, stack name at)
    | inr did ↦
        walk_each_rejects (walk by_name fuel) (parents_of by_name name)
          (OrderedMap.put name visiting marks) e (walk-Unwinds fuel)
          (λ p m k. walk_rejects fuel p m e)
          (λ p k j at. elim (string_discrete name j) [
            | yes same ↦ subst (λ j. Inherits j p) same (direct name p k)
            | no ne ↦
                through (stack j (sym (get-put_ne name j visiting marks ne) ∙ at)) (direct name p k)
          ])
          did
  ]

  -- The search reports a cycle only if some role inherits from itself.
  pub detect_cycles_rejects :
      (fuel : ℕ) (e : PolicyProblem)
      → detect_cycles by_name fuel ≡ rejected e
      → (k : String) × Inherits k k
  unfolding detect_cycles OrderedMap.get
  detect_cycles_rejects fuel e h =
      walk_each_rejects (walk by_name fuel) (sort_texts (names by_name)) [] e (walk-Unwinds fuel)
        (λ p m k. walk_rejects fuel p m e) (λ p k j at. absurd (cc at)) h
