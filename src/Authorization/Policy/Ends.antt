-- ===== src/Authorization/Policy/Ends.antt =====
-- The end of the search for cycles.
use platform_ts.OrderedMap
use platform_ts.OrderedMap.{Map}
use platform_ts.Authorization.Members.{contains}
use platform_ts.Authorization.Sorting.{sort_texts}
use platform_ts.Authorization.Policy.{
  Role, Checked, passed, rejected, unfinished, PolicyProblem, parents_of, Mark, visiting, visited,
  walk_each, walk, names, detect_cycles,
}
use platform_ts.Authorization.Counting.{left, Grows, left-Grows, put-Grows, left-put}
use platform_ts.Authorization.Policy.Rejects.{Inherits, detect_cycles_rejects}
use platform_ts.Authorization.Policy.Cycles.{
  Grounded, detect_cycles-Grounded, Mark-cases, Checked-all, passed-inj, walk_cases,
}
use platform_ts.Prelude.{
  ℕ, zero, suc, ◌<◌, String, ◌≡◌, refl, sym, ap, ◌∙◌, ◌≢◌, ◌⊎◌, inl, inr, true, false, none, List,
  [], ◌∷◌, map, arith, Bool-cases, Option-cases, length,
}

module _ (by_name : Map Role) where
  walk_each-Grows :
      (f : String → Map Mark → Checked (Map Mark)) (ps : List String) (marks marks' : Map Mark)
      → ((p : String) (m m' : Map Mark) → f p m ≡ passed m' → Grows m m')
      → walk_each by_name f ps marks ≡ passed marks'
      → Grows marks marks'
  unfolding walk_each
  walk_each-Grows f [] marks marks' each h =
      λ k e. ap (OrderedMap.get k) (passed-inj marks marks' h) ∙ e
  walk_each-Grows f (p ∷ ps) marks marks' each h = elim (Checked-all (f p marks)) [
    | inl (m, did) ↦ λ k e.
        each p marks m did k (walk_each-Grows f ps m marks' each (ground (arith, did, h)) k e)
    | inr (inl (x, e)) ↦ absurd (ground (arith, e, h))
    | inr (inr e) ↦ absurd (ground (arith, e, h))
  ]

  walk-Grows :
      (fuel : ℕ) (name : String) (marks marks' : Map Mark)
      → walk by_name fuel name marks ≡ passed marks'
      → Grows marks marks'
  unfolding walk
  walk-Grows zero name marks marks' h = absurd (cc h)
  walk-Grows (suc fuel) name marks marks' h = elim (walk_cases by_name fuel name marks marks' h) [
    | inl (there, same) ↦ λ k e. ap (OrderedMap.get k) same ∙ e
    | inr (new, m, did, is_put) ↦ λ k e. put-Grows name visiting marks k (
        walk_each-Grows (walk by_name fuel) (parents_of by_name name)
          (OrderedMap.put name visiting marks) m (walk-Grows fuel) did k
          (put-Grows name visited m k (ap (OrderedMap.get k) (sym is_put) ∙ e)))
  ]

  walk_each_ends :
      (f : String → Map Mark → Checked (Map Mark)) (ps : List String) (marks : Map Mark)
      (ks : List String) (bound : ℕ)
      → ((p : String) (m m' : Map Mark) → f p m ≡ passed m' → Grows m m')
      → ((p : String) (m : Map Mark) → left ks m < bound → f p m ≢ unfinished)
      → left ks marks < bound
      → walk_each by_name f ps marks ≢ unfinished
  unfolding walk_each
  walk_each_ends f [] marks ks bound grows ends l = λ h. cc h
  walk_each_ends f (p ∷ ps) marks ks bound grows ends l = λ h. elim (Checked-all (f p marks)) [
    | inl (m, did) ↦
        walk_each_ends f ps m ks bound grows ends
          (omega (arith, l, left-Grows ks marks m (grows p marks m did))) (ground (arith, did, h))
    | inr (inl (x, e)) ↦ ground (arith, e, h)
    | inr (inr e) ↦ ends p marks l e
  ]

  pub unknown :
      (name : String) (m : Map Role)
      → contains name (map (λ e. e.0) m) ≡ false
      → OrderedMap.get name m ≡ none
  unfolding contains OrderedMap.get
  unknown name [] h = refl
  unknown name ((k, r) ∷ m) h = ground (arith, unknown name m, h)

  walk_begins :
      (fuel : ℕ) (name : String) (marks : Map Mark)
      → walk by_name (suc fuel) name marks ≡ unfinished
      → (OrderedMap.get name marks ≡ none)
        × (walk_each by_name
              (walk by_name fuel)
              (parents_of by_name name)
              (OrderedMap.put name visiting marks)
            ≡ unfinished)
  unfolding walk
  walk_begins fuel name marks h = elim (Option-cases (OrderedMap.get name marks)) [
    | inr (m, at) ↦ elim (Mark-cases m) [
      | inl v ↦ absurd (ground (arith, at, v, h))
      | inr v ↦ absurd (ground (arith, at, v, h))
    ]
    | inl at ↦
        elim (Checked-all (
          walk_each by_name (walk by_name fuel) (parents_of by_name name)
            (OrderedMap.put name visiting marks))) [
              | inl (m, did) ↦ absurd (ground (arith, at, did, h))
              | inr (inl (x, did)) ↦ absurd (ground (arith, at, did, h))
              | inr (inr did) ↦ (at, did)
            ]
  ]

  walk_each_nothing :
      (f : String → Map Mark → Checked (Map Mark)) (marks : Map Mark)
      → walk_each by_name f [] marks ≢ unfinished
  unfolding walk_each
  walk_each_nothing f marks = λ h. cc h

  walk_ends :
      (fuel : ℕ) (name : String) (marks : Map Mark)
      → left (names by_name) marks < fuel
      → walk by_name fuel name marks ≢ unfinished
  walk_ends zero name marks l = absurd (omega arith)
  walk_ends (suc fuel) name marks l = λ h.
      let (new, stuck) = walk_begins fuel name marks h in
      elim (Bool-cases (contains name (names by_name))) [
        | inl known ↦
            walk_each_ends (walk by_name fuel) (parents_of by_name name)
              (OrderedMap.put name visiting marks) (names by_name) fuel (walk-Grows fuel)
              (walk_ends fuel)
              (omega (arith, l, left-put name visiting (names by_name) marks known new)) stuck
        | inr not_known ↦
            let none_there : parents_of by_name name ≡ [] =
              ground (arith, unknown name by_name not_known) in
            walk_each_nothing (walk by_name fuel) (OrderedMap.put name visiting marks) (
              ap
                (λ ps.
                  walk_each by_name (walk by_name fuel) ps (OrderedMap.put name visiting marks))
                (sym none_there)
              ∙ stuck)
      ]

  left_all : (m : Map Role) → left {V = Mark} (map (λ e. e.0) m) [] ≡ length m
  unfolding OrderedMap.get
  left_all [] = refl
  left_all ((k, r) ∷ m) = ap suc (left_all m)

  -- More fuel than there are roles is enough for the search to end.
  pub detect_cycles_ends :
      (fuel : ℕ) → length by_name < fuel → detect_cycles by_name fuel ≢ unfinished
  unfolding detect_cycles
  detect_cycles_ends fuel l =
      walk_each_ends (walk by_name fuel) (sort_texts (names by_name)) [] (names by_name) fuel
        (walk-Grows fuel) (walk_ends fuel) (omega (arith, l, left_all by_name))

  -- With more fuel than there are roles, the search either passes, and every line of inheritance of
  -- every role comes to an end, or it rejects, and some role inherits from itself.
  pub detect_cycles_decides :
      (fuel : ℕ)
      → length by_name < fuel
      → ((marks : Map Mark) × (detect_cycles by_name fuel ≡ passed marks)
          × ((name : String) → contains name (names by_name) ≡ true → Grounded by_name name))
        ⊎ ((e : PolicyProblem) × (detect_cycles by_name fuel ≡ rejected e)
            × (k : String) × Inherits by_name k k)
  detect_cycles_decides fuel l = elim (Checked-all (detect_cycles by_name fuel)) [
    | inl (marks, h) ↦ inl (marks, h, λ name. detect_cycles-Grounded by_name fuel marks name h)
    | inr (inl (e, h)) ↦
        let (k, cycle) = detect_cycles_rejects by_name fuel e h in inr (e, h, k, cycle)
    | inr (inr h) ↦ absurd (detect_cycles_ends fuel l h)
  ]
