-- ===== src/Authorization/Policy/Cycles.antt =====
-- What the search for cycles finds.
use platform_ts.OrderedMap
use platform_ts.OrderedMap.{Map}
use platform_ts.OrderedMap.Laws.{get-put_self, get-put_ne}
use platform_ts.Authorization.Members.{contains}
use platform_ts.Authorization.Sorting.{sort_texts, contains-sort_texts}
use platform_ts.Authorization.Policy.{
  Role, Checked, passed, rejected, unfinished, PolicyProblem, parents_of, Mark, visiting, visited,
  walk_each, walk, names, detect_cycles,
}
use platform_ts.Prelude.{
  ℕ, zero, suc, String, ◌≡◌, refl, sym, ap, subst, ◌∙◌, ◌≢◌, ◌⊎◌, inl, inr, true, false, none, some,
  List, [], ◌∷◌, arith, string_discrete, Option-cases,
}

pub Checked-all :
    {A : Type 0} (c : Checked A)
    → ((a : A) × (c ≡ passed a)) ⊎ (((e : PolicyProblem) × (c ≡ rejected e)) ⊎ (c ≡ unfinished))
Checked-all (passed a) = inl (a, refl)
Checked-all (rejected e) = inr (inl (e, refl))
Checked-all unfinished = inr (inr refl)

Checked-cases : {A : Type 0} (c : Checked A) → ((a : A) × (c ≡ passed a)) ⊎ ((a : A) → c ≢ passed a)
Checked-cases (passed a) = inl (a, refl)
Checked-cases (rejected e) = inr (λ a h. cc h)
Checked-cases unfinished = inr (λ a h. cc h)

pub passed-inj : {A : Type 0} (a b : A) → passed a ≡ passed b → a ≡ b
passed-inj a b e = cc e

pub Mark-cases : (m : Mark) → (m ≡ visiting) ⊎ (m ≡ visited)
Mark-cases visiting = inl refl
Mark-cases visited = inr refl

module _ (by_name : Map Role) where
  -- A role all of whose lines of inheritance come to an end.
  pub data Grounded : String → Type 0 where
    grounded :
        (name : String)
        → ((p : String) → contains p (parents_of by_name name) ≡ true → Grounded p)
        → Grounded name

  abbrev AllGrounded : Map Mark → Type 0
  AllGrounded marks = (k : String) → OrderedMap.get k marks ≡ some visited → Grounded k

  -- What a part of the search does: what it marks as visited is grounded, and what was so marked
  -- still is.
  record Advances (marks marks' : Map Mark) : Type 0 where
    sound : AllGrounded marks'
    keeps :
        (k : String)
        → OrderedMap.get k marks ≡ some visited
        → OrderedMap.get k marks' ≡ some visited

  stopped_walk :
      (f : String → Map Mark → Checked (Map Mark)) (p : String) (ps : List String)
      (marks marks' : Map Mark)
      → ((m : Map Mark) → f p marks ≢ passed m)
      → walk_each by_name f (p ∷ ps) marks ≢ passed marks'
  unfolding walk_each
  stopped_walk f p ps marks marks' stopped = λ h. elim (Checked-all (f p marks)) [
    | inl (m, e) ↦ stopped m e
    | inr (inl (x, e)) ↦ ground (arith, e, h)
    | inr (inr e) ↦ ground (arith, e, h)
  ]

  walk_each-Advances :
      (f : String → Map Mark → Checked (Map Mark)) (ps : List String) (marks marks' : Map Mark)
      → ((p : String) (m m' : Map Mark)
          → AllGrounded m
          → f p m ≡ passed m'
          → Advances m m' × (OrderedMap.get p m' ≡ some visited))
      → AllGrounded marks
      → walk_each by_name f ps marks ≡ passed marks'
      → Advances marks marks'
        × ((p : String) → contains p ps ≡ true → OrderedMap.get p marks' ≡ some visited)
  unfolding walk_each contains
  walk_each-Advances f [] marks marks' each g h =
      subst
        (λ m. Advances marks m × ((p : String) → false ≡ true → OrderedMap.get p m ≡ some visited))
        (passed-inj marks marks' h) (record { sound = g; keeps = λ k e. e }, λ p e. absurd (cc e))
  walk_each-Advances f (p ∷ ps) marks marks' each g h = elim (Checked-cases (f p marks)) [
    | inl (m, did) ↦
        let (step, there) = each p marks m g did in
        let (rest, others) =
          walk_each-Advances f ps m marks' each step.sound (ground (arith, did, h)) in
        (
          record { sound = rest.sound; keeps = λ k e. rest.keeps k (step.keeps k e) },
          λ q e. elim (string_discrete p q) [
            | yes same ↦
                subst (λ q. OrderedMap.get q marks' ≡ some visited) same (rest.keeps p there)
            | no ne ↦ others q (ground (arith, ne, e))
          ],
        )
    | inr stopped ↦ absurd (stopped_walk f p ps marks marks' stopped h)
  ]

  walk-zero :
      (name : String) (marks marks' : Map Mark) → walk by_name zero name marks ≢ passed marks'
  unfolding walk
  walk-zero name marks marks' = λ h. cc h

  -- What a search that passes has done.
  pub walk_cases :
      (fuel : ℕ) (name : String) (marks marks' : Map Mark)
      → walk by_name (suc fuel) name marks ≡ passed marks'
      → ((OrderedMap.get name marks ≡ some visited) × (marks ≡ marks'))
        ⊎ ((OrderedMap.get name marks ≡ none)
            × (m : Map Mark) × (walk_each by_name
                  (walk by_name fuel)
                  (parents_of by_name name)
                  (OrderedMap.put name visiting marks)
                ≡ passed m)
            × (marks' ≡ OrderedMap.put name visited m))
  unfolding walk
  walk_cases fuel name marks marks' h = elim (Option-cases (OrderedMap.get name marks)) [
    | inr (m, e) ↦ elim (Mark-cases m) [
      | inl at ↦ absurd (ground (arith, e, at, h))
      | inr at ↦ inl (e ∙ ap some at, passed-inj marks marks' (ground (arith, e, at, h)))
    ]
    | inl e ↦
        elim (Checked-all (
          walk_each by_name (walk by_name fuel) (parents_of by_name name)
            (OrderedMap.put name visiting marks))) [
              | inl (m, did) ↦ inr (
                e,
                m,
                did,
                passed-inj marks' (OrderedMap.put name visited m) (ground (arith, e, did, h)),
              )
              | inr (inl (x, did)) ↦ absurd (ground (arith, e, did, h))
              | inr (inr did) ↦ absurd (ground (arith, e, did, h))
            ]
  ]

  walk-Advances :
      (fuel : ℕ) (name : String) (marks marks' : Map Mark)
      → AllGrounded marks
      → walk by_name fuel name marks ≡ passed marks'
      → Advances marks marks' × (OrderedMap.get name marks' ≡ some visited)
  walk-Advances zero name marks marks' g h = absurd (walk-zero name marks marks' h)
  walk-Advances (suc fuel) name marks marks' g h = elim (walk_cases fuel name marks marks' h) [
    | inl (there, same) ↦
        subst (λ m. Advances marks m × (OrderedMap.get name m ≡ some visited)) same
          (record { sound = g; keeps = λ k e. e }, there)
    | inr (new, m, did, is_put) ↦
        let begun = OrderedMap.put name visiting marks in
        let begun_grounded : AllGrounded begun = λ k e. elim (string_discrete name k) [
          | yes same ↦ absurd (ground (arith, same, e, get-put_self name visiting marks))
          | no ne ↦ g k (sym (get-put_ne name k visiting marks ne) ∙ e)
        ] in
        let (end, all) =
          walk_each-Advances (walk by_name fuel) (parents_of by_name name) begun m
            (walk-Advances fuel) begun_grounded did in
        let here : Grounded name = grounded name (λ p e. end.sound p (all p e)) in
        subst (λ m. Advances marks m × (OrderedMap.get name m ≡ some visited)) (sym is_put)
          (
            record {
              sound = λ k e. elim (string_discrete name k) [
                | yes same ↦ subst Grounded same here
                | no ne ↦ end.sound k (sym (get-put_ne name k visited m ne) ∙ e)
              ];
              keeps = λ k e. elim (string_discrete name k) [
                | yes same ↦ absurd (ground (arith, same, e, new))
                | no ne ↦
                    get-put_ne name k visited m ne
                    ∙ end.keeps k (get-put_ne name k visiting marks ne ∙ e)
              ];
            },
            get-put_self name visited m,
          )
  ]

  -- If the search for cycles passes, every line of inheritance of every role comes to an end.
  pub detect_cycles-Grounded :
      (fuel : ℕ) (marks : Map Mark) (name : String)
      → detect_cycles by_name fuel ≡ passed marks
      → contains name (names by_name) ≡ true
      → Grounded name
  unfolding detect_cycles OrderedMap.get
  detect_cycles-Grounded fuel marks name h known =
      let (end, all) =
        walk_each-Advances (walk by_name fuel) (sort_texts (names by_name)) [] marks
          (walk-Advances fuel) (λ k e. absurd (cc e)) h in
      end.sound name (all name (contains-sort_texts name (names by_name) ∙ known))
