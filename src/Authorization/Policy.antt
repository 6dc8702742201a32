-- ===== src/Authorization/Policy.antt =====
-- packages/authorization/src/policy.ts: the check of a policy and the expansion of its roles. The
-- fuel bounds the depth of the two searches.
pub mod Cycles
pub mod Rejects
pub mod Ends
pub mod Expansion
pub mod Resolved
pub mod Outcome
pub mod Decides
use platform_ts.OrderedMap
use platform_ts.OrderedMap.{Map}
use platform_ts.Authorization.Permissions.{PermissionSet, new_set, union}
use platform_ts.Authorization.Sorting.{sort_texts}
use platform_ts.Prelude.{
  ℕ, zero, suc, String, ite, Option, none, some, List, [], ◌∷◌, map, string_discrete, set,
}

-- A role that names no parents inherits from none.
pub record Role : Type 0 where
  pub name : String
  pub permissions : List String
  pub inherits : List String

pub data PolicyProblem : Type 0 where
  empty_role_name duplicate_role unknown_parent_role self_inheritance inheritance_cycle :
      PolicyProblem

-- What a check comes to: it passes, it finds a problem, or its fuel is out.
pub data Checked (A : Type 0) : Type 0 where
  passed : A → Checked A
  rejected : PolicyProblem → Checked A
  unfinished : Checked A

-- The first loop of `validateRoles`.
unfoldable pub index_roles : List Role → Map Role → Checked (Map Role)
index_roles [] by_name = passed by_name
index_roles (r ∷ rs) by_name =
    let rest = index_roles rs (OrderedMap.put r.name r by_name) in
    ite (string_discrete r.name "") (rejected empty_role_name)
      (elim (OrderedMap.get r.name by_name) [ some _ ↦ rejected duplicate_role | none ↦ rest ])

-- The second one.
unfoldable pub check_parents : Map Role → String → List String → Option PolicyProblem
check_parents by_name name [] = none
check_parents by_name name (p ∷ ps) =
    let rest = check_parents by_name name ps in
    ite (string_discrete p name) (some self_inheritance)
      (elim (OrderedMap.get p by_name) [ none ↦ some unknown_parent_role | some _ ↦ rest ])

unfoldable pub check_roles : Map Role → List Role → Option PolicyProblem
unfolding check_parents
check_roles by_name [] = none
check_roles by_name (r ∷ rs) =
    let rest = check_roles by_name rs in
    elim (check_parents by_name r.name r.inherits) [ some e ↦ some e | none ↦ rest ]

abbrev pub parents_of : Map Role → String → List String
parents_of by_name name = elim (OrderedMap.get name by_name) [ none ↦ [] | some r ↦ r.inherits ]

abbrev pub permissions_of : Map Role → String → List String
permissions_of by_name name = elim (OrderedMap.get name by_name) [
  | none ↦ []
  | some r ↦ r.permissions
]

pub data Mark : Type 0 where
  visiting visited : Mark

module _ (by_name : Map Role) where
  unfoldable pub walk_each :
      (String → Map Mark → Checked (Map Mark)) → List String → Map Mark → Checked (Map Mark)
  walk_each walk [] marks = passed marks
  walk_each walk (p ∷ ps) marks = elim (walk p marks) [
    | passed marks' ↦ walk_each walk ps marks'
    | rejected e ↦ rejected e
    | unfinished ↦ unfinished
  ]

  unfoldable pub walk : ℕ → String → Map Mark → Checked (Map Mark)
  unfolding walk_each
  walk zero name marks = unfinished
  walk (suc fuel) name marks = elim (OrderedMap.get name marks) [
    | some visiting ↦ rejected inheritance_cycle
    | some visited ↦ passed marks
    | none ↦
        elim (walk_each (walk fuel) (parents_of by_name name)
          (OrderedMap.put name visiting marks)) [
            | passed marks' ↦ passed (OrderedMap.put name visited marks')
            | rejected e ↦ rejected e
            | unfinished ↦ unfinished
          ]
  ]

  abbrev pub names : List String
  names = map (λ entry. entry.0) by_name

  unfoldable pub detect_cycles : ℕ → Checked (Map Mark)
  unfolding walk
  detect_cycles fuel = walk_each (walk fuel) (sort_texts names) []

  -- The loop of `resolve`; the memo holds what is known of the role so far.
  unfoldable pub resolve_each :
      (String → Map PermissionSet → Option (PermissionSet × Map PermissionSet))
      → String
      → List String
      → PermissionSet
      → Map PermissionSet
      → Option (PermissionSet × Map PermissionSet)
  resolve_each resolve name [] set expanded = some (set, expanded)
  resolve_each resolve name (p ∷ ps) set expanded = elim (resolve p expanded) [
    | none ↦ none
    | some (s, expanded') ↦
        resolve_each resolve name ps (union set (s ∷ []))
          (OrderedMap.put name (union set (s ∷ [])) expanded')
  ]

  unfoldable pub resolve :
      ℕ → String → Map PermissionSet → Option (PermissionSet × Map PermissionSet)
  unfolding resolve_each
  resolve zero name expanded = none
  resolve (suc fuel) name expanded = elim (OrderedMap.get name expanded) [
    | some memo ↦ some (memo, expanded)
    | none ↦
        let set = new_set (permissions_of by_name name) in
        resolve_each (resolve fuel) name (parents_of by_name name) set
          (OrderedMap.put name set expanded)
  ]

  unfoldable pub resolve_all : ℕ → List Role → Map PermissionSet → Option (Map PermissionSet)
  unfolding resolve
  resolve_all fuel [] expanded = some expanded
  resolve_all fuel (r ∷ rs) expanded = elim (resolve fuel r.name expanded) [
    | none ↦ none
    | some (s, expanded') ↦ resolve_all fuel rs expanded'
  ]

unfoldable pub validate_roles : ℕ → List Role → Checked (Map Role)
unfolding index_roles check_roles detect_cycles
validate_roles fuel roles = elim (index_roles roles []) [
  | rejected e ↦ rejected e
  | unfinished ↦ unfinished
  | passed by_name ↦ elim (check_roles by_name roles) [
    | some e ↦ rejected e
    | none ↦ elim (detect_cycles by_name fuel) [
      | rejected e ↦ rejected e
      | unfinished ↦ unfinished
      | passed _ ↦ passed by_name
    ]
  ]
]

unfoldable pub expand_inheritance : ℕ → List Role → Checked (Map PermissionSet)
unfolding validate_roles resolve_all
expand_inheritance fuel roles = elim (validate_roles fuel roles) [
  | rejected e ↦ rejected e
  | unfinished ↦ unfinished
  | passed by_name ↦ elim (resolve_all by_name fuel roles []) [
    | none ↦ unfinished
    | some expanded ↦ passed expanded
  ]
]
