-- ===== src/Authorization/Tests.antt =====
-- A reader's and a writer's permissions, and the theorems at them.
use platform_ts.OrderedMap
use platform_ts.Authorization.Members.{contains, add}
use platform_ts.Authorization.Permissions.{
  PermissionSet, new_set, new_set-IsValid, has, any_has, union, equals, equals_iff, has-union,
  collect, has_all, has_all_iff,
}
use platform_ts.Authorization.Grants.{
  Grants, new_grants, has_grant, missing, has_every, missing_iff, evaluate, evaluate-get,
  new_grants-has, grants_nothing, new_grants_empty_iff,
}
use platform_ts.OrderedMap.{Map}
use platform_ts.Authorization.Policy.{
  Role, Mark, PolicyProblem, detect_cycles, passed, rejected, names,
}
use platform_ts.Authorization.Policy.Cycles.{Grounded}
use platform_ts.Authorization.Policy.Rejects.{Inherits}
use platform_ts.Authorization.Policy.Ends.{detect_cycles_decides}
use platform_ts.Authorization.Policy.{index_roles, expand_inheritance}
use platform_ts.Authorization.Policy.Decides.{Expands, expand_inheritance_decides}
use platform_ts.Prelude.{
  String, ◌≡◌, refl, ◌↔◌, ◌⊎◌, true, false, not, ◌&&◌, none, some, List, [], ◌∷◌, arith,
  string_discrete, if◌then◌else◌,
}

abbrev reader : PermissionSet
reader = new_set ("read" ∷ "" ∷ "read" ∷ [])

abbrev writer : PermissionSet
writer = new_set ("write" ∷ "read" ∷ [])

-- The constructor drops the empty text and the second entry.
reader_once : reader.perms ≡ "read" ∷ []
unfolding collect add string_discrete
reader_once = refl

has-union_example :
    has "write" (union reader (writer ∷ [])) ≡ any_has "write" (reader ∷ writer ∷ [])
has-union_example = has-union "write" reader (writer ∷ [])

has_all_iff_example :
    (has_all ("read" ∷ []) writer ≡ true)
    ↔ ((p : String) → contains p ("read" ∷ []) ≡ true → has p writer ≡ true)
has_all_iff_example = has_all_iff ("read" ∷ []) writer

equals_iff_example : (equals reader writer ≡ true) ↔ ((p : String) → has p reader ≡ has p writer)
equals_iff_example =
    equals_iff reader writer (new_set-IsValid ("read" ∷ "" ∷ "read" ∷ []))
      (new_set-IsValid ("write" ∷ "read" ∷ []))

abbrev both : Grants
both = new_grants (some reader ∷ none ∷ some writer ∷ [])

missing_iff_example :
    ((missing ("read" ∷ "delete" ∷ []) both ≡ [])
      ↔ (has_every ("read" ∷ "delete" ∷ []) both ≡ true))
    × ((p : String)
        → contains p (missing ("read" ∷ "delete" ∷ []) both)
          ≡ (contains p ("read" ∷ "delete" ∷ []) && not (has_grant p both)))
missing_iff_example = missing_iff ("read" ∷ "delete" ∷ []) both

evaluate-get_example :
    OrderedMap.get "delete" (evaluate ("read" ∷ "delete" ∷ []) both)
    ≡ (if contains "delete" ("read" ∷ "delete" ∷ []) then some (has_grant "delete" both) else none)
evaluate-get_example = evaluate-get ("read" ∷ "delete" ∷ []) both "delete"

new_grants-has_example : has_grant "write" both ≡ any_has "write" (reader ∷ writer ∷ [])
new_grants-has_example = new_grants-has "write" (some reader ∷ none ∷ some writer ∷ [])

new_grants_empty_iff_example :
    (grants_nothing both ≡ true) ↔ ((p : String) → has_grant p both ≡ false)
new_grants_empty_iff_example =
    new_grants_empty_iff (some reader ∷ none ∷ some writer ∷ [])
      (new_set-IsValid ("read" ∷ "" ∷ "read" ∷ []), (new_set-IsValid ("write" ∷ "read" ∷ []), tt))

-- Two roles that inherit from each other.
abbrev cyclic : Map Role
cyclic =
    ("a", record { name = "a"; permissions = []; inherits = "b" ∷ [] })
    ∷ ("b", record { name = "b"; permissions = []; inherits = "a" ∷ [] })
    ∷ []

detect_cycles_decides_example :
    ((marks : Map Mark) × (detect_cycles cyclic 3 ≡ passed marks)
      × ((name : String) → contains name (names cyclic) ≡ true → Grounded cyclic name))
    ⊎ ((e : PolicyProblem) × (detect_cycles cyclic 3 ≡ rejected e)
        × (k : String) × Inherits cyclic k k)
detect_cycles_decides_example = detect_cycles_decides cyclic 3 (omega arith)

-- An editor inherits from a viewer.
abbrev roles : List Role
roles =
    record { name = "editor"; permissions = "edit" ∷ []; inherits = "viewer" ∷ [] }
    ∷ record { name = "viewer"; permissions = "view" ∷ []; inherits = [] }
    ∷ []

expand_inheritance_decides_example :
    ((by_name : Map Role) × (expanded : Map PermissionSet) × (index_roles roles [] ≡ passed by_name)
      × (expand_inheritance 3 roles ≡ passed expanded)
      × Expands by_name roles expanded)
    ⊎ ((e : PolicyProblem) × (expand_inheritance 3 roles ≡ rejected e))
expand_inheritance_decides_example = expand_inheritance_decides 3 roles (omega arith)
