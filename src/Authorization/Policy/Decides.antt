-- ===== src/Authorization/Policy/Decides.antt =====
-- What becomes of a policy as a whole.
use platform_ts.OrderedMap
use platform_ts.OrderedMap.{Map}
use platform_ts.OrderedMap.Laws.{size-put-le}
use platform_ts.Authorization.Counting.{left}
use platform_ts.Authorization.Members.{contains}
use platform_ts.Authorization.Permissions.{PermissionSet}
use platform_ts.Authorization.Policy.{
  Role, passed, rejected, unfinished, PolicyProblem, names, Mark, index_roles, check_roles,
  detect_cycles, resolve_all, validate_roles, expand_inheritance,
}
use platform_ts.Authorization.Policy.Cycles.{Grounded, Checked-all, passed-inj}
use platform_ts.Authorization.Policy.Ends.{detect_cycles_decides}
use platform_ts.Authorization.Policy.Expansion.{IsExpansion}
use platform_ts.Authorization.Policy.Resolved.{resolve_all-IsExpansion}
use platform_ts.Authorization.Policy.Outcome.{resolve_all_ends}
use platform_ts.Prelude.{
  ℕ, suc, ◌+◌, ◌≤◌, ◌<◌, String, ◌≡◌, refl, ap, subst, ◌∙◌, ◌≢◌, ◌⊎◌, inl, inr, ite, true, false,
  ◌||◌, none, some, List, [], ◌∷◌, arith, string_discrete, Option-cases, length, All,
}

left-names : (m : Map Role) → left {V = PermissionSet} (names m) [] ≡ length m
unfolding OrderedMap.get
left-names [] = refl
left-names ((k, r) ∷ m) = ap suc (left-names m)

contains-put :
    (k n : String) (r : Role) (m : Map Role)
    → contains k (names (OrderedMap.put n r m))
      ≡ (ite (string_discrete n k) true false || contains k (names m))
unfolding contains OrderedMap.put
contains-put k n r [] = ground arith
contains-put k n r ((j, q) ∷ m) = ground (arith, contains-put k n r m)

-- The index of the roles.
record Indexes (roles : List Role) (m m' : Map Role) : Type 0 where
  fits : length m' ≤ length m + length roles
  names_all : All (λ r. contains r.name (names m') ≡ true) roles
  keeps : (k : String) → contains k (names m) ≡ true → contains k (names m') ≡ true

index_cases :
    (r : Role) (rs : List Role) (m m' : Map Role)
    → index_roles (r ∷ rs) m ≡ passed m'
    → index_roles rs (OrderedMap.put r.name r m) ≡ passed m'
unfolding index_roles
index_cases r rs m m' h = ground (arith, h)

index_roles-Indexes :
    (roles : List Role) (m m' : Map Role) → index_roles roles m ≡ passed m' → Indexes roles m m'
unfolding index_roles
index_roles-Indexes [] m m' h =
    let same = passed-inj m m' h in
    subst (λ x. Indexes [] m x) same
      (record { fits = omega arith; names_all = tt; keeps = λ k e. e })
index_roles-Indexes (r ∷ rs) m m' h =
    let v = index_roles-Indexes rs (OrderedMap.put r.name r m) m' (index_cases r rs m m' h) in
    record {
      fits = omega (arith, v.fits, size-put-le r.name r m);
      names_all = (v.keeps r.name (contains-put r.name r.name r m ∙ ground arith), v.names_all);
      keeps = λ k e. v.keeps k (contains-put k r.name r m ∙ ground (arith, e));
    }

index_roles_ends : (roles : List Role) (m : Map Role) → index_roles roles m ≢ unfinished
unfolding index_roles
index_roles_ends [] m = λ h. cc h
index_roles_ends (r ∷ rs) m =
    λ h. ground (arith, h, index_roles_ends rs (OrderedMap.put r.name r m))

roles-Grounded :
    (by_name : Map Role) (roles : List Role)
    → ((name : String) → contains name (names by_name) ≡ true → Grounded by_name name)
    → All (λ r. contains r.name (names by_name) ≡ true) roles
    → All (λ r. Grounded by_name r.name) roles
roles-Grounded by_name [] g a = tt
roles-Grounded by_name (r ∷ rs) g a = (g r.name a.0, roles-Grounded by_name rs g a.1)

-- Each role has an entry that is its expansion.
abbrev pub Expands : Map Role → List Role → Map PermissionSet → Type 0
Expands by_name roles expanded =
    All
      (λ r.
        (s : PermissionSet) × (OrderedMap.get r.name expanded ≡ some s)
        × IsExpansion by_name r.name s)
      roles

entries-Expands :
    (by_name : Map Role) (roles : List Role) (expanded : Map PermissionSet)
    → ((k : String) (s : PermissionSet)
        → OrderedMap.get k expanded ≡ some s
        → IsExpansion by_name k s)
    → All (λ r. OrderedMap.get r.name expanded ≢ none) roles
    → Expands by_name roles expanded
entries-Expands by_name [] expanded right a = tt
entries-Expands by_name (r ∷ rs) expanded right a = (
  elim (Option-cases (OrderedMap.get r.name expanded)) [
    | inl absent ↦ absurd (a.0 absent)
    | inr (s, at) ↦ (s, at, right r.name s at)
  ],
  entries-Expands by_name rs expanded right a.1,
)

expand_passed :
    (fuel : ℕ) (roles : List Role) (by_name : Map Role) (marks : Map Mark)
    (expanded : Map PermissionSet)
    → index_roles roles [] ≡ passed by_name
    → check_roles by_name roles ≡ none
    → detect_cycles by_name fuel ≡ passed marks
    → resolve_all by_name fuel roles [] ≡ some expanded
    → expand_inheritance fuel roles ≡ passed expanded
unfolding expand_inheritance validate_roles
expand_passed fuel roles by_name marks expanded i c d r = ground (arith, i, c, d, r)

expand_unindexed :
    (fuel : ℕ) (roles : List Role) (e : PolicyProblem)
    → index_roles roles [] ≡ rejected e
    → expand_inheritance fuel roles ≡ rejected e
unfolding expand_inheritance validate_roles
expand_unindexed fuel roles e i = ground (arith, i)

expand_unchecked :
    (fuel : ℕ) (roles : List Role) (by_name : Map Role) (e : PolicyProblem)
    → index_roles roles [] ≡ passed by_name
    → check_roles by_name roles ≡ some e
    → expand_inheritance fuel roles ≡ rejected e
unfolding expand_inheritance validate_roles
expand_unchecked fuel roles by_name e i c = ground (arith, i, c)

expand_cyclic :
    (fuel : ℕ) (roles : List Role) (by_name : Map Role) (e : PolicyProblem)
    → index_roles roles [] ≡ passed by_name
    → check_roles by_name roles ≡ none
    → detect_cycles by_name fuel ≡ rejected e
    → expand_inheritance fuel roles ≡ rejected e
unfolding expand_inheritance validate_roles
expand_cyclic fuel roles by_name e i c d = ground (arith, i, c, d)

-- With more fuel than there are roles, a policy is either rejected, or it is expanded, and then the
-- set of each role has just the permissions of the role and of all roles that it inherits from,
-- directly or through others, but for the empty one.
pub expand_inheritance_decides :
    (fuel : ℕ) (roles : List Role)
    → length roles < fuel
    → ((by_name : Map Role) × (expanded : Map PermissionSet) × (index_roles roles []
          ≡ passed by_name)
        × (expand_inheritance fuel roles ≡ passed expanded)
        × Expands by_name roles expanded)
      ⊎ ((e : PolicyProblem) × (expand_inheritance fuel roles ≡ rejected e))
unfolding OrderedMap.get
expand_inheritance_decides fuel roles l = elim (Checked-all (index_roles roles [])) [
  | inr (inr stuck) ↦ absurd (index_roles_ends roles [] stuck)
  | inr (inl (e, i)) ↦ inr (e, expand_unindexed fuel roles e i)
  | inl (by_name, i) ↦
      let v = index_roles-Indexes roles [] by_name i in
      let enough : length by_name < fuel = omega (arith, v.fits, l) in
      elim (Option-cases (check_roles by_name roles)) [
        | inr (e, c) ↦ inr (e, expand_unchecked fuel roles by_name e i c)
        | inl c ↦ elim (detect_cycles_decides by_name fuel enough) [
          | inr (e, d, _, _) ↦ inr (e, expand_cyclic fuel roles by_name e i c d)
          | inl (marks, d, g) ↦
              let (expanded, r, _, entries) =
                resolve_all_ends by_name fuel roles []
                  (omega (arith, enough, left-names by_name)) in
              let right =
                resolve_all-IsExpansion by_name fuel roles [] expanded
                  (roles-Grounded by_name roles g v.names_all) (λ k s at. absurd (cc at)) r in
              inl (
                by_name,
                expanded,
                i,
                expand_passed fuel roles by_name marks expanded i c d r,
                entries-Expands by_name roles expanded right entries,
              )
        ]
      ]
]
