-- ===== src/Authorization/Static.antt =====
-- packages/authorization/src/providers/static.ts: the resolver with a fixed policy and the memo of
-- its unions.
pub mod Keys
pub mod Memo
mod Tests
use Prim.Native.Char.{code}
use platform_ts.OrderedMap
use platform_ts.OrderedMap.{Map}
use platform_ts.Authorization.Permissions.{PermissionSet, new_set, union}
use platform_ts.Authorization.Policy.{
  Role, Checked, passed, rejected, unfinished, expand_inheritance,
}
use platform_ts.Authorization.Sorting.{sort_texts}
use platform_ts.Prelude.{ℕ, String, Option, none, some, List, [], ◌∷◌}

pub record StaticPolicyResolver : Type 0 where
  pub expanded : Map PermissionSet
  pub kept_roles : List Role
  pub memo : Map PermissionSet

abbrev pub empty_permission_set : PermissionSet
empty_permission_set = new_set []

unfoldable pub new_resolver : ℕ → List Role → Checked StaticPolicyResolver
unfolding expand_inheritance
new_resolver fuel roles = elim (expand_inheritance fuel roles) [
  | rejected e ↦ rejected e
  | unfinished ↦ unfinished
  | passed expanded ↦ passed (record { expanded = expanded; kept_roles = roles; memo = [] })
]

abbrev pub prepend : String → String → String
prepend String.[] t = t
prepend (String.◌∷◌ c s) t = String.◌∷◌ c (prepend s t)

-- `join` with the text that has the code 0.
unfoldable pub join_texts : List String → String
join_texts [] = ""
join_texts (s ∷ []) = s
join_texts (s ∷ t ∷ ts) = prepend s (prepend "\0" (join_texts (t ∷ ts)))

unfoldable pub memo_key : List String → String
unfolding join_texts
memo_key roles = join_texts (sort_texts roles)

unfoldable pub sets_of : Map PermissionSet → List String → List PermissionSet
sets_of expanded [] = []
sets_of expanded (name ∷ names) = elim (OrderedMap.get name expanded) [
  | none ↦ sets_of expanded names
  | some s ↦ s ∷ sets_of expanded names
]

abbrev pub or_nothing : Option PermissionSet → PermissionSet
or_nothing none = empty_permission_set
or_nothing (some s) = s

unfoldable pub resolve : List String → StaticPolicyResolver → StaticPolicyResolver × PermissionSet
unfolding memo_key sets_of union
resolve [] r = (r, empty_permission_set)
resolve (only ∷ []) r = (r, or_nothing (OrderedMap.get only r.expanded))
resolve (a ∷ b ∷ names) r =
    let key = memo_key (a ∷ b ∷ names) in
    elim (OrderedMap.get key r.memo) [
      | some memo ↦ (r, memo)
      | none ↦
          let all = union empty_permission_set (sets_of r.expanded (a ∷ b ∷ names)) in
          (record r { memo = OrderedMap.put key all r.memo }, all)
    ]
