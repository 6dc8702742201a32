-- ===== src/Authorization/Static/Tests.antt =====
-- A resolver of two roles, asked twice for both.
use platform_ts.OrderedMap
use platform_ts.OrderedMap.{Map}
use platform_ts.Authorization.Members.{contains, add}
use platform_ts.Authorization.Permissions.{has, union, collect, merge, add_each}
use platform_ts.Authorization.Sorting.{sort_texts, insert_text, goes_after}
use platform_ts.Authorization.Policy.{Role, passed, expand_inheritance}
use platform_ts.Authorization.Static.{
  StaticPolicyResolver, new_resolver, join_texts, memo_key, sets_of, resolve,
}
use platform_ts.Authorization.Static.Memo.{one_has, resolve_each, resolve-has}
use platform_ts.Prelude.{String, ◌≡◌, refl, true, false, List, [], ◌∷◌, string_discrete}

abbrev roles : List Role
roles =
    record { name = "editor"; permissions = "edit" ∷ []; inherits = "viewer" ∷ [] }
    ∷ record { name = "viewer"; permissions = "view" ∷ []; inherits = [] }
    ∷ []

abbrev built : StaticPolicyResolver
built = record {
  expanded =
      ("editor", record { perms = "edit" ∷ "view" ∷ [] })
      ∷ ("viewer", record { perms = "view" ∷ [] })
      ∷ [];
  kept_roles = roles;
  memo = [];
}

is_built : new_resolver 3 roles ≡ passed built
unfolding new_resolver expand_inheritance string_discrete OrderedMap.get OrderedMap.put sort_texts
    union collect
is_built = refl

abbrev both : List String
both = "editor" ∷ "viewer" ∷ []

resolve-has_example :
    (expand_inheritance 3 roles ≡ passed built.expanded)
    × ((p : String)
        → has p (resolve both (resolve_each (both ∷ []) built)).1 ≡ one_has p built.expanded both)
resolve-has_example = resolve-has 3 roles built (both ∷ []) both is_built refl refl

-- With the separator in a name, two lists share a key, and the second gets the answer of the first.
memo_collides :
    (has "edit" (resolve ("editor" ∷ "z\0z" ∷ []) (resolve ("editor\0z" ∷ "z" ∷ []) built).0).1
      ≡ false)
    × (has "edit" (resolve ("editor" ∷ "z\0z" ∷ []) built).1 ≡ true)
unfolding resolve memo_key join_texts sort_texts insert_text goes_after sets_of union merge add_each
    collect has add contains OrderedMap.get OrderedMap.put string_discrete
memo_collides = (refl, refl)
