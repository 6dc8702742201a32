-- ===== src/Authorization/Static/Memo.antt =====
-- The memo answers as the policy does.
use platform_ts.OrderedMap
use platform_ts.OrderedMap.{Map}
use platform_ts.OrderedMap.Laws.{get-put_self, get-put_ne}
use platform_ts.Authorization.Permissions.{PermissionSet, has, any_has, union, has-union, collect}
use platform_ts.Authorization.Sorting.{sort_texts, insert_text}
use platform_ts.Authorization.Static.{
  StaticPolicyResolver, empty_permission_set, or_nothing, new_resolver, memo_key, sets_of, resolve,
}
use platform_ts.Authorization.Policy.{Role, passed, expand_inheritance}
use platform_ts.Authorization.Static.Keys.{all_no_nul, memo_key-injective}
use platform_ts.Prelude.{
  ℕ, String, ◌≡◌, refl, sym, ap, subst, ◌∙◌, ◌≢◌, inl, inr, Bool, true, false, ◌&&◌, ◌||◌, Option,
  none, some, List, [], ◌∷◌, arith, string_discrete, Option-cases,
}

abbrev pub set_has : String → Option PermissionSet → Bool
set_has p none = false
set_has p (some s) = has p s

-- Whether the policy gives one of the roles a permission.
abbrev pub one_has : String → Map PermissionSet → List String → Bool
one_has p expanded [] = false
one_has p expanded (name ∷ names) =
    set_has p (OrderedMap.get name expanded) || one_has p expanded names

one_has-insert_text :
    (p : String) (m : Map PermissionSet) (s : String) (ts : List String)
    → one_has p m (insert_text s ts) ≡ one_has p m (s ∷ ts)
unfolding insert_text
one_has-insert_text p m s [] = refl
one_has-insert_text p m s (t ∷ ts) = ground (arith, one_has-insert_text p m s ts)

one_has-sort_texts :
    (p : String) (m : Map PermissionSet) (ss : List String)
    → one_has p m (sort_texts ss) ≡ one_has p m ss
unfolding sort_texts
one_has-sort_texts p m [] = refl
one_has-sort_texts p m (s ∷ ss) =
    one_has-insert_text p m s (sort_texts ss) ∙ ground (arith, one_has-sort_texts p m ss)

any_has-sets_of :
    (p : String) (m : Map PermissionSet) (names : List String)
    → any_has p (sets_of m names) ≡ one_has p m names
unfolding sets_of
any_has-sets_of p m [] = refl
any_has-sets_of p m (name ∷ names) = elim (Option-cases (OrderedMap.get name m)) [
  | inl nobody ↦ ground (arith, nobody, any_has-sets_of p m names)
  | inr (s, there) ↦ ground (arith, there, any_has-sets_of p m names)
]

has_nothing : (p : String) → has p empty_permission_set ≡ false
unfolding has collect
has_nothing p = ground arith

has-all :
    (p : String) (m : Map PermissionSet) (names : List String)
    → has p (union empty_permission_set (sets_of m names)) ≡ one_has p m names
has-all p m names =
    has-union p empty_permission_set (sets_of m names)
    ∙ ground (arith, has_nothing p, any_has-sets_of p m names)

none_there :
    (key : String) (m : Map PermissionSet) (s : PermissionSet)
    → m ≡ []
    → OrderedMap.get key m ≢ some s
unfolding OrderedMap.get
none_there key m s e there = grind (arith, e, there)

-- An entry of the memo has what the policy gives the roles that it is the entry of.
pub record IsMemo (r : StaticPolicyResolver) : Type 0 where
  pub answers :
      (a b : String) (names : List String) (s : PermissionSet)
      → all_no_nul (a ∷ b ∷ names) ≡ true
      → OrderedMap.get (memo_key (a ∷ b ∷ names)) r.memo ≡ some s
      → (p : String) → has p s ≡ one_has p r.expanded (a ∷ b ∷ names)

remember-IsMemo :
    (r : StaticPolicyResolver) (a b : String) (names : List String) (s : PermissionSet)
    → IsMemo r
    → all_no_nul (a ∷ b ∷ names) ≡ true
    → ((p : String) → has p s ≡ one_has p r.expanded (a ∷ b ∷ names))
    → IsMemo (record r { memo = OrderedMap.put (memo_key (a ∷ b ∷ names)) s r.memo })
remember-IsMemo r a b names s v clean is = record {
  answers = λ a' b' names' s' clean' there p.
      let key = memo_key (a ∷ b ∷ names) in
      let key' = memo_key (a' ∷ b' ∷ names') in
      elim (string_discrete key key') [
        | yes same ↦
            let sorted =
              memo_key-injective (a ∷ b ∷ names) (a' ∷ b' ∷ names') (omega arith) (omega arith)
                clean clean' same in
            let kept : some s ≡ some s' =
              sym (get-put_self key s r.memo)
              ∙ ap (λ k. OrderedMap.get k (OrderedMap.put key s r.memo)) same
              ∙ there in
            let one : one_has p r.expanded (a ∷ b ∷ names)
                ≡ one_has p r.expanded (a' ∷ b' ∷ names') =
              sym (one_has-sort_texts p r.expanded (a ∷ b ∷ names))
              ∙ ap (one_has p r.expanded) sorted
              ∙ one_has-sort_texts p r.expanded (a' ∷ b' ∷ names') in
            ap (set_has p) (sym kept) ∙ is p ∙ one
        | no ne ↦ v.answers a' b' names' s' clean' (sym (get-put_ne key key' s r.memo ne) ∙ there) p
      ];
}

has-only :
    (p : String) (m : Map PermissionSet) (only : String)
    → has p (or_nothing (OrderedMap.get only m)) ≡ one_has p m (only ∷ [])
has-only p m only = elim (Option-cases (OrderedMap.get only m)) [
  | inl nobody ↦ ground (arith, nobody, has_nothing p)
  | inr (s, there) ↦ ground (arith, there)
]

resolve_miss :
    (r : StaticPolicyResolver) (a b : String) (names : List String)
    → OrderedMap.get (memo_key (a ∷ b ∷ names)) r.memo ≡ none
    → let s = union empty_permission_set (sets_of r.expanded (a ∷ b ∷ names)) in
      resolve (a ∷ b ∷ names) r
      ≡ (record r { memo = OrderedMap.put (memo_key (a ∷ b ∷ names)) s r.memo }, s)
unfolding resolve
resolve_miss r a b names nobody = ground (arith, nobody)

resolve_hit :
    (r : StaticPolicyResolver) (a b : String) (names : List String) (s : PermissionSet)
    → OrderedMap.get (memo_key (a ∷ b ∷ names)) r.memo ≡ some s
    → resolve (a ∷ b ∷ names) r ≡ (r, s)
unfolding resolve
resolve_hit r a b names s there = ground (arith, there)

-- What a resolver that `names` were resolved by is then, and what it gave.
abbrev Resolves : StaticPolicyResolver → List String → StaticPolicyResolver × PermissionSet → Type 0
Resolves r names out =
    IsMemo out.0
    × (out.0.expanded ≡ r.expanded)
    × ((p : String) → has p out.1 ≡ one_has p r.expanded names)

resolve-Resolves :
    (r : StaticPolicyResolver) (names : List String)
    → IsMemo r
    → all_no_nul names ≡ true
    → Resolves r names (resolve names r)
unfolding resolve
resolve-Resolves r [] v clean = (v, refl, has_nothing)
resolve-Resolves r (only ∷ []) v clean = (v, refl, λ p. has-only p r.expanded only)
resolve-Resolves r (a ∷ b ∷ names) v clean =
    let all = a ∷ b ∷ names in
    elim (Option-cases (OrderedMap.get (memo_key all) r.memo)) [
      | inl nobody ↦
          let s = union empty_permission_set (sets_of r.expanded all) in
          let is : (p : String) → has p s ≡ one_has p r.expanded all =
            λ p. has-all p r.expanded all in
          subst (Resolves r all) (sym (resolve_miss r a b names nobody))
            (remember-IsMemo r a b names s v clean is, refl, is)
      | inr (s, there) ↦
          subst (Resolves r all) (sym (resolve_hit r a b names s there))
            (v, refl, v.answers a b names s clean there)
    ]

abbrev pub resolve_each : List (List String) → StaticPolicyResolver → StaticPolicyResolver
resolve_each [] r = r
resolve_each (names ∷ calls) r = resolve_each calls (resolve names r).0

abbrev pub all_clean : List (List String) → Bool
all_clean [] = true
all_clean (names ∷ calls) = all_no_nul names && all_clean calls

resolve_each-IsMemo :
    (calls : List (List String)) (r : StaticPolicyResolver)
    → IsMemo r
    → all_clean calls ≡ true
    → IsMemo (resolve_each calls r) × ((resolve_each calls r).expanded ≡ r.expanded)
resolve_each-IsMemo [] r v clean = (v, refl)
resolve_each-IsMemo (names ∷ calls) r v clean =
    let first = resolve-Resolves r names v (ground (arith, clean)) in
    let rest = resolve_each-IsMemo calls (resolve names r).0 first.0 (ground (arith, clean)) in
    (rest.0, rest.1 ∙ first.1)

new_resolver-expanded :
    (fuel : ℕ) (roles : List Role) (r : StaticPolicyResolver)
    → new_resolver fuel roles ≡ passed r
    → (expand_inheritance fuel roles ≡ passed r.expanded) × (r.memo ≡ [])
unfolding new_resolver
new_resolver-expanded fuel roles r is = ground (arith, is)

-- A resolver's answer has a permission just if the expansion of its policy gives the permission to
-- one of the roles that it is asked for, whatever it was asked for before, in whichever order, if
-- no name that it was ever asked for has the separator of the memo's keys in it.
pub resolve-has :
    (fuel : ℕ) (roles : List Role) (r : StaticPolicyResolver) (calls : List (List String))
    (names : List String)
    → new_resolver fuel roles ≡ passed r
    → all_clean calls ≡ true
    → all_no_nul names ≡ true
    → (expand_inheritance fuel roles ≡ passed r.expanded)
      × ((p : String) → has p (resolve names (resolve_each calls r)).1 ≡ one_has p r.expanded names)
resolve-has fuel roles r calls names is asked clean =
    let built = new_resolver-expanded fuel roles r is in
    let v : IsMemo r = record {
      answers =
          λ a b ns s e there. absurd (none_there (memo_key (a ∷ b ∷ ns)) r.memo s built.1 there);
    } in
    let before = resolve_each-IsMemo calls r v asked in
    let now = resolve-Resolves (resolve_each calls r) names before.0 clean in
    (built.0, λ p. now.2 p ∙ ap (λ m. one_has p m names) before.1)
