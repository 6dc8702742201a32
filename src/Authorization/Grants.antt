-- ===== src/Authorization/Grants.antt =====
-- packages/authorization/src/grants.ts.
use platform_ts.OrderedMap
use platform_ts.OrderedMap.{Map}
use platform_ts.OrderedMap.Laws.{get-put_self, get-put_ne}
use platform_ts.Authorization.Members.{contains}
use platform_ts.Authorization.Permissions.{PermissionSet, has, any_has, is_empty, IsValid}
use platform_ts.Prelude.{
  String, ◌≡◌, refl, ◌∙◌, ◌↔◌, inl, inr, ite, Bool, true, false, not, ◌&&◌, Option, none, some,
  List, [], ◌∷◌, arith, string_discrete, ◌==◌, if◌then◌else◌, Bool-cases, length, All, List-cases,
}

pub record Grants : Type 0 where
  pub sets : List PermissionSet
  pub all : Bool

abbrev pub allow_all : Grants
allow_all = record { sets = []; all = true }

abbrev pub deny_all : Grants
deny_all = record { sets = []; all = false }

unfoldable pub any_set : String → List PermissionSet → Bool
any_set p [] = false
any_set p (s ∷ ss) = if has p s then true else any_set p ss

unfoldable pub has_grant : String → Grants → Bool
unfolding any_set
has_grant p g = if g.all then true else any_set p g.sets

unfoldable pub has_every : List String → Grants → Bool
unfolding has_grant
has_every [] g = true
has_every (p ∷ ps) g = if has_grant p g then has_every ps g else false

unfoldable pub has_some : List String → Grants → Bool
unfolding has_grant
has_some [] g = false
has_some (p ∷ ps) g = if has_grant p g then true else has_some ps g

-- The loop that fills the record.
unfoldable pub evaluate_into : List String → Grants → Map Bool → Map Bool
unfolding has_grant
evaluate_into [] g out = out
evaluate_into (p ∷ ps) g out = evaluate_into ps g (OrderedMap.put p (has_grant p g) out)

abbrev pub evaluate : List String → Grants → Map Bool
evaluate ps g = evaluate_into ps g []

unfoldable pub missing : List String → Grants → List String
unfolding has_grant
missing [] g = []
missing (p ∷ ps) g = if has_grant p g then missing ps g else p ∷ missing ps g

abbrev pub grants_nothing : Grants → Bool
grants_nothing g = not g.all && (length g.sets == 0)

-- The filter of `newGrants`.
unfoldable pub kept_sets : List (Option PermissionSet) → List PermissionSet
kept_sets [] = []
kept_sets (none ∷ ss) = kept_sets ss
kept_sets (some s ∷ ss) = if is_empty s then kept_sets ss else s ∷ kept_sets ss

abbrev pub new_grants : List (Option PermissionSet) → Grants
new_grants ss = record { sets = kept_sets ss; all = false }

-- What is missing is nothing exactly if everything is granted, and a permission is missing exactly
-- if it is asked for and not granted.
pub missing_iff :
    (ps : List String) (g : Grants)
    → ((missing ps g ≡ []) ↔ (has_every ps g ≡ true))
      × ((p : String) → contains p (missing ps g) ≡ (contains p ps && not (has_grant p g)))
unfolding missing has_every contains
missing_iff [] g = ((λ h. refl, λ h. refl), λ p. refl)
missing_iff (q ∷ ps) g =
    let rest = missing_iff ps g in (ground (arith, rest.0), λ p. ground (arith, rest.1 p))

put-get :
    (q p : String) (b : Bool) (out : Map Bool)
    → OrderedMap.get p (OrderedMap.put q b out)
      ≡ ite (string_discrete q p) (some b) (OrderedMap.get p out)
put-get q p b out = elim (string_discrete q p) [
  | yes e ↦ ground (arith, e, get-put_self q b out)
  | no ne ↦ ground (arith, ne, get-put_ne q p b out ne)
]

evaluate_into-get :
    (ps : List String) (g : Grants) (out : Map Bool) (p : String)
    → OrderedMap.get p (evaluate_into ps g out)
      ≡ (if contains p ps then some (has_grant p g) else OrderedMap.get p out)
unfolding evaluate_into contains
evaluate_into-get [] g out p = refl
evaluate_into-get (q ∷ ps) g out p =
    evaluate_into-get ps g (OrderedMap.put q (has_grant q g) out) p
    ∙ ground (arith, put-get q p (has_grant q g) out)

-- The evaluation has an entry for each permission asked for, the denied ones included, and no other.
pub evaluate-get :
    (ps : List String) (g : Grants) (p : String)
    → OrderedMap.get p (evaluate ps g) ≡ (if contains p ps then some (has_grant p g) else none)
unfolding OrderedMap.get
evaluate-get ps g p = evaluate_into-get ps g [] p

-- The sets that were given.
abbrev pub given : List (Option PermissionSet) → List PermissionSet
given [] = []
given (none ∷ ss) = given ss
given (some s ∷ ss) = s ∷ given ss

empty-has : (p : String) (s : PermissionSet) → is_empty s ≡ true → has p s ≡ false
unfolding has contains
empty-has p s e = elim (List-cases s.perms) [
  | inl h ↦ ground (arith, h)
  | inr (x, xs, h) ↦ absurd (ground (arith, e, h))
]

-- Grants have what one of the given sets has: a set that was not given, or that is empty, adds
-- nothing.
pub new_grants-has :
    (p : String) (ss : List (Option PermissionSet))
    → has_grant p (new_grants ss) ≡ any_has p (given ss)
unfolding has_grant any_set kept_sets
new_grants-has p [] = refl
new_grants-has p (none ∷ ss) = new_grants-has p ss
new_grants-has p (some s ∷ ss) = ground (arith, new_grants-has p ss, empty-has p s)

first_has : (s : PermissionSet) → IsValid s → is_empty s ≡ false → (p : String) × (has p s ≡ true)
unfolding has contains
first_has s v e = elim (List-cases s.perms) [
  | inl h ↦ absurd (ground (arith, e, h))
  | inr (x, xs, h) ↦ (x, ground (arith, h, v.named))
]

abbrev pub AllValid : List (Option PermissionSet) → Type 0
AllValid ss = All IsValid (given ss)

kept_has :
    (ss : List (Option PermissionSet))
    → AllValid ss
    → grants_nothing (new_grants ss) ≡ false
    → (p : String) × (has_grant p (new_grants ss) ≡ true)
unfolding has_grant any_set kept_sets
kept_has [] v h = absurd (ground (arith, h))
kept_has (none ∷ ss) v h = kept_has ss v h
kept_has (some s ∷ ss) v h = elim (Bool-cases (is_empty s)) [
  | inl e ↦ let (p, k) = kept_has ss v.1 (ground (arith, h, e)) in (p, ground (arith, k, e))
  | inr e ↦ let (p, k) = first_has s v.0 e in (p, ground (arith, k, e))
]

nothing_has : (g : Grants) (p : String) → grants_nothing g ≡ true → has_grant p g ≡ false
unfolding has_grant any_set
nothing_has g p h = elim (List-cases g.sets) [
  | inl e ↦ ground (arith, h, e)
  | inr (s, ss, e) ↦ absurd (ground (arith, h, e))
]

-- Grants from valid sets call themselves empty exactly if they deny every permission.
pub new_grants_empty_iff :
    (ss : List (Option PermissionSet))
    → AllValid ss
    → (grants_nothing (new_grants ss) ≡ true) ↔ ((p : String) → has_grant p (new_grants ss) ≡ false)
new_grants_empty_iff ss v = (
  λ h p. nothing_has (new_grants ss) p h,
  λ h. elim (Bool-cases (grants_nothing (new_grants ss))) [
    | inl e ↦ e
    | inr e ↦ let (p, k) = kept_has ss v e in absurd (ground (arith, h p, k))
  ],
)
