-- ===== src/Authorization/Permissions.antt =====
-- packages/authorization/src/permission.ts: PermissionSet.
use platform_ts.Authorization.Members.{
  contains, add, Unique, contains-add, add-Unique, Within, fills, length-Within,
}
use platform_ts.Authorization.Sorting.{sort_texts}
use platform_ts.Prelude.{
  ℕ, String, ◌≡◌, refl, sym, ◌∙◌, ◌≢◌, ◌↔◌, ite, Bool, true, false, ◌&&◌, ◌||◌, List, [], ◌∷◌,
  arith, string_discrete, ◌==◌, if◌then◌else◌, length, set,
}

pub record PermissionSet : Type 0 where
  pub perms : List String

-- The constructor's loop.
unfoldable pub collect : List String → List String → List String
unfolding add
collect [] set = set
collect (p ∷ ps) set = collect ps (ite (string_discrete p "") set (add p set))

abbrev pub new_set : List String → PermissionSet
new_set ps = record { perms = collect ps [] }

unfoldable pub has : String → PermissionSet → Bool
unfolding contains
has p s = ite (string_discrete p "") false (contains p s.perms)

unfoldable pub has_all : List String → PermissionSet → Bool
unfolding has
has_all [] s = true
has_all (p ∷ ps) s = if has p s then has_all ps s else false

unfoldable pub has_any : List String → PermissionSet → Bool
unfolding has
has_any [] s = false
has_any (p ∷ ps) s = if has p s then true else has_any ps s

abbrev pub size : PermissionSet → ℕ
size s = length s.perms

abbrev pub is_empty : PermissionSet → Bool
is_empty s = length s.perms == 0

-- In the order of `sort`, which is the encoding as well.
abbrev pub values : PermissionSet → List String
values s = sort_texts s.perms

-- The two loops of `union`.
unfoldable pub add_each : List String → List String → List String
unfolding add
add_each [] merged = merged
add_each (p ∷ ps) merged = add_each ps (add p merged)

unfoldable pub merge : List PermissionSet → List String → List String
unfolding add_each
merge [] merged = merged
merge (s ∷ ss) merged = merge ss (add_each s.perms merged)

unfoldable pub union : PermissionSet → List PermissionSet → PermissionSet
unfolding merge collect
union s others = new_set (merge others s.perms)

abbrev pub is_subset_of : PermissionSet → PermissionSet → Bool
is_subset_of s other = has_all s.perms other

abbrev pub equals : PermissionSet → PermissionSet → Bool
equals s other = (size s == size other) && is_subset_of s other

-- What the constructor gives: no entry twice, and no empty text.
pub record IsValid (s : PermissionSet) : Type 0 where
  pub unique : Unique s.perms
  pub named : contains "" s.perms ≡ false

collect-Unique : (ps set : List String) → Unique set → Unique (collect ps set)
unfolding collect
collect-Unique [] set u = u
collect-Unique (p ∷ ps) set u =
    collect-Unique ps (ite (string_discrete p "") set (add p set))
      (ground (arith, add-Unique p set u))

contains-collect :
    (q : String) (ps set : List String)
    → contains q (collect ps set)
      ≡ (contains q set || ite (string_discrete q "") false (contains q ps))
unfolding collect contains
contains-collect q [] set = ground arith
contains-collect q (p ∷ ps) set =
    contains-collect q ps (ite (string_discrete p "") set (add p set))
    ∙ ground (arith, contains-add q p set)

pub new_set-IsValid : (ps : List String) → IsValid (new_set ps)
unfolding contains
new_set-IsValid ps = record {
  unique = collect-Unique ps [] tt;
  named = contains-collect "" ps [] ∙ ground arith;
}

-- A new set holds exactly the given permissions but the empty one.
pub has-new_set :
    (p : String) (ps : List String)
    → has p (new_set ps) ≡ ite (string_discrete p "") false (contains p ps)
unfolding has contains
has-new_set p ps = ground (arith, contains-collect p ps [])

contains-add_each :
    (q : String) (ps set : List String)
    → contains q (add_each ps set) ≡ (contains q set || contains q ps)
unfolding add_each contains
contains-add_each q [] set = ground arith
contains-add_each q (p ∷ ps) set =
    contains-add_each q ps (add p set) ∙ ground (arith, contains-add q p set)

abbrev pub any_has : String → List PermissionSet → Bool
any_has p [] = false
any_has p (s ∷ ss) = has p s || any_has p ss

-- A permission other than the empty one.
contains-merge :
    (q : String) (ss : List PermissionSet) (set : List String)
    → q ≢ ""
    → contains q (merge ss set) ≡ (contains q set || any_has q ss)
unfolding merge has
contains-merge q [] set ne = ground arith
contains-merge q (s ∷ ss) set ne =
    contains-merge q ss (add_each s.perms set) ne
    ∙ ground (arith, ne, contains-add_each q s.perms set)

has_empty : (p : String) (s : PermissionSet) → p ≡ "" → has p s ≡ false
unfolding has
has_empty p s e = ground (arith, e)

any_has_empty : (p : String) (ss : List PermissionSet) → p ≡ "" → any_has p ss ≡ false
any_has_empty p [] e = refl
any_has_empty p (s ∷ ss) e = ground (arith, has_empty p s e, any_has_empty p ss e)

-- A union has what one of its sets has.
pub has-union :
    (p : String) (s : PermissionSet) (others : List PermissionSet)
    → has p (union s others) ≡ any_has p (s ∷ others)
unfolding union has
has-union p s others = elim (string_discrete p "") [
  | yes e ↦ ground (arith, e, any_has_empty p (s ∷ others) e, has_empty p (union s others) e)
  | no ne ↦
      ground (arith, ne, has-new_set p (merge others s.perms), contains-merge p others s.perms ne)
]

has_all_sound :
    (ps : List String) (s : PermissionSet)
    → has_all ps s ≡ true
    → (p : String) → contains p ps ≡ true
    → has p s ≡ true
unfolding has_all contains
has_all_sound [] s h p k = absurd (ground (arith, k))
has_all_sound (q ∷ ps) s h p k = elim (string_discrete q p) [
  | yes e ↦ ground (arith, h, e)
  | no ne ↦ has_all_sound ps s (ground (arith, h)) p (ground (arith, k, ne))
]

has_all_complete :
    (ps : List String) (s : PermissionSet)
    → ((p : String) → contains p ps ≡ true → has p s ≡ true)
    → has_all ps s ≡ true
unfolding has_all contains
has_all_complete [] s h = refl
has_all_complete (q ∷ ps) s h =
    ground (arith, h q, has_all_complete ps s (λ p k. h p (ground (arith, k))))

-- All of a list is in a set exactly if each of its permissions is.
pub has_all_iff :
    (ps : List String) (s : PermissionSet)
    → (has_all ps s ≡ true) ↔ ((p : String) → contains p ps ≡ true → has p s ≡ true)
has_all_iff ps s = (has_all_sound ps s, has_all_complete ps s)

has-contains : (p : String) (s : PermissionSet) → has p s ≡ true → contains p s.perms ≡ true
unfolding has
has-contains p s h = ground arith

contains-has :
    (p : String) (s : PermissionSet) → IsValid s → contains p s.perms ≡ true → has p s ≡ true
unfolding has
contains-has p s v h = elim (string_discrete p "") [
  | yes e ↦ absurd (ground (arith, e, h, v.named))
  | no ne ↦ ground (arith, ne, h)
]

bool_ext : (a b : Bool) → (a ≡ true → b ≡ true) → (b ≡ true → a ≡ true) → a ≡ b
bool_ext a b f g = ground (arith, f, g)

-- Two sets are equal exactly if they answer alike for each permission.
pub equals_iff :
    (s t : PermissionSet)
    → IsValid s
    → IsValid t
    → (equals s t ≡ true) ↔ ((p : String) → has p s ≡ has p t)
equals_iff s t v w = (
  λ h p.
      let subset : has_all s.perms t ≡ true = ground (arith, h) in
      let sizes : length s.perms ≡ length t.perms = ground (arith, h) in
      let within : Within s.perms t.perms =
        λ q k. has-contains q t (has_all_sound s.perms t subset q k) in
      bool_ext (has p s) (has p t) (λ k. has_all_sound s.perms t subset p (has-contains p s k))
        (λ k.
          contains-has p s v
            (fills s.perms t.perms v.unique within (omega (arith, sizes)) p (has-contains p t k))),
  λ h.
      let there : Within s.perms t.perms =
        λ q k. has-contains q t (sym (h q) ∙ contains-has q s v k) in
      let back : Within t.perms s.perms = λ q k. has-contains q s (h q ∙ contains-has q t w k) in
      let sizes : length s.perms ≡ length t.perms = omega (
        arith,
        length-Within s.perms t.perms v.unique there,
        length-Within t.perms s.perms w.unique back,
      ) in
      ground (arith, sizes, has_all_complete s.perms t (λ q k. sym (h q) ∙ contains-has q s v k)),
)
