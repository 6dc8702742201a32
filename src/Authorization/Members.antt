-- ===== src/Authorization/Members.antt =====
-- Membership in lists of texts, which stand for JavaScript's `Set` in insertion order.
use platform_ts.Prelude.{
  suc, ◌≤◌, String, ◌≡◌, refl, sym, ◌∙◌, ◌≢◌, ite, Bool, true, false, List, [], ◌∷◌, arith,
  string_discrete, length,
}

unfoldable pub contains : String → List String → Bool
contains p [] = false
contains p (q ∷ qs) = ite (string_discrete q p) true (contains p qs)

-- `Set.add`: a known entry keeps its place.
unfoldable pub add : String → List String → List String
add p [] = p ∷ []
add p (q ∷ qs) = ite (string_discrete q p) (q ∷ qs) (q ∷ add p qs)

-- Each entry stands once.
abbrev pub Unique : List String → Type 0
Unique [] = Unit
Unique (q ∷ qs) = (contains q qs ≡ false) × Unique qs

pub contains-add :
    (p x : String) (xs : List String)
    → contains p (add x xs) ≡ ite (string_discrete x p) true (contains p xs)
unfolding contains add
contains-add p x [] = ground arith
contains-add p x (y ∷ ys) = ground (arith, contains-add p x ys)

pub add-Unique : (x : String) (xs : List String) → Unique xs → Unique (add x xs)
unfolding contains add
add-Unique x [] u = (refl, tt)
add-Unique x (y ∷ ys) u = ground (arith, add-Unique x ys, contains-add y x ys)

remove_one : String → List String → List String
remove_one p [] = []
remove_one p (q ∷ qs) = ite (string_discrete q p) qs (q ∷ remove_one p qs)

length-remove_one :
    (p : String) (qs : List String)
    → contains p qs ≡ true
    → length qs ≡ suc (length (remove_one p qs))
unfolding contains remove_one
length-remove_one p [] h = cc
length-remove_one p (q ∷ qs) h = ground (arith, length-remove_one p qs)

contains-remove_one :
    (p x : String) (qs : List String) → x ≢ p → contains x (remove_one p qs) ≡ contains x qs
unfolding contains remove_one
contains-remove_one p x [] h = refl
contains-remove_one p x (q ∷ qs) h = ground (arith, contains-remove_one p x qs h)

abbrev pub Within : List String → List String → Type 0
Within xs ys = (p : String) → contains p xs ≡ true → contains p ys ≡ true

-- Entries that stand once each in a list that is no longer than they are many are all of it.
pub fills : (xs ys : List String) → Unique xs → Within xs ys → length ys ≤ length xs → Within ys xs
unfolding contains
fills [] [] u w l p h = h
fills [] (y ∷ ys) u w l p h = absurd (omega arith)
fills (x ∷ xs) ys u w l p h =
    let there : contains x ys ≡ true = w x (ground arith) in
    let others : Within xs (remove_one x ys) = λ q k.
      contains-remove_one x q ys (λ e. ground (arith, e, k, u.0)) ∙ w q (ground (arith, k)) in
    elim (string_discrete x p) [
      | yes e ↦ ground (arith, e)
      | no ne ↦
          let rest =
            fills xs (remove_one x ys) u.1 others (omega (arith, l, length-remove_one x ys there)) p
              (contains-remove_one x p ys (λ e. ne (sym e)) ∙ h) in
          ground (arith, ne, rest)
    ]

-- Entries that stand once each are no more than those of a list that has them all.
pub length-Within : (xs ys : List String) → Unique xs → Within xs ys → length xs ≤ length ys
unfolding contains
length-Within [] ys u w = omega arith
length-Within (x ∷ xs) ys u w =
    let there : contains x ys ≡ true = w x (ground arith) in
    let others : Within xs (remove_one x ys) = λ q k.
      contains-remove_one x q ys (λ e. ground (arith, e, k, u.0)) ∙ w q (ground (arith, k)) in
    omega (arith, length-remove_one x ys there, length-Within xs (remove_one x ys) u.1 others)
