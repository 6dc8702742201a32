-- ===== src/Authorization/Sorting.antt =====
-- `Array.prototype.sort` on texts, which compares their UTF-16 code units.
use Prim.Native.Char.{code}
use platform_ts.Authorization.Members.{contains}
use platform_ts.Prelude.{
  ℕ, ◌+◌, ◌-◌, ◌/◌, ◌%◌, String, ◌≡◌, refl, ◌∙◌, Bool, true, false, List, [], ◌∷◌, ◌++◌, arith, ltb,
  ◌==◌, if◌then◌else◌,
}

abbrev unit_list : ℕ → List ℕ
unit_list c =
    if ltb 0xffff c
    then (0xd800 + (c - 0x10000) / 0x400) ∷ (0xdc00 + (c - 0x10000) % 0x400) ∷ []
    else c ∷ []

abbrev code_units : String → List ℕ
code_units String.[] = []
code_units (String.◌∷◌ c s) = unit_list (code c) ++ code_units s

-- Whether the first list goes after the second one.
unfoldable pub goes_after : List ℕ → List ℕ → Bool
goes_after [] ys = false
goes_after (x ∷ xs) [] = true
goes_after (x ∷ xs) (y ∷ ys) = if x == y then goes_after xs ys else ltb y x

unfoldable pub insert_text : String → List String → List String
unfolding goes_after
insert_text s [] = s ∷ []
insert_text s (t ∷ ts) =
    if goes_after (code_units s) (code_units t) then t ∷ insert_text s ts else s ∷ t ∷ ts

unfoldable pub sort_texts : List String → List String
unfolding insert_text
sort_texts [] = []
sort_texts (s ∷ ss) = insert_text s (sort_texts ss)

contains-insert_text :
    (p s : String) (ts : List String) → contains p (insert_text s ts) ≡ contains p (s ∷ ts)
unfolding contains insert_text
contains-insert_text p s [] = refl
contains-insert_text p s (t ∷ ts) = ground (arith, contains-insert_text p s ts)

pub contains-sort_texts :
    (p : String) (ss : List String) → contains p (sort_texts ss) ≡ contains p ss
unfolding contains sort_texts
contains-sort_texts p [] = refl
contains-sort_texts p (s ∷ ss) =
    contains-insert_text p s (sort_texts ss) ∙ ground (arith, contains-sort_texts p ss)
