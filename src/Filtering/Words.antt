-- ===== src/Filtering/Words.antt =====
-- packages/filtering/src/query-filter.ts: parseBool and parseSort. `toLowerCase` is that of the Latin
-- letters: no other letter becomes one of a word that is compared with.
use Prim.Native.Char.{code}
use platform_ts.Prelude.{
  ℕ, ◌+◌, String, ◌≡◌, refl, Bool, true, false, ◌&&◌, ◌||◌, Option, none, some, List, [], ◌∷◌, leb,
  ◌==◌, if◌then◌else◌,
}

pub data SortDirection : Type 0 where
  sort_ascending sort_descending : SortDirection

abbrev pub lowered : String → List ℕ
lowered String.[] = []
lowered (String.◌∷◌ c s) =
    (if leb 65 (code c) && leb (code c) 90 then code c + 32 else code c) ∷ lowered s

abbrev pub same_codes : List ℕ → List ℕ → Bool
same_codes [] [] = true
same_codes [] (y ∷ ys) = false
same_codes (x ∷ xs) [] = false
same_codes (x ∷ xs) (y ∷ ys) = x == y && same_codes xs ys

abbrev pub is_word : List ℕ → String → Bool
is_word codes word = same_codes codes (lowered word)

unfoldable pub parse_bool : String → Option Bool
parse_bool raw =
    let s = lowered raw in
    if is_word s "1" || is_word s "t" || is_word s "true"
    then some true
    else if is_word s "0" || is_word s "f" || is_word s "false"
    then some false
    else none

unfoldable pub parse_sort : String → Option SortDirection
parse_sort raw =
    let s = lowered raw in
    if is_word s "asc"
    then some sort_ascending
    else if is_word s "desc"
    then some sort_descending
    else none

abbrev pub bool_text : Bool → String
bool_text true = "true"
bool_text false = "false"

abbrev pub sort_text : SortDirection → String
sort_text sort_ascending = "asc"
sort_text sort_descending = "desc"

pub parse_bool-bool_text : (b : Bool) → parse_bool (bool_text b) ≡ some b
unfolding parse_bool
parse_bool-bool_text true = refl
parse_bool-bool_text false = refl

pub parse_sort-sort_text : (d : SortDirection) → parse_sort (sort_text d) ≡ some d
unfolding parse_sort
parse_sort-sort_text sort_ascending = refl
parse_sort-sort_text sort_descending = refl
