-- ===== src/Authorization/Static/Keys.antt =====
-- The keys of the memo: which lists of names share one.
use Prim.Native.Char.{code}
use platform_ts.Authorization.Sorting.{sort_texts, insert_text}
use platform_ts.Authorization.Static.{prepend, join_texts, memo_key}
use platform_ts.Prelude.{
  suc, ◌<◌, String, ◌≡◌, refl, sym, ap, ◌∙◌, Bool, true, not, ◌&&◌, List, [], ◌∷◌, arith, ◌==◌,
  if◌then◌else◌, length,
}

-- A name without the separator.
abbrev pub no_nul : String → Bool
no_nul String.[] = true
no_nul (String.◌∷◌ c s) = not (code c == 0) && no_nul s

abbrev pub all_no_nul : List String → Bool
all_no_nul [] = true
all_no_nul (s ∷ ss) = no_nul s && all_no_nul ss

all_no_nul-insert_text :
    (s : String) (ts : List String) → all_no_nul (insert_text s ts) ≡ (no_nul s && all_no_nul ts)
unfolding insert_text
all_no_nul-insert_text s [] = refl
all_no_nul-insert_text s (t ∷ ts) = ground (arith, all_no_nul-insert_text s ts)

all_no_nul-sort_texts : (ss : List String) → all_no_nul (sort_texts ss) ≡ all_no_nul ss
unfolding sort_texts
all_no_nul-sort_texts [] = refl
all_no_nul-sort_texts (s ∷ ss) =
    ground (arith, all_no_nul-insert_text s (sort_texts ss), all_no_nul-sort_texts ss)

length-insert_text : (s : String) (ts : List String) → length (insert_text s ts) ≡ suc (length ts)
unfolding insert_text
length-insert_text s [] = refl
length-insert_text s (t ∷ ts) = ground (arith, length-insert_text s ts)

length-sort_texts : (ss : List String) → length (sort_texts ss) ≡ length ss
unfolding sort_texts
length-sort_texts [] = refl
length-sort_texts (s ∷ ss) =
    ground (arith, length-insert_text s (sort_texts ss), length-sort_texts ss)

-- Puts a character before the first text.
abbrev grow : Prim.Native.Char.Char → List String → List String
grow c [] = String.◌∷◌ c String.[] ∷ []
grow c (s ∷ ss) = String.◌∷◌ c s ∷ ss

abbrev split : String → List String
split String.[] = "" ∷ []
split (String.◌∷◌ c s) = if code c == 0 then "" ∷ split s else grow c (split s)

split-no_nul : (s : String) → no_nul s ≡ true → split s ≡ s ∷ []
split-no_nul String.[] e = refl
split-no_nul (String.◌∷◌ c s) e = ground (arith, split-no_nul s)

split-prepend : (s t : String) → no_nul s ≡ true → split (prepend s (prepend "\0" t)) ≡ s ∷ split t
split-prepend String.[] t e = refl
split-prepend (String.◌∷◌ c s) t e = ground (arith, split-prepend s t)

split-join_texts :
    (s : String) (ss : List String)
    → all_no_nul (s ∷ ss) ≡ true
    → split (join_texts (s ∷ ss)) ≡ s ∷ ss
unfolding join_texts
split-join_texts s [] e = split-no_nul s (ground (arith, e))
split-join_texts s (t ∷ ss) e =
    split-prepend s (join_texts (t ∷ ss)) (ground (arith, e))
    ∙ ap (λ r. s ∷ r) (split-join_texts t ss (ground (arith, e)))

join_texts-injective :
    (ss ts : List String)
    → 0 < length ss
    → 0 < length ts
    → all_no_nul ss ≡ true
    → all_no_nul ts ≡ true
    → join_texts ss ≡ join_texts ts
    → ss ≡ ts
join_texts-injective [] ts n m e f h = absurd (omega arith)
join_texts-injective (s ∷ ss) [] n m e f h = absurd (omega arith)
join_texts-injective (s ∷ ss) (t ∷ ts) n m e f h =
    sym (split-join_texts s ss e) ∙ ap split h ∙ split-join_texts t ts f

-- Lists of names without the separator that have a key in common are the same list when sorted.
pub memo_key-injective :
    (ss ts : List String)
    → 0 < length ss
    → 0 < length ts
    → all_no_nul ss ≡ true
    → all_no_nul ts ≡ true
    → memo_key ss ≡ memo_key ts
    → sort_texts ss ≡ sort_texts ts
unfolding memo_key
memo_key-injective ss ts n m e f h =
    let l = length-sort_texts ss in
    let k = length-sort_texts ts in
    join_texts-injective (sort_texts ss) (sort_texts ts) (omega arith) (omega arith)
      (all_no_nul-sort_texts ss ∙ e) (all_no_nul-sort_texts ts ∙ f) h
