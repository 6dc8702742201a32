-- ===== src/Filtering/Numerals.antt =====
-- packages/filtering/src/query-filter.ts: parseLimit.
use Prim.Native.Char.{code}
use platform_ts.Decimal.{
  write_number, is_empty, all_digits, value_from, value_from-write_number, all_digits-write_number,
  is_empty-write_number,
}
use platform_ts.Prelude.{
  ℕ, ◌≤◌, min, String, ◌≡◌, refl, ap, ◌∙◌, Bool, true, false, not, ◌&&◌, ◌||◌, Option, none, some,
  arith, ltb, leb, ◌==◌, if◌then◌else◌,
}

-- The white space that `trim` and `Number` take away.
abbrev pub is_space : ℕ → Bool
is_space c =
    (leb 9 c && leb c 13)
    || c == 32
    || c == 0xa0
    || c == 0x1680
    || (leb 0x2000 c && leb c 0x200a)
    || c == 0x2028
    || c == 0x2029
    || c == 0x202f
    || c == 0x205f
    || c == 0x3000
    || c == 0xfeff

abbrev pub trim_start : String → String
trim_start String.[] = ""
trim_start (String.◌∷◌ c s) = if is_space (code c) then trim_start s else String.◌∷◌ c s

abbrev pub trim_end : String → String
trim_end String.[] = ""
trim_end (String.◌∷◌ c s) =
    let rest = trim_end s in if is_empty rest && is_space (code c) then "" else String.◌∷◌ c rest

abbrev pub trim : String → String
trim s = trim_end (trim_start s)

abbrev pub max_query_filter_limit : ℕ
max_query_filter_limit = 250

abbrev pub max_safe_integer : ℕ
max_safe_integer = 9007199254740991

-- `Number` is read only of texts that are digits between white space.
unfoldable pub parse_limit : String → Option ℕ
parse_limit raw =
    let digits = trim raw in
    let value = value_from 0 digits in
    if is_empty digits || not (all_digits digits)
    then none
    else if ltb max_safe_integer value
    then none
    else some (min value max_query_filter_limit)

trim_end-digits : (s : String) → all_digits s ≡ true → trim_end s ≡ s
trim_end-digits String.[] h = refl
trim_end-digits (String.◌∷◌ c s) h =
    let rest = trim_end-digits s (ground (arith, h)) in ground (arith, rest, h)

trim-digits : (s : String) → all_digits s ≡ true → trim s ≡ s
trim-digits String.[] h = refl
trim-digits (String.◌∷◌ c s) h =
    let start : trim_start (String.◌∷◌ c s) ≡ String.◌∷◌ c s = ground (arith, h) in
    ap trim_end start ∙ trim_end-digits (String.◌∷◌ c s) h

parse_limit-digits :
    (s : String)
    → all_digits s ≡ true
    → is_empty s ≡ false
    → value_from 0 s ≤ max_safe_integer
    → parse_limit s ≡ some (min (value_from 0 s) max_query_filter_limit)
unfolding parse_limit
parse_limit-digits s digits full small = rw (trim-digits s digits) (ground (arith, digits, full))

-- A whole number that a double holds exactly is read back, up to the limit.
pub parse_limit-write_number :
    (n : ℕ)
    → n ≤ max_safe_integer
    → parse_limit (write_number n) ≡ some (min n max_query_filter_limit)
parse_limit-write_number n h =
    let value = value_from-write_number n in
    parse_limit-digits (write_number n) (all_digits-write_number n) (is_empty-write_number n)
      (omega (arith, value))
    ∙ ap (λ (k : ℕ). some (min k max_query_filter_limit)) value

pub parse_limit_bounds :
    (raw : String) (n : ℕ) → parse_limit raw ≡ some n → n ≤ max_query_filter_limit
unfolding parse_limit
parse_limit_bounds raw n h = ground (arith, h)
