-- ===== src/Idempotency/Key.antt =====
-- packages/idempotency/src/key.ts. A key is a text; `codes` gives its code points.
use Prim.Native.Char.{code}
use platform_ts.Prelude.{
  ℕ, ◌+◌, ◌≤◌, ◌<◌, String, ◌≡◌, refl, ◌≢◌, ◌↔◌, ◌⊎◌, Bool, true, ◌&&◌, Option, none, some, List,
  [], ◌∷◌, arith, ltb, leb, if◌then◌else◌, length, All,
}

pub data KeyError : Type 0 where
  key_required key_too_long key_invalid : KeyError

abbrev pub codes : String → List ℕ
codes String.[] = []
codes (String.◌∷◌ c s) = code c ∷ codes s

-- `key.length`: a character beyond the first plane counts as two code units.
abbrev pub units : List ℕ → ℕ
units [] = 0
units (c ∷ cs) = (if ltb 0xffff c then 2 else 1) + units cs

-- The test of the loop, negated. A character of two units has a code above 0x7e as well.
abbrev pub is_allowed : ℕ → Bool
is_allowed c = ltb 0x20 c && leb c 0x7e

unfoldable pub all_allowed : List ℕ → Bool
all_allowed [] = true
all_allowed (c ∷ cs) = is_allowed c && all_allowed cs

unfoldable pub validate_codes : List ℕ → ℕ → Option KeyError
unfolding all_allowed
validate_codes [] max_length = some key_required
validate_codes (c ∷ cs) max_length =
    if ltb 0 max_length && ltb max_length (units (c ∷ cs))
    then some key_too_long
    else if all_allowed (c ∷ cs)
    then none
    else some key_invalid

-- `validateIdempotencyKey`; `none` is a valid key.
unfoldable pub validate_key : String → ℕ → Option KeyError
unfolding validate_codes
validate_key key max_length = validate_codes (codes key) max_length

abbrev pub IsPrintable : ℕ → Type 0
IsPrintable c = (0x20 < c) × (c < 0x7f)

all_allowed_sound : (cs : List ℕ) → all_allowed cs ≡ true → All IsPrintable cs
unfolding all_allowed
all_allowed_sound [] h = tt
all_allowed_sound (c ∷ cs) h = ground (arith, all_allowed_sound cs)

all_allowed_complete : (cs : List ℕ) → All IsPrintable cs → all_allowed cs ≡ true
unfolding all_allowed
all_allowed_complete [] h = refl
all_allowed_complete (c ∷ cs) h = ground (arith, all_allowed_complete cs h.1)

units_printable : (cs : List ℕ) → All IsPrintable cs → units cs ≡ length cs
units_printable [] h = refl
units_printable (c ∷ cs) h = ground (arith, units_printable cs h.1)

validate_codes_iff :
    (cs : List ℕ) (max_length : ℕ)
    → (validate_codes cs max_length ≡ none)
      ↔ ((cs ≢ []) × All IsPrintable cs × ((max_length ≡ 0) ⊎ (length cs ≤ max_length)))
unfolding validate_codes
validate_codes_iff [] max_length = (λ h. cc, λ h. absurd (h.0 refl))
validate_codes_iff (c ∷ cs) max_length = (
  λ h.
      let a : all_allowed (c ∷ cs) ≡ true = ground arith in
      let p = all_allowed_sound (c ∷ cs) a in
      (λ e. cc, p, ground (arith, units_printable (c ∷ cs) p)),
  λ h. ground (arith, all_allowed_complete (c ∷ cs) h.1, units_printable (c ∷ cs) h.1),
)

-- A key is accepted exactly if it is not empty, holds only printable ASCII characters without the
-- space, and is no longer than the maximum, where a maximum of zero sets none.
pub validate_key_iff :
    (key : String) (max_length : ℕ)
    → (validate_key key max_length ≡ none) ↔ (
        (codes key ≢ [])
        × All IsPrintable (codes key)
        × ((max_length ≡ 0) ⊎ (length (codes key) ≤ max_length)))
unfolding validate_key
validate_key_iff key max_length = validate_codes_iff (codes key) max_length
