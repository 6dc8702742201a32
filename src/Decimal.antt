-- ===== src/Decimal.antt =====
-- `String` on a whole number, and the value of a text of digits.
use Prim.Native.Char.{Char, code}
use platform_ts.Prelude.{
  ℕ, zero, suc, ◌+◌, ◌-◌, ◌*◌, ◌/◌, ◌%◌, ◌<◌, String, ◌≡◌, refl, ap, ◌∙◌, inl, inr, Bool, true,
  false, ◌&&◌, arith, leb, ◌==◌, if◌then◌else◌, Bool-cases,
}

abbrev pub nth : String → ℕ → Char
nth String.[] i = "9"
nth (String.◌∷◌ c s) zero = c
nth (String.◌∷◌ c s) (suc i) = nth s i

abbrev pub digit : ℕ → Char
digit d = nth "0123456789" d

-- `String(n)`, with a unit of fuel for each digit.
unfoldable pub write_digits : ℕ → ℕ → String → String
write_digits zero n rest = rest
write_digits (suc fuel) n rest =
    let rest' = String.◌∷◌ (digit (n % 10)) rest in
    let more = write_digits fuel (n / 10) rest' in if n / 10 == 0 then rest' else more

unfoldable pub write_number : ℕ → String
unfolding write_digits
write_number n = write_digits (suc n) n ""

abbrev pub is_digit : ℕ → Bool
is_digit c = leb 48 c && leb c 57

abbrev pub is_empty : String → Bool
is_empty String.[] = true
is_empty (String.◌∷◌ c s) = false

abbrev pub all_digits : String → Bool
all_digits String.[] = true
all_digits (String.◌∷◌ c s) = is_digit (code c) && all_digits s

abbrev pub value_from : ℕ → String → ℕ
value_from acc String.[] = acc
value_from acc (String.◌∷◌ c s) = value_from (acc * 10 + (code c - 48)) s

pub code-digit : (d : ℕ) → d < 10 → code (digit d) ≡ 48 + d
code-digit zero h = refl
code-digit (suc zero) h = refl
code-digit (suc (suc zero)) h = refl
code-digit (suc (suc (suc zero))) h = refl
code-digit (suc (suc (suc (suc zero)))) h = refl
code-digit (suc (suc (suc (suc (suc zero))))) h = refl
code-digit (suc (suc (suc (suc (suc (suc zero)))))) h = refl
code-digit (suc (suc (suc (suc (suc (suc (suc zero))))))) h = refl
code-digit (suc (suc (suc (suc (suc (suc (suc (suc zero)))))))) h = refl
code-digit (suc (suc (suc (suc (suc (suc (suc (suc (suc zero))))))))) h = refl
code-digit (suc (suc (suc (suc (suc (suc (suc (suc (suc (suc d)))))))))) h = absurd (omega arith)

value_from-digit :
    (acc d : ℕ) (rest : String)
    → d < 10
    → value_from acc (String.◌∷◌ (digit d) rest) ≡ value_from (acc * 10 + d) rest
value_from-digit acc d rest h =
    ap (λ (x : ℕ). value_from (acc * 10 + x) rest) (omega (arith, code-digit d h))

pub value_from-write_digits :
    (fuel n : ℕ) (rest : String)
    → n < fuel
    → value_from 0 (write_digits fuel n rest) ≡ value_from n rest
unfolding write_digits
value_from-write_digits zero n rest h = absurd (omega arith)
value_from-write_digits (suc fuel) n rest h =
    let rest' = String.◌∷◌ (digit (n % 10)) rest in
    elim (Bool-cases (n / 10 == 0)) [
      | inl last ↦
          let same : 0 * 10 + n % 10 ≡ n = ground (arith, last) in
          rw last
            (value_from-digit 0 (n % 10) rest (omega arith) ∙ ap (λ k. value_from k rest) same)
      | inr more ↦
          let same : n / 10 * 10 + n % 10 ≡ n = omega arith in
          rw more (
            value_from-write_digits fuel (n / 10) rest' (ground (arith, more))
            ∙ value_from-digit (n / 10) (n % 10) rest (omega arith)
            ∙ ap (λ k. value_from k rest) same)
    ]

pub all_digits-write_digits :
    (fuel n : ℕ) (rest : String)
    → all_digits rest ≡ true
    → all_digits (write_digits fuel n rest) ≡ true
unfolding write_digits
all_digits-write_digits zero n rest h = h
all_digits-write_digits (suc fuel) n rest h =
    let rest' = String.◌∷◌ (digit (n % 10)) rest in
    let d = code-digit (n % 10) (omega arith) in
    let now : all_digits rest' ≡ true = ground (arith, d, h) in
    elim (Bool-cases (n / 10 == 0)) [
      | inl last ↦ rw last now
      | inr more ↦ rw more (all_digits-write_digits fuel (n / 10) rest' now)
    ]

is_empty-write_digits :
    (fuel n : ℕ) (rest : String)
    → is_empty rest ≡ false
    → is_empty (write_digits fuel n rest) ≡ false
unfolding write_digits
is_empty-write_digits zero n rest h = h
is_empty-write_digits (suc fuel) n rest h = elim (Bool-cases (n / 10 == 0)) [
  | inl last ↦ rw last refl
  | inr more ↦ rw more (is_empty-write_digits fuel (n / 10) (String.◌∷◌ (digit (n % 10)) rest) refl)
]

pub is_empty-write_number : (n : ℕ) → is_empty (write_number n) ≡ false
unfolding write_number
is_empty-write_number n = elim (Bool-cases (n / 10 == 0)) [
  | inl last ↦ rw last refl
  | inr more ↦ rw more (is_empty-write_digits n (n / 10) (String.◌∷◌ (digit (n % 10)) "") refl)
]

pub value_from-write_number : (n : ℕ) → value_from 0 (write_number n) ≡ n
unfolding write_number
value_from-write_number n = value_from-write_digits (suc n) n "" (omega arith)

pub all_digits-write_number : (n : ℕ) → all_digits (write_number n) ≡ true
unfolding write_number
all_digits-write_number n = all_digits-write_digits (suc n) n "" refl
