-- ===== src/Idempotency/Fingerprint/Framing.antt =====
-- Parts cannot run together, and digests are told apart by their texts.
use Prim.Native.Char.{code}
use mathlib.Core.List.{append_assoc}
use platform_ts.Decimal.{
  nth, write_number, all_digits, value_from, all_digits-write_number, value_from-write_number,
  is_digit,
}
use platform_ts.Idempotency.Fingerprint.{
  encode, hex_digit, to_hex, size_prefix, framed, fingerprint_of,
}
use platform_ts.Prelude.{
  ℕ, zero, suc, ◌+◌, ◌-◌, ◌*◌, ◌/◌, ◌%◌, ◌<◌, String, ◌≡◌, refl, sym, ap, ◌∙◌, ◌≢◌, true, List, [],
  ◌∷◌, ◌++◌, arith, ltb, if◌then◌else◌, length, length-append, All,
}

-- Reads digits up to a byte that is none.
abbrev read_size : ℕ → List ℕ → ℕ × List ℕ
read_size acc [] = (acc, [])
read_size acc (b ∷ bs) = if is_digit b then read_size (acc * 10 + (b - 48)) bs else (acc, bs)

read_size-encode :
    (acc : ℕ) (s : String) (rest : List ℕ)
    → all_digits s ≡ true
    → read_size acc (encode s ++ 58 ∷ rest) ≡ (value_from acc s, rest)
read_size-encode acc String.[] rest h = refl
read_size-encode acc (String.◌∷◌ c s) rest h =
    let digit : is_digit (code c) ≡ true = ground (arith, h) in
    let low : ltb (code c) 0x80 ≡ true = ground (arith, digit) in
    rw low (rw digit (read_size-encode (acc * 10 + (code c - 48)) s rest (ground (arith, h))))

read_size-size_prefix :
    (part rest : List ℕ) → read_size 0 (size_prefix part ++ rest) ≡ (length part, rest)
read_size-size_prefix part rest =
    let s = write_number (length part) in
    ap (read_size 0) (append_assoc (encode s) (58 ∷ []) rest)
    ∙ read_size-encode 0 s rest (all_digits-write_number (length part))
    ∙ ap (λ (n : ℕ). (n, rest)) (value_from-write_number (length part))

split_equal :
    (xs ys xs' ys' : List ℕ)
    → length xs ≡ length ys
    → xs ++ xs' ≡ ys ++ ys'
    → (xs ≡ ys) × (xs' ≡ ys')
split_equal [] [] xs' ys' n e = (refl, e)
split_equal [] (y ∷ ys) xs' ys' n e = absurd (omega (arith, n))
split_equal (x ∷ xs) [] xs' ys' n e = absurd (omega (arith, n))
split_equal (x ∷ xs) (y ∷ ys) xs' ys' n e =
    let rest = split_equal xs ys xs' ys' (omega (arith, n)) (cc e) in
    let head : x ≡ y = cc e in (ap (λ z. z ∷ xs) head ∙ ap (λ zs. y ∷ zs) rest.0, rest.1)

frame_apart : (part : List ℕ) (parts : List (List ℕ)) → framed (part ∷ parts) ≢ []
unfolding framed
frame_apart part parts e =
    let whole = ap length e in
    let parted = length-append (size_prefix part) (part ++ framed parts) in
    let prefixed = length-append (encode (write_number (length part))) (58 ∷ []) in
    absurd (omega (arith, whole, parted, prefixed))

framed-injective : (ps qs : List (List ℕ)) → framed ps ≡ framed qs → ps ≡ qs
unfolding framed
framed-injective [] [] e = refl
framed-injective [] (q ∷ qs) e = absurd (frame_apart q qs (sym e))
framed-injective (p ∷ ps) [] e = absurd (frame_apart p ps e)
framed-injective (p ∷ ps) (q ∷ qs) e =
    let read =
      sym (read_size-size_prefix p (p ++ framed ps))
      ∙ ap (read_size 0) e
      ∙ read_size-size_prefix q (q ++ framed qs) in
    let both = split_equal p q (framed ps) (framed qs) (ap (λ r. r.0) read) (ap (λ r. r.1) read) in
    ap (λ r. r ∷ ps) both.0 ∙ ap (λ rs. q ∷ rs) (framed-injective ps qs both.1)

abbrev pub IsBytes : List ℕ → Type 0
IsBytes = All (λ (b : ℕ). b < 256)

abbrev unhex : ℕ → ℕ
unhex c = if ltb c 58 then c - 48 else c - 87

unhex-letter : (d : ℕ) → d < 6 → unhex (code (nth "abcdef" d)) ≡ 10 + d
unhex-letter zero h = refl
unhex-letter (suc zero) h = refl
unhex-letter (suc (suc zero)) h = refl
unhex-letter (suc (suc (suc zero))) h = refl
unhex-letter (suc (suc (suc (suc zero)))) h = refl
unhex-letter (suc (suc (suc (suc (suc zero))))) h = refl
unhex-letter (suc (suc (suc (suc (suc (suc d)))))) h = absurd (omega arith)

unhex-hex_digit : (d : ℕ) → d < 16 → unhex (code (hex_digit d)) ≡ d
unhex-hex_digit zero h = refl
unhex-hex_digit (suc zero) h = refl
unhex-hex_digit (suc (suc zero)) h = refl
unhex-hex_digit (suc (suc (suc zero))) h = refl
unhex-hex_digit (suc (suc (suc (suc zero)))) h = refl
unhex-hex_digit (suc (suc (suc (suc (suc zero))))) h = refl
unhex-hex_digit (suc (suc (suc (suc (suc (suc zero)))))) h = refl
unhex-hex_digit (suc (suc (suc (suc (suc (suc (suc zero))))))) h = refl
unhex-hex_digit (suc (suc (suc (suc (suc (suc (suc (suc zero)))))))) h = refl
unhex-hex_digit (suc (suc (suc (suc (suc (suc (suc (suc (suc zero))))))))) h = refl
unhex-hex_digit (suc (suc (suc (suc (suc (suc (suc (suc (suc (suc d)))))))))) h =
    let letter = unhex-letter d (omega (arith, h)) in omega (arith, letter)

abbrev read_hex : String → List ℕ
read_hex String.[] = []
read_hex (String.◌∷◌ c String.[]) = []
read_hex (String.◌∷◌ c (String.◌∷◌ d s)) = (unhex (code c) * 16 + unhex (code d)) ∷ read_hex s

read_hex-to_hex : (bytes : List ℕ) → IsBytes bytes → read_hex (to_hex bytes) ≡ bytes
unfolding to_hex
read_hex-to_hex [] h = refl
read_hex-to_hex (b ∷ bs) h =
    let high = unhex-hex_digit (b / 16) (omega (arith, h.0)) in
    let low = unhex-hex_digit (b % 16) (omega arith) in
    let byte : unhex (code (hex_digit (b / 16))) * 16 + unhex (code (hex_digit (b % 16))) ≡ b =
      omega (arith, high, low) in
    ap (λ (x : ℕ). x ∷ read_hex (to_hex bs)) byte ∙ ap (λ xs. b ∷ xs) (read_hex-to_hex bs h.1)

module _ (hash : List ℕ → List ℕ) where
  -- Two lists of parts that have the same fingerprint are the same, if the hash does not give their
  -- two buffers the same digest: parts do not run together.
  pub fingerprint_of-injective :
      (ps qs : List (List ℕ))
      → IsBytes (hash (framed ps))
      → IsBytes (hash (framed qs))
      → (hash (framed ps) ≡ hash (framed qs) → framed ps ≡ framed qs)
      → fingerprint_of hash ps ≡ fingerprint_of hash qs
      → ps ≡ qs
  unfolding fingerprint_of
  fingerprint_of-injective ps qs b c apart e =
      let digest =
        sym (read_hex-to_hex (hash (framed ps)) b)
        ∙ ap read_hex e
        ∙ read_hex-to_hex (hash (framed qs)) c in
      framed-injective ps qs (apart digest)
