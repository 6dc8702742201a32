-- ===== src/Idempotency/Fingerprint/Utf8.antt =====
-- Texts are told apart by their bytes.
use Prim.Native.Char.{code}
use text.Mathlib.TextEquality.{Char-path}
use platform_ts.Idempotency.Fingerprint.{utf8_char, encode}
use platform_ts.Prelude.{
  ℕ, ◌+◌, ◌-◌, ◌*◌, String, ◌≡◌, refl, sym, ap, ◌∙◌, ◌≢◌, List, [], ◌∷◌, ◌++◌, arith, ltb,
  if◌then◌else◌,
}

-- Reads a character back from its bytes.
abbrev read_char : List ℕ → ℕ × List ℕ
read_char [] = (0, [])
read_char (a ∷ []) = (a, [])
read_char (a ∷ b ∷ []) = if ltb a 0x80 then (a, b ∷ []) else ((a - 0xc0) * 0x40 + (b - 0x80), [])
read_char (a ∷ b ∷ c ∷ []) =
    if ltb a 0x80
    then (a, b ∷ c ∷ [])
    else if ltb a 0xe0
    then ((a - 0xc0) * 0x40 + (b - 0x80), c ∷ [])
    else ((a - 0xe0) * 0x1000 + (b - 0x80) * 0x40 + (c - 0x80), [])
read_char (a ∷ b ∷ c ∷ d ∷ bs) =
    if ltb a 0x80
    then (a, b ∷ c ∷ d ∷ bs)
    else if ltb a 0xe0
    then ((a - 0xc0) * 0x40 + (b - 0x80), c ∷ d ∷ bs)
    else if ltb a 0xf0
    then ((a - 0xe0) * 0x1000 + (b - 0x80) * 0x40 + (c - 0x80), d ∷ bs)
    else ((a - 0xf0) * 0x40000 + (b - 0x80) * 0x1000 + (c - 0x80) * 0x40 + (d - 0x80), bs)

read_char-utf8_char : (c : ℕ) (rest : List ℕ) → read_char (utf8_char c ++ rest) ≡ (c, rest)
read_char-utf8_char c [] = ground arith
read_char-utf8_char c (x ∷ []) = ground arith
read_char-utf8_char c (x ∷ y ∷ []) = ground arith
read_char-utf8_char c (x ∷ y ∷ z ∷ rest) = ground arith

utf8_char_some : (c : ℕ) (rest : List ℕ) → utf8_char c ++ rest ≢ []
utf8_char_some c rest e = ground (arith, e)

pub encode-injective : (s t : String) → encode s ≡ encode t → s ≡ t
encode-injective String.[] String.[] e = refl
encode-injective String.[] (String.◌∷◌ d t) e = absurd (utf8_char_some (code d) (encode t) (sym e))
encode-injective (String.◌∷◌ c s) String.[] e = absurd (utf8_char_some (code c) (encode s) e)
encode-injective (String.◌∷◌ c s) (String.◌∷◌ d t) e =
    let read =
      sym (read_char-utf8_char (code c) (encode s))
      ∙ ap read_char e
      ∙ read_char-utf8_char (code d) (encode t) in
    let head = Char-path c d (ap (λ r. r.0) read) in
    let rest = encode-injective s t (ap (λ r. r.1) read) in
    ap (λ x. String.◌∷◌ x s) head ∙ ap (λ x. String.◌∷◌ d x) rest
