-- ===== src/Idempotency/Fingerprint.antt =====
-- packages/idempotency/src/fingerprint.ts: fingerprints of lists of parts and of requests. The hash
-- and the parts of a URL are parameters; a method's `toUpperCase` is that of the Latin letters.
pub mod Framing
pub mod Utf8
pub mod Requests
mod Tests
use Prim.Native.Char.{Char, code}
use platform_ts.Decimal.{nth, write_number}
use platform_ts.Prelude.{
  ℕ, ◌+◌, ◌-◌, ◌/◌, ◌%◌, String, ◌&&◌, Option, none, some, List, [], ◌∷◌, ◌++◌, ltb, leb,
  if◌then◌else◌, length,
}

-- `TextEncoder.encode`: the bytes of UTF-8. A text has no lone surrogates.
abbrev pub utf8_char : ℕ → List ℕ
utf8_char c =
    if ltb c 0x80
    then c ∷ []
    else if ltb c 0x800
    then (0xc0 + c / 0x40) ∷ (0x80 + c % 0x40) ∷ []
    else if ltb c 0x10000
    then (0xe0 + c / 0x1000) ∷ (0x80 + c / 0x40 % 0x40) ∷ (0x80 + c % 0x40) ∷ []
    else (0xf0 + c / 0x40000)
      ∷ (0x80 + c / 0x1000 % 0x40)
      ∷ (0x80 + c / 0x40 % 0x40)
      ∷ (0x80 + c % 0x40)
      ∷ []

abbrev pub encode : String → List ℕ
encode String.[] = []
encode (String.◌∷◌ c s) = utf8_char (code c) ++ encode s

abbrev pub hex_digit : ℕ → Char
hex_digit d = nth "0123456789abcdef" d

unfoldable pub to_hex : List ℕ → String
to_hex [] = ""
to_hex (b ∷ bs) = String.◌∷◌ (hex_digit (b / 16)) (String.◌∷◌ (hex_digit (b % 16)) (to_hex bs))

abbrev pub size_prefix : List ℕ → List ℕ
size_prefix bytes = encode (write_number (length bytes)) ++ 58 ∷ []

-- The buffer: each part after its prefix.
unfoldable pub framed : List (List ℕ) → List ℕ
framed [] = []
framed (part ∷ parts) = size_prefix part ++ (part ++ framed parts)

pub record RequestFingerprintInput : Type 0 where
  pub method : String
  pub url : String
  pub principal : Option String
  pub body : Option (List ℕ)

abbrev pub upper_code : Char → Char
upper_code c =
    if leb 97 (code c) && leb (code c) 122
    then nth "ABCDEFGHIJKLMNOPQRSTUVWXYZ" (code c - 97)
    else c

abbrev pub to_upper : String → String
to_upper String.[] = ""
to_upper (String.◌∷◌ c s) = String.◌∷◌ (upper_code c) (to_upper s)

abbrev pub text_or_empty : Option String → String
text_or_empty none = ""
text_or_empty (some s) = s

abbrev pub bytes_or_empty : Option (List ℕ) → List ℕ
bytes_or_empty none = []
bytes_or_empty (some b) = b

-- `pathname` and `sorted_query` are the URL's path and its query with the keys in order.
abbrev pub request_parts :
    (String → String) → (String → String) → RequestFingerprintInput → List (List ℕ)
request_parts pathname sorted_query input =
    encode (to_upper input.method)
    ∷ encode (pathname input.url)
    ∷ encode (sorted_query input.url)
    ∷ encode (text_or_empty input.principal)
    ∷ bytes_or_empty input.body
    ∷ []

module _ (hash : List ℕ → List ℕ) where
  unfoldable pub fingerprint_of : List (List ℕ) → String
  unfolding to_hex framed
  fingerprint_of parts = to_hex (hash (framed parts))

  unfoldable pub fingerprint_request :
      (String → String) → (String → String) → RequestFingerprintInput → String
  unfolding fingerprint_of
  fingerprint_request pathname sorted_query input =
      fingerprint_of (request_parts pathname sorted_query input)
