-- ===== src/Idempotency/Client.antt =====
-- packages/idempotency/src/client.ts: the `fetch` that stamps a key on its requests. `Headers` is its
-- map from names in lower case to values; a name's and a method's case is that of the Latin letters.
use Prim.Native.Char.{Char, code}
use platform_ts.OrderedMap
use platform_ts.OrderedMap.{Map}
use platform_ts.OrderedMap.Laws.{get-put_self, get-put_ne}
use platform_ts.Decimal.{nth}
use platform_ts.Idempotency.Fingerprint.{to_upper}
use platform_ts.Prelude.{
  ◌-◌, String, ◌≡◌, refl, inl, inr, ite, Bool, true, false, not, ◌&&◌, ◌||◌, Option, none, some,
  List, [], ◌∷◌, arith, string_discrete, leb, if◌then◌else◌, Bool-cases, Option-cases,
}

-- The first argument of `fetch`: a URL, or a request with its own method and headers.
pub data RequestInfo : Type 0 where
  url_input : String → RequestInfo
  request_input : String → Map String → RequestInfo

-- The members of the second argument that are looked at; `body` stands for the others.
pub record RequestInit : Type 0 where
  pub method : Option String
  pub headers : Option (Map String)
  pub body : String

pub record IdempotentFetch : Type 0 where
  pub key : String
  pub header_name : String
  pub methods : List String

abbrev pub or_given : {A : Type 0} → A → Option A → A
or_given a none = a
or_given a (some b) = b

abbrev pub idempotent_methods : List String
idempotent_methods = "POST" ∷ "PUT" ∷ "PATCH" ∷ "DELETE" ∷ []

-- `generated` is what the generator gives, if it is asked.
abbrev pub idempotent_fetch :
    Option String → Option String → Option (List String) → String → IdempotentFetch
idempotent_fetch key header_name methods generated = record {
  key = or_given generated key;
  header_name = or_given "Idempotency-Key" header_name;
  methods = or_given idempotent_methods methods;
}

abbrev pub lower_code : Char → Char
lower_code c =
    if leb 65 (code c) && leb (code c) 90 then nth "abcdefghijklmnopqrstuvwxyz" (code c - 65) else c

abbrev pub to_lower : String → String
to_lower String.[] = ""
to_lower (String.◌∷◌ c s) = String.◌∷◌ (lower_code c) (to_lower s)

abbrev pub init_method : Option RequestInit → Option String
init_method none = none
init_method (some init) = init.method

abbrev pub init_headers : Option RequestInit → Option (Map String)
init_headers none = none
init_headers (some init) = init.headers

abbrev pub own_method : RequestInfo → String
own_method (url_input url) = "GET"
own_method (request_input method headers) = to_upper method

abbrev pub own_headers : RequestInfo → Map String
own_headers (url_input url) = []
own_headers (request_input method headers) = headers

abbrev pub method_of : RequestInfo → Option RequestInit → String
method_of input init = elim (init_method init) [
  | some method ↦ to_upper method
  | none ↦ own_method input
]

abbrev pub effective_headers : RequestInfo → Option RequestInit → Map String
effective_headers input init = elim (init_headers init) [
  | some headers ↦ headers
  | none ↦ own_headers input
]

abbrev pub includes : String → List String → Bool
includes s [] = false
includes s (t ∷ ts) = ite (string_discrete t s) true (includes s ts)

abbrev pub is_some : {A : Type 0} → Option A → Bool
is_some none = false
is_some (some a) = true

abbrev pub with_headers : Map String → Option RequestInit → RequestInit
with_headers headers none = record { method = none; headers = some headers; body = "" }
with_headers headers (some init) = record init { headers = some headers }

-- What `send` passes to `fetch`.
unfoldable pub send :
    IdempotentFetch → RequestInfo → Option RequestInit → RequestInfo × Option RequestInit
send f input init =
    let headers = effective_headers input init in
    let name = to_lower f.header_name in
    if not (includes (method_of input init) f.methods) || is_some (OrderedMap.get name headers)
    then (input, init)
    else (input, some (with_headers (OrderedMap.put name f.key headers) init))

with_headers_method :
    (headers : Map String) (input : RequestInfo) (init : Option RequestInit)
    → method_of input (some (with_headers headers init)) ≡ method_of input init
with_headers_method headers input none = refl
with_headers_method headers input (some init) = refl

with_headers_effective :
    (headers : Map String) (input : RequestInfo) (init : Option RequestInit)
    → effective_headers input (some (with_headers headers init)) ≡ headers
with_headers_effective headers input none = refl
with_headers_effective headers input (some init) = refl

-- A request is sent to where it was to go with its method and its headers, but for the key's: that is
-- the key if the method takes part and the request has none, and else what the request has.
pub send-stamps :
    (f : IdempotentFetch) (input : RequestInfo) (init : Option RequestInit) (header : String)
    → let (input', init') = send f input init in
      let name = to_lower f.header_name in
      let had = effective_headers input init in
      (input' ≡ input)
      × (method_of input' init' ≡ method_of input init)
      × (OrderedMap.get header (effective_headers input' init')
          ≡ ite
              (string_discrete name header)
              (if includes (method_of input init) f.methods
                  && not (is_some (OrderedMap.get name had))
                then some f.key
                else OrderedMap.get name had)
              (OrderedMap.get header had))
unfolding send
send-stamps f input init header =
    let had = effective_headers input init in
    let name = to_lower f.header_name in
    let stamped = OrderedMap.put name f.key had in
    let sent = with_headers_effective stamped input init in
    let method = with_headers_method stamped input init in
    elim (Bool-cases (includes (method_of input init) f.methods)) [
      | inl takes_part ↦ elim (Option-cases (OrderedMap.get name had)) [
        | inl has_none ↦ elim (string_discrete name header) [
          | yes same ↦
              ground (arith, takes_part, has_none, same, sent, method, get-put_self name f.key had)
          | no ne ↦
              ground
                (arith, takes_part, has_none, ne, sent, method, get-put_ne name header f.key had ne)
        ]
        | inr (v, has_one) ↦ elim (string_discrete name header) [
          | yes same ↦ ground (arith, takes_part, has_one, same)
          | no ne ↦ ground (arith, takes_part, has_one, ne)
        ]
      ]
      | inr stays_out ↦ elim (string_discrete name header) [
        | yes same ↦ ground (arith, stays_out, same)
        | no ne ↦ ground (arith, stays_out, ne)
      ]
    ]
