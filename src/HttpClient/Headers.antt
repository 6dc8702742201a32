-- ===== src/HttpClient/Headers.antt =====
-- Where the headers of a request come from.
use platform_ts.OrderedMap
use platform_ts.OrderedMap.{Map}
use platform_ts.OrderedMap.Laws.{get-put_self, get-put_ne}
use platform_ts.Idempotency.Client.{to_lower}
use platform_ts.Retry.Attempts.{Sum-cases}
use platform_ts.HttpClient.{
  HttpClientConfig, Body, body_init, json_body, HttpRequest, RequestInit, Platform,
}
use platform_ts.HttpClient.Requests.{
  set_headers, new_headers, entries_of, content_type, with_content_type, base_headers, encode_body,
  build_init,
}
use platform_ts.Prelude.{
  String, ◌≡◌, refl, sym, ap, ◌⊎◌, inl, inr, ite, Option, none, some, List, [], ◌∷◌, arith,
  string_discrete, Option-cases, set,
}

-- The first of the two that is there.
abbrev pub first_of : Option String → Option String → Option String
first_of none b = b
first_of (some a) b = some a

-- The content type that a body has if nothing else says it.
abbrev pub implied_type : {Json : Type 0} → Option (Body Json) → String → Option String
implied_type none header = none
implied_type (some (body_init text)) header = none
implied_type (some (json_body value)) header =
    ite (string_discrete content_type header) (some "application/json") none

first_of_assoc : (a b c : Option String) → first_of (first_of a b) c ≡ first_of a (first_of b c)
first_of_assoc none b c = refl
first_of_assoc (some a) b c = refl

first_of-none : (a : Option String) → first_of a none ≡ a
first_of-none none = refl
first_of-none (some a) = refl

get-with_content_type :
    (header : String) (headers : Map String)
    → OrderedMap.get header (with_content_type headers)
      ≡ first_of
          (OrderedMap.get header headers)
          (ite (string_discrete content_type header) (some "application/json") none)
get-with_content_type header headers = elim (string_discrete content_type header) [
  | yes same ↦ elim (Option-cases (OrderedMap.get content_type headers)) [
    | inl unset ↦ ground (arith, same, unset, get-put_self content_type "application/json" headers)
    | inr (v, had) ↦ ground (arith, same, had)
  ]
  | no ne ↦ elim (Option-cases (OrderedMap.get content_type headers)) [
    | inl unset ↦ ground (
      arith,
      ne,
      unset,
      first_of-none (OrderedMap.get header headers),
      get-put_ne content_type header "application/json" headers ne,
    )
    | inr (v, had) ↦ ground (arith, ne, had, first_of-none (OrderedMap.get header headers))
  ]
]

module _ (p : Platform) where
  abbrev headers_or : Map String ⊎ p.Err → Map String
  headers_or (inl headers) = headers
  headers_or (inr e) = []

  -- The value of an entry as it is set.
  abbrev pub normal_value : String → String → String
  normal_value name value = elim (p.header name value) [ inl normal ↦ normal | inr e ↦ value ]

  -- The value that the last entry of a name gives it.
  abbrev pub last_set : String → List (String × String) → Option String
  last_set header [] = none
  last_set header ((name, value) ∷ rest) = elim (last_set header rest) [
    | some later ↦ some later
    | none ↦ ite (string_discrete (to_lower name) header) (some (normal_value name value)) none
  ]

  get-set_headers :
      (header : String) (entries : List (String × String)) (headers set : Map String)
      → set_headers p entries headers ≡ inl set
      → OrderedMap.get header set
        ≡ first_of (last_set header entries) (OrderedMap.get header headers)
  unfolding set_headers
  get-set_headers header [] headers set e = ap (OrderedMap.get header) (ap headers_or (sym e))
  get-set_headers header ((name, value) ∷ rest) headers set e =
      let key = to_lower name in
      elim (Sum-cases (p.header name value)) [
        | inr (err, bad) ↦ absurd (ground (arith, e, bad))
        | inl (v, fine) ↦
            let ih =
              get-set_headers header rest (OrderedMap.put key v headers) set
                (ground (arith, e, fine)) in
            elim (Option-cases (last_set header rest)) [
              | inr (u, later) ↦ ground (arith, ih, later)
              | inl last ↦ elim (string_discrete key header) [
                | yes same ↦ ground (arith, ih, last, same, fine, get-put_self key v headers)
                | no ne ↦ ground (arith, ih, last, ne, get-put_ne key header v headers ne)
              ]
            ]
      ]

  abbrev sent_headers : (Option String × Map String) ⊎ p.Err → Map String
  sent_headers (inl x) = x.1
  sent_headers (inr e) = []

  abbrev init_headers : RequestInit ⊎ p.Err → Map String
  init_headers (inl init) = init.headers
  init_headers (inr e) = []

  get-encode_body :
      (body : Option (Body p.Json)) (headers : Map String) (header : String) (text : Option String)
      (headers' : Map String)
      → encode_body p body headers ≡ inl (text, headers')
      → OrderedMap.get header headers'
        ≡ first_of (OrderedMap.get header headers) (implied_type body header)
  unfolding encode_body
  get-encode_body none headers header text headers' e =
      ground (arith, ap sent_headers e, first_of-none (OrderedMap.get header headers))
  get-encode_body (some (body_init t)) headers header text headers' e =
      ground (arith, ap sent_headers e, first_of-none (OrderedMap.get header headers))
  get-encode_body (some (json_body value)) headers header text headers' e =
      elim (Sum-cases (p.stringify value)) [
        | inl (t, good) ↦
            ground (arith, e, good, ap sent_headers e, get-with_content_type header headers)
        | inr (err, bad) ↦ ground (arith, e, bad)
      ]

  base_headers-parts :
      (c : HttpClientConfig) (req : HttpRequest p.Json) (w : p.World) (headers : Map String)
      → base_headers p c req w ≡ inl headers
      → (fixed : Map String) × (own : Map String) × (new_headers p c.headers ≡ inl fixed)
        × (set_headers p (entries_of req.options.headers) fixed ≡ inl own)
        × (set_headers p (p.trace w) own ≡ inl headers)
  unfolding base_headers
  base_headers-parts c req w headers e = elim (Sum-cases (new_headers p c.headers)) [
    | inr (err, bad) ↦ absurd (ground (arith, e, bad))
    | inl (fixed, new) ↦ elim (Sum-cases (set_headers p (entries_of req.options.headers) fixed)) [
      | inr (err, bad) ↦ absurd (ground (arith, e, new, bad))
      | inl (own, done) ↦ (fixed, own, new, done, ground (arith, e, new, done))
    ]
  ]

  -- A header of a request that is built has the value of the trace context if that sets it, else the
  -- last that the request sets, else that of the configuration, and if none of them has the content
  -- type, it is that of JSON for a body that is encoded as JSON. A name's case does not matter, and the
  -- values are those that `Headers` normalises them to.
  pub build_init-headers :
      (c : HttpClientConfig) (req : HttpRequest p.Json) (w : p.World) (init : RequestInit)
      (header : String)
      → build_init p c req w ≡ inl init
      → (fixed : Map String) × (new_headers p c.headers ≡ inl fixed)
        × (OrderedMap.get header init.headers
            ≡ first_of (last_set header (p.trace w)) (
                first_of
                  (last_set header (entries_of req.options.headers))
                  (first_of (OrderedMap.get header fixed) (implied_type req.body header))))
  unfolding build_init
  build_init-headers c req w init header built = elim (Sum-cases (base_headers p c req w)) [
    | inr (err, bad) ↦ absurd (ground (arith, built, bad))
    | inl (headers, set) ↦ elim (Sum-cases (encode_body p req.body headers)) [
      | inr (err, bad) ↦ absurd (ground (arith, built, set, bad))
      | inl ((text, sent), good) ↦
          let (fixed, own, new, own_set, traced) = base_headers-parts c req w headers set in
          let mine = entries_of req.options.headers in
          (
            fixed,
            new,
            ground (
              arith,
              ap init_headers built,
              set,
              good,
              get-encode_body req.body headers header text sent good,
              get-set_headers header (p.trace w) own headers traced,
              get-set_headers header mine fixed own own_set,
              first_of_assoc (last_set header (p.trace w))
                  (first_of (last_set header mine) (OrderedMap.get header fixed))
                  (implied_type req.body header),
              first_of_assoc (last_set header mine) (OrderedMap.get header fixed)
                  (implied_type req.body header),
            ),
          )
    ]
  ]
