-- ===== src/HttpClient/Requests.antt =====
-- packages/httpclient/src/providers/fetch.ts: a request's URL, its headers, its body and its signal.
use platform_ts.OrderedMap
use platform_ts.OrderedMap.{Map}
use platform_ts.Decimal.{is_empty}
use platform_ts.Idempotency.Client.{to_lower, is_some, or_given}
use platform_ts.HttpClient.{
  HttpClientConfig, RequestOptions, Body, body_init, json_body, HttpRequest, Signal, caller_signal,
  timeout_signal, any_signal, RequestInit, Platform,
}
use platform_ts.Prelude.{
  ℕ, String, ◌⊎◌, inl, inr, ite, Bool, true, Option, none, some, List, [], ◌∷◌, string_discrete,
  ltb, if◌then◌else◌,
}

abbrev pub append_text : String → String → String
append_text String.[] t = t
append_text (String.◌∷◌ c s) t = String.◌∷◌ c (append_text s t)

abbrev pub ends_with : String → String → Bool
ends_with end String.[] = is_empty end
ends_with end (String.◌∷◌ c s) = ite (string_discrete (String.◌∷◌ c s) end) true (ends_with end s)

abbrev pub with_slash : String → String
with_slash base = if ends_with "/" base then base else append_text base "/"

abbrev pub entries_of : Option (List (String × String)) → List (String × String)
entries_of none = []
entries_of (some entries) = entries

abbrev pub content_type : String
content_type = "content-type"

abbrev pub with_content_type : Map String → Map String
with_content_type headers =
    if is_some (OrderedMap.get content_type headers)
    then headers
    else OrderedMap.put content_type "application/json" headers

module _ (p : Platform) where
  -- `new Headers(record)` appends: two names that differ in their case have their values joined.
  abbrev pub append_header : String → String → Map String → Map String
  append_header name value headers =
      let key = to_lower name in
      elim (OrderedMap.get key headers) [
        | none ↦ OrderedMap.put key value headers
        | some had ↦ OrderedMap.put key (append_text had (append_text ", " value)) headers
      ]

  unfoldable pub append_headers : List (String × String) → Map String → Map String ⊎ p.Err
  append_headers [] headers = inl headers
  append_headers ((name, value) ∷ rest) headers = elim (p.header name value) [
    | inr e ↦ inr e
    | inl normal ↦ append_headers rest (append_header name normal headers)
  ]

  abbrev pub new_headers : List (String × String) → Map String ⊎ p.Err
  new_headers entries = append_headers entries []

  -- A `headers.set` for each entry.
  unfoldable pub set_headers : List (String × String) → Map String → Map String ⊎ p.Err
  set_headers [] headers = inl headers
  set_headers ((name, value) ∷ rest) headers = elim (p.header name value) [
    | inr e ↦ inr e
    | inl normal ↦ set_headers rest (OrderedMap.put (to_lower name) normal headers)
  ]

  -- What follows if the headers before are set.
  abbrev pub then_headers :
      Map String ⊎ p.Err → (Map String → Map String ⊎ p.Err) → Map String ⊎ p.Err
  then_headers (inl headers) f = f headers
  then_headers (inr e) f = inr e

  abbrev pub set_params : List (String × String) → p.Url → p.Url
  set_params [] url = url
  set_params ((key, value) ∷ rest) url = set_params rest (p.set_param key value url)

  abbrev pub base_of : Option String → Option String
  base_of none = none
  base_of (some base) = some (with_slash base)

  unfoldable pub resolve_url :
      HttpClientConfig → String → Option (List (String × String)) → String ⊎ p.Err
  resolve_url c url query = elim (p.new_url url (base_of c.base_url)) [
    | inr e ↦ inr e
    | inl resolved ↦ inl (p.href (set_params (entries_of query) resolved))
  ]

  -- The body that is sent and the headers with it.
  unfoldable pub encode_body :
      Option (Body p.Json) → Map String → (Option String × Map String) ⊎ p.Err
  encode_body none headers = inl (none, headers)
  encode_body (some (body_init text)) headers = inl (some text, headers)
  encode_body (some (json_body value)) headers = elim (p.stringify value) [
    | inr e ↦ inr e
    | inl text ↦ inl (text, with_content_type headers)
  ]

  unfoldable pub base_headers : HttpClientConfig → HttpRequest p.Json → p.World → Map String ⊎ p.Err
  base_headers c req w =
      then_headers
        (then_headers (new_headers c.headers) (set_headers (entries_of req.options.headers)))
        (set_headers (p.trace w))

  unfoldable pub build_init : HttpClientConfig → HttpRequest p.Json → p.World → RequestInit ⊎ p.Err
  unfolding encode_body base_headers
  build_init c req w = elim (base_headers c req w) [
    | inr e ↦ inr e
    | inl headers ↦ elim (encode_body req.body headers) [
      | inr e ↦ inr e
      | inl (body, headers') ↦ inl (record { method = req.method; headers = headers'; body = body })
    ]
  ]

  abbrev pub caller_of : Option ℕ → Option Signal
  caller_of none = none
  caller_of (some n) = some (caller_signal n)

  -- The signal of an attempt that starts now.
  unfoldable pub resolve_signal : HttpClientConfig → RequestOptions → p.World → Option Signal
  resolve_signal c options w =
      let ms = or_given c.timeout_ms options.timeout_ms in
      let timeout = timeout_signal (p.clock w) ms in
      if ltb 0 ms
      then elim options.signal [
        | none ↦ some timeout
        | some n ↦ some (any_signal (caller_signal n) timeout)
      ]
      else caller_of options.signal
