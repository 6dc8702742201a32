-- ===== src/HttpClient/Responses.antt =====
-- packages/httpclient/src/providers/fetch.ts: wrapResponse, and assertOk of httpclient.ts.
use Prim.Native.Char.{code}
use platform_ts.OrderedMap
use platform_ts.Decimal.{is_empty}
use platform_ts.Filtering.Numerals.{trim}
use platform_ts.Idempotency.Client.{to_lower}
use platform_ts.HttpClient.{
  RawResponse, Data, undefined_data, json_data, text_data, HttpResponse, Failure, thrown,
  http_error, Platform,
}
use platform_ts.HttpClient.Requests.{ends_with, content_type}
use platform_ts.Prelude.{
  String, ◌⊎◌, inl, inr, ite, Bool, true, false, Option, none, some, string_discrete, ◌==◌,
  if◌then◌else◌,
}

-- What stands before the first semicolon.
abbrev pub before_semicolon : String → String
before_semicolon String.[] = ""
before_semicolon (String.◌∷◌ c s) = if code c == 59 then "" else String.◌∷◌ c (before_semicolon s)

unfoldable pub is_json_content_type : Option String → Bool
is_json_content_type none = false
is_json_content_type (some value) =
    let media_type = to_lower (trim (before_semicolon value)) in
    ite (string_discrete media_type "application/json") true (ends_with "+json" media_type)

module _ (p : Platform) where
  unfoldable pub parse_text : String → Option p.Json ⊎ p.Err
  parse_text text =
      if is_empty text
      then inl none
      else elim (p.parse text) [ inl value ↦ inl (some value) | inr e ↦ inr e ]

  -- `json`: it parses the text once it can.
  unfoldable pub json : HttpResponse p.Json → HttpResponse p.Json × (Option p.Json ⊎ p.Err)
  json r = elim r.parsed [
    | some value ↦ (r, inl value)
    | none ↦ elim (parse_text r.body_text) [
      | inl value ↦ (record r { parsed = some value }, inl value)
      | inr e ↦ (r, inr e)
    ]
  ]

  abbrev pub response_of :
      RawResponse p.Err → String → Data p.Json → Option (Option p.Json) → HttpResponse p.Json
  response_of raw text value parsed = record {
    ok = raw.ok;
    status = raw.status;
    status_text = raw.status_text;
    headers = raw.headers;
    data_of = value;
    body_text = text;
    parsed = parsed;
  }

  -- `decodeData`, and what it leaves for `json`.
  unfoldable pub decode_data :
      RawResponse p.Err → String → (Data p.Json × Option (Option p.Json)) ⊎ p.Err
  decode_data raw text =
      if is_empty text
      then inl (undefined_data, none)
      else if is_json_content_type (OrderedMap.get content_type raw.headers)
      then elim (p.parse text) [
        | inl value ↦ inl (json_data value, some (some value))
        | inr e ↦ inr e
      ]
      else inl (text_data text, none)

  unfoldable pub wrap_response : RawResponse p.Err → HttpResponse p.Json ⊎ p.Err
  unfolding decode_data
  wrap_response raw = elim raw.body [
    | inr e ↦ inr e
    | inl text ↦ elim (decode_data raw text) [
      | inr e ↦ inr e
      | inl (value, parsed) ↦ inl (response_of raw text value parsed)
    ]
  ]

  unfoldable pub assert_ok : HttpResponse p.Json → HttpResponse p.Json ⊎ Failure p.Json p.Err
  assert_ok r = if r.ok then inl r else inr (http_error r)

  -- What `request` makes of a response.
  unfoldable pub conclude : Bool → RawResponse p.Err → HttpResponse p.Json ⊎ Failure p.Json p.Err
  unfolding wrap_response assert_ok
  conclude throw_on_error raw = elim (wrap_response raw) [
    | inr e ↦ inr (thrown e)
    | inl r ↦ if throw_on_error then assert_ok r else inl r
  ]
