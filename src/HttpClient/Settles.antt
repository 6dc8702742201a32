-- ===== src/HttpClient/Settles.antt =====
-- How a request answers.
use platform_ts.Retry.Policy.{returned, threw, running}
use platform_ts.Retry.Attempts.{Sum-cases}
use platform_ts.OrderedMap
use platform_ts.Decimal.{is_empty}
use platform_ts.HttpClient.Requests.{content_type}
use platform_ts.HttpClient.{
  Data, HttpMethod, HttpClientConfig, HttpRequest, RawResponse, HttpResponse, thrown, http_error,
  Tag, status_tag, Platform,
}
use platform_ts.HttpClient.Responses.{
  is_json_content_type, parse_text, json, response_of, decode_data, wrap_response, assert_ok,
  conclude,
}
use platform_ts.HttpClient.Fetch.{Result, settled, send, finish, request, request-cases}
use platform_ts.HttpClient.Attempts.{Outcome-cases}
use platform_ts.Prelude.{
  ℕ, ◌≤◌, String, ◌≡◌, refl, sym, ap, subst, ◌∙◌, ◌⊎◌, inl, inr, true, false, Option, none, some,
  List, [], ◌∷◌, arith, Bool-cases, length,
}

abbrev left_or : {A B : Type 0} → A → A ⊎ B → A
left_or d (inl a) = a
left_or d (inr b) = d

abbrev parsed_or : {A B C : Type 0} → B → (A × B) ⊎ C → B
parsed_or d (inl (a, b)) = b
parsed_or d (inr c) = d

module _ (p : Platform) where
  -- What the metrics and a result must be to a request.
  pub Settles : HttpRequest p.Json → List (HttpMethod × Tag) → Result p → Type 0
  Settles req records (returned r) =
      (records ≡ (req.method, status_tag r.status) ∷ [])
      × ((r.ok ≡ true) ⊎ (req.options.throw_on_error ≡ false))
  Settles req records (threw (http_error r)) =
      (records ≡ (req.method, status_tag r.status) ∷ [])
      × (r.ok ≡ false)
      × (req.options.throw_on_error ≡ true)
  Settles req records (threw (thrown e)) = length records ≤ 1
  Settles req records running = records ≡ []

  wrap_response-status :
      (raw : RawResponse p.Err) (r : HttpResponse p.Json)
      → wrap_response p raw ≡ inl r
      → (r.status ≡ raw.status) × (r.ok ≡ raw.ok)
  unfolding wrap_response
  wrap_response-status raw r e = elim (Sum-cases raw.body) [
    | inr (err, unread) ↦ absurd (ground (arith, e, unread))
    | inl (text, read) ↦ elim (Sum-cases (decode_data p raw text)) [
      | inr (err, bad) ↦ absurd (ground (arith, e, read, bad))
      | inl ((value, parsed), good) ↦ ground (arith, e, read, good)
    ]
  ]

  conclude-Settles :
      (req : HttpRequest p.Json) (raw : RawResponse p.Err)
      → Settles req
          ((req.method, status_tag raw.status) ∷ [])
          (settled p (conclude p req.options.throw_on_error raw))
  unfolding Settles conclude assert_ok
  conclude-Settles req raw =
      let b = req.options.throw_on_error in
      elim (Sum-cases (wrap_response p raw)) [
        | inr (e, bad) ↦
            let end : conclude p b raw ≡ inr (thrown e) = ground (arith, bad) in
            rw end (omega arith)
        | inl (r, good) ↦
            let same = wrap_response-status raw r good in
            let record_of : Path (List (HttpMethod × Tag))
                ((req.method, status_tag raw.status) ∷ [])
                ((req.method, status_tag r.status) ∷ []) =
              ap (λ n. (req.method, status_tag n) ∷ []) (sym same.0) in
            elim (Bool-cases b) [
              | inr lenient ↦
                  let end : conclude p b raw ≡ inl r = ground (arith, good, lenient) in
                  rw end (record_of, inr lenient)
              | inl strict ↦ elim (Bool-cases r.ok) [
                | inl fine ↦
                    let end : conclude p b raw ≡ inl r = ground (arith, good, strict, fine) in
                    rw end (record_of, inl fine)
                | inr failed ↦
                    let end : conclude p b raw ≡ inr (http_error r) =
                      ground (arith, good, strict, failed) in
                    rw end (record_of, failed, strict)
              ]
            ]
      ]

  -- A request records its method at most once. If it gives a response, then it has recorded that one's
  -- status, and the response is ok or errors are not to be thrown; if it throws an HttpError, then it
  -- has recorded its status, the response is not ok and errors are to be thrown.
  pub request-Settles :
      (fuel : ℕ) (c : HttpClientConfig) (req : HttpRequest p.Json) (w : p.World)
      → let (_, records, end) = request p fuel c req w in Settles req records end
  unfolding Settles finish
  request-Settles fuel c req w = elim (request-cases p fuel c req w) [
    | inl (e, unsent) ↦ rw unsent (omega arith)
    | inr (url, init, sent) ↦ elim (Outcome-cases (send p fuel c req url init w)) [
      | inl (w', raw, e) ↦ rw (sent, e) (conclude-Settles req raw)
      | inr (inl (w', err, e)) ↦ rw (sent, e) (omega arith)
      | inr (inr (w', e)) ↦ rw (sent, e) refl
    ]
  ]

  -- What is kept of the parsed text is what parsing it gives.
  IsMemo : HttpResponse p.Json → Type 0
  IsMemo r =
      (r.parsed ≡ none)
      ⊎ ((v : Option p.Json) × (r.parsed ≡ some v) × (parse_text p r.body_text ≡ inl v))

  json-IsMemo :
      (r : HttpResponse p.Json)
      → IsMemo r
      → let (r', v) = json p r in
        (v ≡ parse_text p r.body_text) × (r'.body_text ≡ r.body_text) × IsMemo r'
  unfolding json IsMemo
  json-IsMemo r (inr (v, known, parses)) = (
    ground (arith, known, parses),
    ground (arith, known),
    inr (v, ground (arith, known), ground (arith, known, parses)),
  )
  json-IsMemo r (inl unknown) = elim (Sum-cases (parse_text p r.body_text)) [
    | inl (v, good) ↦ (
      ground (arith, unknown, good),
      ground (arith, unknown, good),
      inr (v, ground (arith, unknown, good), ground (arith, unknown, good)),
    )
    | inr (e, bad) ↦ (
      ground (arith, unknown, bad),
      ground (arith, unknown, bad),
      inl (ground (arith, unknown, bad)),
    )
  ]

  decode_data-parsed :
      (raw : RawResponse p.Err) (text : String) (value : Data p.Json)
      (parsed : Option (Option p.Json))
      → decode_data p raw text ≡ inl (value, parsed)
      → (parsed ≡ none) ⊎ ((v : Option p.Json) × (parsed ≡ some v) × (parse_text p text ≡ inl v))
  unfolding decode_data parse_text
  decode_data-parsed raw text value parsed e = elim (Bool-cases (is_empty text)) [
    | inl empty ↦ inl (ground (arith, e, empty, ap (parsed_or parsed) e))
    | inr full ↦
        elim (Bool-cases (is_json_content_type (OrderedMap.get content_type raw.headers))) [
          | inr other ↦ inl (ground (arith, e, full, other, ap (parsed_or parsed) e))
          | inl is_json ↦ elim (Sum-cases (p.parse text)) [
            | inr (err, bad) ↦ absurd (ground (arith, e, full, is_json, bad))
            | inl (v, good) ↦ inr (
              some v,
              ground (arith, e, full, is_json, good, ap (parsed_or parsed) e),
              ground (arith, full, good),
            )
          ]
        ]
  ]

  wrap_response-IsMemo :
      (raw : RawResponse p.Err) (text : String) (r : HttpResponse p.Json)
      → raw.body ≡ inl text
      → wrap_response p raw ≡ inl r
      → (r.body_text ≡ text) × IsMemo r
  unfolding wrap_response IsMemo
  wrap_response-IsMemo raw text r read e = elim (Sum-cases (decode_data p raw text)) [
    | inr (err, bad) ↦ absurd (ground (arith, e, read, bad))
    | inl ((value, parsed), good) ↦
        let wrapped : wrap_response p raw ≡ inl (response_of p raw text value parsed) =
          ground (arith, read, good) in
        let same = ap (left_or r) (sym wrapped ∙ e) in
        subst (λ r. (r.body_text ≡ text) × IsMemo r) same
          (refl, decode_data-parsed raw text value parsed good)
  ]

  -- `json` of a response gives what parsing its text gives, or nothing for an empty one, and so does
  -- the next `json`, whether or not the text was parsed before.
  pub json-wrap_response :
      (raw : RawResponse p.Err) (text : String) (r : HttpResponse p.Json)
      → raw.body ≡ inl text
      → wrap_response p raw ≡ inl r
      → let (r', first) = json p r in
        let (_, second) = json p r' in (first ≡ parse_text p text) × (second ≡ parse_text p text)
  json-wrap_response raw text r read e =
      let (same, memo) = wrap_response-IsMemo raw text r read e in
      let (first, kept, memo') = json-IsMemo r memo in
      let (second, _, _) = json-IsMemo (json p r).0 memo' in
      (first ∙ ap (parse_text p) same, second ∙ ap (parse_text p) (kept ∙ same))
