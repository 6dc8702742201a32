-- ===== src/Idempotency/Fingerprint/Tests.antt =====
-- Requests under a hash that keeps what it is given, and a stamped request.
use platform_ts.OrderedMap
use platform_ts.Idempotency.Fingerprint.{
  RequestFingerprintInput, framed, fingerprint_request, to_upper, text_or_empty, bytes_or_empty,
}
use platform_ts.Idempotency.Fingerprint.Requests.{fingerprint_request_commits}
use platform_ts.Idempotency.Client.{
  request_input, IdempotentFetch, idempotent_fetch, send, send-stamps, method_of, effective_headers,
  includes, is_some, to_lower,
}
use platform_ts.Decimal.{write_number, write_digits}
use platform_ts.Prelude.{
  ℕ, String, ◌≡◌, refl, ite, not, ◌&&◌, none, some, List, [], arith, string_discrete, if◌then◌else◌,
}

abbrev keep : List ℕ → List ℕ
keep bytes = bytes

abbrev path_of : String → String
path_of url = url

abbrev no_query : String → String
no_query url = ""

abbrev first : RequestFingerprintInput
first = record { method = "post"; url = "/a"; principal = some "bc"; body = none }

abbrev again : RequestFingerprintInput
again = record { method = "POST"; url = "/a"; principal = some "bc"; body = some [] }

same_fingerprint :
    fingerprint_request keep path_of no_query first
    ≡ fingerprint_request keep path_of no_query again
unfolding fingerprint_request
same_fingerprint = refl

fingerprint_request_commits_example :
    (to_upper first.method ≡ to_upper again.method)
    × (path_of first.url ≡ path_of again.url)
    × (no_query first.url ≡ no_query again.url)
    × (text_or_empty first.principal ≡ text_or_empty again.principal)
    × (bytes_or_empty first.body ≡ bytes_or_empty again.body)
unfolding framed write_number write_digits
fingerprint_request_commits_example =
    fingerprint_request_commits keep path_of no_query first again (omega arith) (omega arith)
      (λ e. e) same_fingerprint

abbrev stamp : IdempotentFetch
stamp = idempotent_fetch none none none "k-1"

send-stamps_example :
    let (input', init') = send stamp (request_input "post" []) none in
    let name = to_lower stamp.header_name in
    let had = effective_headers (request_input "post" []) none in
    (input' ≡ request_input "post" [])
    × (method_of input' init' ≡ method_of (request_input "post" []) none)
    × (OrderedMap.get "idempotency-key" (effective_headers input' init')
        ≡ ite
            (string_discrete name "idempotency-key")
            (if includes (method_of (request_input "post" []) none) stamp.methods
                && not (is_some (OrderedMap.get name had))
              then some stamp.key
              else OrderedMap.get name had)
            (OrderedMap.get "idempotency-key" had))
send-stamps_example = send-stamps stamp (request_input "post" []) none "idempotency-key"

stamped :
    OrderedMap.get "idempotency-key"
      (effective_headers (request_input "post" []) (send stamp (request_input "post" []) none).1)
    ≡ some "k-1"
unfolding send OrderedMap.get OrderedMap.put string_discrete
stamped = refl
