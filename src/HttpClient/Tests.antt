-- ===== src/HttpClient/Tests.antt =====
-- A server that is down for a while, and the theorems at it.
use platform_ts.OrderedMap
use platform_ts.Retry.{RetryConfig}
use platform_ts.Retry.Policy.{threw, running, run}
use platform_ts.Retry.Backoff.{backoff_delay}
use platform_ts.HttpClient.{
  get_method, post_method, HttpClientConfig, RequestOptions, json_body, HttpRequest, Signal,
  caller_signal, timeout_signal, any_signal, RequestInit, RawResponse, json_data, thrown,
  status_tag, Platform,
}
use platform_ts.HttpClient.Requests.{
  set_headers, append_headers, base_headers, resolve_url, encode_body, resolve_signal, build_init,
  new_headers, entries_of,
}
use platform_ts.HttpClient.Responses.{
  is_json_content_type, decode_data, conclude, parse_text, json, response_of, wrap_response,
}
use platform_ts.HttpClient.Fetch.{request, send, finish, get}
use platform_ts.HttpClient.Headers.{build_init-headers, first_of, last_set, implied_type}
use platform_ts.HttpClient.Attempts.{IsCounted, limit, request_bounded}
use platform_ts.HttpClient.Settles.{request-Settles, json-wrap_response, Settles}
use platform_ts.Prelude.{
  ℕ, ◌+◌, ◌≤◌, String, ◌≡◌, refl, ◌∙◌, ◌≢◌, inl, inr, ite, true, false, Option, none, some, List,
  [], ◌∷◌, ◌++◌, arith, string_discrete, ltb, if◌then◌else◌, length, length-append,
}

-- The time and the signals of the calls so far.
abbrev World : Type 0
World = ℕ × List (Option Signal)

abbrev answer : RawResponse String
answer = record {
  ok = false;
  status = 500;
  status_text = "no";
  headers = ("content-type", "application/json; charset=utf-8") ∷ [];
  body = inl "{";
}

-- A text is its own JSON, but for an open bracket.
abbrev platform : Platform
platform = record {
  Url = String;
  Json = String;
  Err = String;
  World = World;
  new_url = λ url base. inl url;
  set_param = λ key value url. url;
  href = λ url. url;
  stringify = λ text. inl (some text);
  parse = λ text. ite (string_discrete text "{") (inr "SyntaxError") (inl text);
  header = λ name value. ite (string_discrete name "") (inr "TypeError") (inl value);
  trace = λ w. ("Traceparent", "00") ∷ [];
  fetch = λ url init signal w.
      ((w.0, w.1 ++ (signal ∷ [])), if ltb w.0 150 then inr "down" else inl answer);
  clock = λ w. w.0;
  now = λ w. (w, w.0);
  random = λ w. (w, 0);
  sleep = λ signal ms w. ((w.0 + ms, w.1), none);
  aborted = λ n w. none;
}

abbrev policy : RetryConfig
policy = record {
  max_attempts = 3;
  base_delay_ms = 100;
  max_delay_ms = 30000;
  jitter = 0;
  jitter_unit = 1;
  max_elapsed_ms = 0;
}

abbrev config : HttpClientConfig
config = record {
  base_url = none;
  headers = ("X-Team", "a") ∷ ("Accept", "text/plain") ∷ [];
  timeout_ms = 50;
  retry = some policy;
}

abbrev options : RequestOptions
options = record {
  headers = some (("x-team", "b") ∷ []);
  query = none;
  timeout_ms = none;
  signal = some 7;
  throw_on_error = true;
  idempotent = none;
}

abbrev calls : World → ℕ
calls w = length w.1

calls-IsCounted : IsCounted platform calls
calls-IsCounted = record {
  counts = λ url init signal w. length-append w.1 (signal ∷ []) ∙ omega arith;
  now_keeps = λ w. refl;
  random_keeps = λ w. refl;
  sleep_keeps = λ signal ms w. refl;
}

-- Each attempt has a timeout of its own, from its own start.
get_retries : get platform 3 config "u" options (0, []) ≡ (
  (
    300,
    some (any_signal (caller_signal 7) (timeout_signal 0 50))
        ∷ some (any_signal (caller_signal 7) (timeout_signal 100 50))
        ∷ some (any_signal (caller_signal 7) (timeout_signal 300 50))
        ∷ [],
  ),
  (get_method, status_tag 500) ∷ [],
  threw (thrown "SyntaxError"),
)
unfolding OrderedMap.get OrderedMap.put set_headers append_headers base_headers resolve_url
    encode_body build_init resolve_signal decode_data is_json_content_type wrap_response conclude
    run backoff_delay send finish request string_discrete
get_retries = refl

abbrev post_request : HttpRequest String
post_request = record {
  method = post_method;
  url = "u";
  body = some (json_body "b");
  options = options;
}

request_bounded_example :
    let (w', _, end) = request platform 3 config post_request (0, []) in
    (end ≢ running) × (calls w' ≤ 0 + limit (some policy) none post_method)
request_bounded_example =
    request_bounded platform calls-IsCounted 3 config post_request (0, [])
      (omega arith, omega arith)

request-Settles_example :
    let (_, records, end) = request platform 3 config post_request (200, []) in
    Settles platform post_request records end
request-Settles_example = request-Settles platform 3 config post_request (200, [])

abbrev fetched : RawResponse String
fetched = record answer { body = inl "[]" }

json-wrap_response_example :
    let (r', first) =
      json platform (response_of platform fetched "[]" (json_data "[]") (some (some "[]"))) in
    let (_, second) = json platform r' in
    (first ≡ parse_text platform "[]") × (second ≡ parse_text platform "[]")
unfolding OrderedMap.get decode_data is_json_content_type wrap_response string_discrete
json-wrap_response_example =
    json-wrap_response platform fetched "[]"
      (response_of platform fetched "[]" (json_data "[]") (some (some "[]"))) refl refl

abbrev init : RequestInit
init = record {
  method = post_method;
  headers =
      ("x-team", "b")
      ∷ ("accept", "text/plain")
      ∷ ("traceparent", "00")
      ∷ ("content-type", "application/json")
      ∷ [];
  body = some "b";
}

build_init-headers_example :
    (fixed : OrderedMap.Map String) × (new_headers platform config.headers ≡ inl fixed)
    × (OrderedMap.get "x-team" init.headers
        ≡ first_of (last_set platform "x-team" (("Traceparent", "00") ∷ [])) (
            first_of
              (last_set platform "x-team" (entries_of options.headers))
              (first_of (OrderedMap.get "x-team" fixed) (implied_type post_request.body "x-team"))))
unfolding OrderedMap.get OrderedMap.put set_headers append_headers base_headers encode_body
    build_init string_discrete
build_init-headers_example =
    build_init-headers platform config post_request (0, []) init "x-team" refl
