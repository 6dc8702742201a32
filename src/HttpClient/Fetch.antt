-- ===== src/HttpClient/Fetch.antt =====
-- packages/httpclient/src/providers/fetch.ts: FetchHttpClient. `fuel` is that of the retries.
use platform_ts.Retry.Policy
use platform_ts.Retry.Policy.{Runtime, Outcome, returned, threw, running}
use platform_ts.Retry.Attempts.{Sum-cases}
use platform_ts.HttpClient.{
  HttpMethod, get_method, post_method, put_method, patch_method, delete_method, HttpClientConfig,
  RequestOptions, Body, HttpRequest, RequestInit, RawResponse, HttpResponse, Failure, thrown, Tag,
  status_tag, error_tag, Platform,
}
use platform_ts.HttpClient.Requests.{resolve_url, build_init, resolve_signal}
use platform_ts.HttpClient.Responses.{conclude}
use platform_ts.Idempotency.Client.{or_given}
use platform_ts.Prelude.{
  ℕ, String, ◌≡◌, ◌⊎◌, inl, inr, Bool, true, false, Option, none, some, List, [], ◌∷◌, arith,
  if◌then◌else◌,
}

abbrev pub is_idempotent_method : HttpMethod → Bool
is_idempotent_method get_method = true
is_idempotent_method post_method = false
is_idempotent_method put_method = true
is_idempotent_method patch_method = false
is_idempotent_method delete_method = true

module _ (p : Platform) where
  abbrev pub cut_by : Option ℕ → p.World → Option p.Err
  cut_by none w = none
  cut_by (some n) w = p.aborted n w

  abbrev pub attempt :
      HttpClientConfig
      → RequestOptions
      → String
      → RequestInit
      → p.World
      → p.World × (RawResponse p.Err ⊎ p.Err)
  attempt c options url init w = p.fetch url init (resolve_signal p c options w) w

  -- The retry policy's view of the attempts of a request; it is given no test of an error, so every
  -- error is worth a retry.
  abbrev pub retried :
      HttpClientConfig → RequestOptions → String → RequestInit → Runtime (RawResponse p.Err) p.Err
  retried c options url init = record {
    World = p.World;
    operation = attempt c options url init;
    should_retry = λ err n. true;
    now = p.now;
    random = p.random;
    sleep = p.sleep options.signal;
    aborted = cut_by options.signal;
  }

  abbrev pub once :
      HttpClientConfig
      → RequestOptions
      → String
      → RequestInit
      → p.World
      → p.World × Outcome (RawResponse p.Err) p.Err
  once c options url init w =
      let (w', r) = attempt c options url init w in
      elim r [ inl raw ↦ (w', returned raw) | inr e ↦ (w', threw e) ]

  -- The attempts of a request whose URL and whose body are built.
  unfoldable pub send :
      ℕ
      → HttpClientConfig
      → HttpRequest p.Json
      → String
      → RequestInit
      → p.World
      → p.World × Outcome (RawResponse p.Err) p.Err
  send fuel c req url init w = elim c.retry [
    | none ↦ once c req.options url init w
    | some policy ↦
        if or_given (is_idempotent_method req.method) req.options.idempotent
        then Policy.run (retried c req.options url init) policy fuel w
        else once c req.options url init w
  ]

  abbrev pub Result : Type 0
  Result = Outcome (HttpResponse p.Json) (Failure p.Json p.Err)

  abbrev pub settled : HttpResponse p.Json ⊎ Failure p.Json p.Err → Result
  settled (inl r) = returned r
  settled (inr e) = threw e

  abbrev pub Answer : Type 0
  Answer = p.World × List (HttpMethod × Tag) × Result

  -- What is recorded and what is answered once the attempts are over.
  unfoldable pub finish : HttpRequest p.Json → p.World × Outcome (RawResponse p.Err) p.Err → Answer
  finish req (w, running) = (w, [], running)
  finish req (w, threw e) = (w, (req.method, error_tag) ∷ [], threw (thrown e))
  finish req (w, returned raw) = (
    w,
    (req.method, status_tag raw.status) ∷ [],
    settled (conclude p req.options.throw_on_error raw),
  )

  -- The world after, what the metrics record, and the result.
  unfoldable pub request : ℕ → HttpClientConfig → HttpRequest p.Json → p.World → Answer
  request fuel c req w = elim (resolve_url p c req.url req.options.query) [
    | inr e ↦ (w, [], threw (thrown e))
    | inl url ↦ elim (build_init p c req w) [
      | inr e ↦ (w, [], threw (thrown e))
      | inl init ↦ finish req (send fuel c req url init w)
    ]
  ]

  abbrev pub verb : HttpMethod → String → Option (Body p.Json) → RequestOptions → HttpRequest p.Json
  verb method url body options = record {
    method = method;
    url = url;
    body = body;
    options = options;
  }

  module _ (fuel : ℕ) (c : HttpClientConfig) (url : String) where
    abbrev pub get : RequestOptions → p.World → Answer
    get options = request fuel c (verb get_method url none options)

    abbrev pub delete : RequestOptions → p.World → Answer
    delete options = request fuel c (verb delete_method url none options)

    module _ (body : Option (Body p.Json)) where
      abbrev pub post : RequestOptions → p.World → Answer
      post options = request fuel c (verb post_method url body options)

      abbrev pub put : RequestOptions → p.World → Answer
      put options = request fuel c (verb put_method url body options)

      abbrev pub patch : RequestOptions → p.World → Answer
      patch options = request fuel c (verb patch_method url body options)

  -- A request whose URL or whose body cannot be built is not sent.
  pub request-cases :
      (fuel : ℕ) (c : HttpClientConfig) (req : HttpRequest p.Json) (w : p.World)
      → ((e : p.Err) × (request fuel c req w ≡ (w, [], threw (thrown e))))
        ⊎ ((url : String) × (init : RequestInit) × (request fuel c req w
              ≡ finish req (send fuel c req url init w)))
  unfolding request
  request-cases fuel c req w = elim (Sum-cases (resolve_url p c req.url req.options.query)) [
    | inr (e, bad) ↦ inl (e, ground (arith, bad))
    | inl (url, good) ↦ elim (Sum-cases (build_init p c req w)) [
      | inr (e, bad) ↦ inl (e, ground (arith, good, bad))
      | inl (init, built) ↦ inr (url, init, ground (arith, good, built))
    ]
  ]
