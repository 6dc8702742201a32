-- ===== src/HttpClient/Attempts.antt =====
-- How often a request goes out.
use platform_ts.Retry.{RetryConfig}
use platform_ts.Retry.Policy
use platform_ts.Retry.Policy.{returned, threw, running}
use platform_ts.Retry.Attempts
use platform_ts.HttpClient.{
  HttpMethod, get_method, post_method, put_method, patch_method, delete_method, HttpClientConfig,
  RequestOptions, HttpRequest, RequestInit, Signal, HttpResponse, Failure, Platform,
}
use platform_ts.Idempotency.Client.{or_given}
use platform_ts.HttpClient.Requests.{resolve_signal}
use platform_ts.HttpClient.Responses.{conclude}
use platform_ts.HttpClient.Fetch.{
  is_idempotent_method, once, retried, send, settled, finish, request, request-cases,
}
use platform_ts.Prelude.{
  ℕ, suc, ◌+◌, ◌≤◌, ◌<◌, String, ◌≡◌, refl, ap, subst, ◌≢◌, ◌⊎◌, inl, inr, Bool, true, false,
  Option, none, some, arith, if◌then◌else◌, Bool-cases, Option-cases,
}

-- How often a request may go out.
abbrev pub limit : Option RetryConfig → Option Bool → HttpMethod → ℕ
limit none override method = 1
limit (some policy) (some safe) method = if safe then policy.max_attempts else 1
limit (some policy) none get_method = policy.max_attempts
limit (some policy) none post_method = 1
limit (some policy) none put_method = policy.max_attempts
limit (some policy) none patch_method = 1
limit (some policy) none delete_method = policy.max_attempts

-- The policy may try at all, and there is fuel for it.
abbrev pub HasFuel : Option RetryConfig → ℕ → Type 0
HasFuel none fuel = Unit
HasFuel (some policy) fuel = (0 < policy.max_attempts) × (policy.max_attempts ≤ fuel)

limit-retried :
    (policy : RetryConfig) (override : Option Bool) (method : HttpMethod)
    → limit (some policy) override method
      ≡ (if or_given (is_idempotent_method method) override then policy.max_attempts else 1)
limit-retried policy (some true) method = refl
limit-retried policy (some false) method = refl
limit-retried policy none get_method = refl
limit-retried policy none post_method = refl
limit-retried policy none put_method = refl
limit-retried policy none patch_method = refl
limit-retried policy none delete_method = refl

pub Outcome-cases :
    {W T Err : Type 0} (end : W × Policy.Outcome T Err)
    → ((w : W) × (x : T) × (end ≡ (w, returned x)))
      ⊎ ((w : W) × (e : Err) × (end ≡ (w, threw e)))
      ⊎ ((w : W) × (end ≡ (w, running)))
Outcome-cases (w, returned x) = inl (w, x, refl)
Outcome-cases (w, threw e) = inr (inl (w, e, refl))
Outcome-cases (w, running) = inr (inr (w, refl))

module _ (p : Platform) where
  settled_ends : (r : HttpResponse p.Json ⊎ Failure p.Json p.Err) → settled p r ≢ running
  settled_ends (inl r) = λ e. cc
  settled_ends (inr f) = λ e. cc

  -- `fetch` counts its calls, and nothing else changes the count.
  pub record IsCounted (calls : p.World → ℕ) : Type 0 where
    pub counts :
        (url : String) (init : RequestInit) (signal : Option Signal) (w : p.World)
        → calls (p.fetch url init signal w).0 ≡ suc (calls w)
    pub now_keeps : (w : p.World) → calls (p.now w).0 ≡ calls w
    pub random_keeps : (w : p.World) → calls (p.random w).0 ≡ calls w
    pub sleep_keeps :
        (signal : Option ℕ) (ms : ℕ) (w : p.World) → calls (p.sleep signal ms w).0 ≡ calls w

  module _ {calls : p.World → ℕ} (v : IsCounted calls) (fuel : ℕ) (c : HttpClientConfig) where
    retried-IsCounted :
        (policy : RetryConfig) (options : RequestOptions) (url : String) (init : RequestInit)
        → Attempts.IsCounted (retried p c options url init) policy calls
    retried-IsCounted policy options url init = record {
      counts = λ w. v.counts url init (resolve_signal p c options w) w;
      now_keeps = v.now_keeps;
      random_keeps = v.random_keeps;
      sleep_keeps = v.sleep_keeps options.signal;
    }

    once-ends :
        (options : RequestOptions) (url : String) (init : RequestInit) (w : p.World)
        → let (w', end) = once p c options url init w in (end ≢ running) × (calls w' ≤ calls w + 1)
    once-ends options url init w =
        let signal = resolve_signal p c options w in
        elim (Attempts.Sum-cases (p.fetch url init signal w).1) [
          | inl (raw, fine) ↦ rw (fine, once) (λ e. cc, omega (arith, v.counts url init signal w))
          | inr (e, failed) ↦ rw (failed, once) (λ e. cc, omega (arith, v.counts url init signal w))
        ]

    retry-ends :
        (policy : RetryConfig) (options : RequestOptions) (url : String) (init : RequestInit)
        (w : p.World)
        → HasFuel (some policy) fuel
        → let (w', end) = Policy.run (retried p c options url init) policy fuel w in
          (end ≢ running) × (calls w' ≤ calls w + policy.max_attempts)
    retry-ends policy options url init w enough =
        Attempts.run_bounded (retried p c options url init) policy
          (retried-IsCounted policy options url init) fuel w enough.0 enough.1

    send-cases :
        (req : HttpRequest p.Json) (url : String) (init : RequestInit) (w : p.World)
        → ((send p fuel c req url init w ≡ once p c req.options url init w)
            × (limit c.retry req.options.idempotent req.method ≡ 1))
          ⊎ ((policy : RetryConfig) × (c.retry ≡ some policy)
              × (send p fuel c req url init w
                  ≡ Policy.run (retried p c req.options url init) policy fuel w)
              × (limit c.retry req.options.idempotent req.method ≡ policy.max_attempts))
    unfolding send
    send-cases req url init w = elim (Option-cases c.retry) [
      | inl unset ↦ inl (ground (arith, unset))
      | inr (policy, given) ↦
          let bound = limit-retried policy req.options.idempotent req.method in
          elim (Bool-cases (or_given (is_idempotent_method req.method) req.options.idempotent)) [
            | inl safe ↦
                inr (policy, given, ground (arith, given, safe), ground (arith, given, safe, bound))
            | inr unsafe ↦ inl (ground (arith, given, unsafe, bound))
          ]
    ]

    send-ends :
        (req : HttpRequest p.Json) (url : String) (init : RequestInit) (w : p.World)
        → HasFuel c.retry fuel
        → let (w', end) = send p fuel c req url init w in
          (end ≢ running) × (calls w' ≤ calls w + limit c.retry req.options.idempotent req.method)
    send-ends req url init w enough = elim (send-cases req url init w) [
      | inl (sent, bound) ↦ rw (sent, bound) (once-ends req.options url init w)
      | inr (policy, given, sent, bound) ↦
          rw (sent, bound)
            (retry-ends policy req.options url init w (subst (λ r. HasFuel r fuel) given enough))
    ]

    -- A request ends. It goes out no more often than its policy's number of attempts, and at most
    -- once if there is no policy, if it is marked as not idempotent, or if it is a POST or a PATCH
    -- that is not marked as idempotent.
    pub request_bounded :
        (req : HttpRequest p.Json) (w : p.World)
        → HasFuel c.retry fuel
        → let (w', _, end) = request p fuel c req w in
          (end ≢ running) × (calls w' ≤ calls w + limit c.retry req.options.idempotent req.method)
    unfolding finish
    request_bounded req w enough = elim (request-cases p fuel c req w) [
      | inl (e, unsent) ↦ rw unsent (λ e. cc, omega arith)
      | inr (url, init, sent) ↦
          let ends = send-ends req url init w enough in
          let within = limit c.retry req.options.idempotent req.method in
          elim (Outcome-cases (send p fuel c req url init w)) [
            | inl (w', raw, e) ↦
                rw (sent, e)
                  (
                    settled_ends (conclude p req.options.throw_on_error raw),
                    subst (λ x. calls x.0 ≤ calls w + within) e ends.1,
                  )
            | inr (inl (w', err, e)) ↦
                rw (sent, e) (λ f. cc, subst (λ x. calls x.0 ≤ calls w + within) e ends.1)
            | inr (inr (w', e)) ↦ absurd (ends.0 (ap (λ x. x.1) e))
          ]
    ]
