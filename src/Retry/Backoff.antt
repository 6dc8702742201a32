-- ===== src/Retry/Backoff.antt =====
-- packages/retry/src/retry.ts: backoffDelay.
use native.Mathlib.Nat.{
  div-lt_iff_lt-mul, lt-mul-div-succ, mul-le-mul, le_of_mul-le-mul_right, mul-le-mul_right,
}
use platform_ts.Retry.{RetryConfig}
use platform_ts.Prelude.{ℕ, suc, ◌+◌, ◌-◌, ◌*◌, ◌/◌, ◌^◌, ◌≤◌, ◌<◌, min, ◌≡◌, subst, arith}

-- A random number is `random / 2 ^ 53`.
abbrev pub random_unit : ℕ
random_unit = 9007199254740992

abbrev pub capped_delay : RetryConfig → ℕ → ℕ
capped_delay cfg retry = min (cfg.base_delay_ms * 2 ^ retry) cfg.max_delay_ms

-- `Math.round` of a fraction: a half goes up.
abbrev pub round : ℕ → ℕ → ℕ
round n d = (2 * n + d) / (2 * d)

-- `capped - span + random * span` over the two units, for a span of `capped * jitter`.
unfoldable pub backoff_delay : RetryConfig → ℕ → ℕ → ℕ
backoff_delay cfg retry random =
    let capped = capped_delay cfg retry in
    let span = capped * cfg.jitter in
    round (capped * cfg.jitter_unit * random_unit - span * random_unit + random * span)
      (cfg.jitter_unit * random_unit)

round-le : (n c d : ℕ) → 0 < d → n ≤ c * d → round n d ≤ c
round-le n c d p h =
    let below : 2 * n + d < suc c * (2 * d) = grind (arith, h) in
    let less = (div-lt_iff_lt-mul {k = 2 * d} {x = 2 * n + d} {y = suc c} (omega arith)).1 below in
    omega (arith, less)

round-ge : (n d : ℕ) → 0 < d → 2 * n ≤ 2 * d * round n d + d
round-ge n d p =
    let above = lt-mul-div-succ (2 * n + d) {b = 2 * d} (omega arith) in grind (arith, above)

jittered_split :
    (c j t r k : ℕ) → c * (j + t) * k - c * j * k + r * (c * j) ≡ c * t * k + r * (c * j)
jittered_split c j t r k =
    let sum : c * (j + t) * k ≡ c * j * k + c * t * k = grind arith in omega (arith, sum)

-- What is rounded lies between the delay and the delay less the jitter.
jittered_bounds :
    (c j t r k : ℕ)
    → r ≤ k
    → let n = c * (j + t) * k - c * j * k + r * (c * j) in (n ≤ c * ((j + t) * k)) × (c * t * k ≤ n)
jittered_bounds c j t r k q =
    let less = mul-le-mul_right (c * j) q in
    let sum : c * ((j + t) * k) ≡ c * t * k + k * (c * j) = grind arith in
    (omega (arith, jittered_split c j t r k, less, sum), omega (arith, jittered_split c j t r k))

bounds_of_parts :
    (c j t r k : ℕ)
    → r ≤ k
    → 0 < k
    → 0 < j + t
    → let d = round (c * (j + t) * k - c * j * k + r * (c * j)) ((j + t) * k) in
      (d ≤ c) × (2 * (c * t) ≤ (2 * d + 1) * (j + t))
bounds_of_parts c j t r k q some_k some_unit =
    let n = c * (j + t) * k - c * j * k + r * (c * j) in
    let bounds = jittered_bounds c j t r k q in
    let positive : 0 < (j + t) * k =
      grind (arith, mul-le-mul {n₁ = 1} {m₁ = 1} {n₂ = j + t} {m₂ = k} some_unit some_k) in
    let above = round-ge n ((j + t) * k) positive in
    let scaled : 2 * (c * t) * k ≤ (2 * round n ((j + t) * k) + 1) * (j + t) * k =
      grind (arith, above, bounds.1) in
    (round-le n c ((j + t) * k) positive bounds.0, le_of_mul-le-mul_right scaled some_k)

-- A delay is at most the doubled base and the maximum, and at least that less the jitter, up to the
-- half that rounding may take.
pub backoff_delay_bounds :
    (cfg : RetryConfig) (retry random : ℕ)
    → cfg.jitter ≤ cfg.jitter_unit
    → 0 < cfg.jitter_unit
    → random < random_unit
    → let d = backoff_delay cfg retry random in
      let capped = min (cfg.base_delay_ms * 2 ^ retry) cfg.max_delay_ms in
      (d ≤ capped) × (2 * (capped * (cfg.jitter_unit - cfg.jitter)) ≤ (2 * d + 1) * cfg.jitter_unit)
unfolding backoff_delay
backoff_delay_bounds cfg retry random j u r =
    let t = cfg.jitter_unit - cfg.jitter in
    let unit : cfg.jitter + t ≡ cfg.jitter_unit = omega arith in
    let b =
      bounds_of_parts (capped_delay cfg retry) cfg.jitter t random random_unit (omega arith)
        (omega arith) (omega arith) in
    let c = capped_delay cfg retry in
    subst
      (λ x.
        let d =
          round (c * x * random_unit - c * cfg.jitter * random_unit + random * (c * cfg.jitter))
            (x * random_unit) in
        (d ≤ c) × (2 * (c * t) ≤ (2 * d + 1) * x))
      unit b

-- Without jitter the delay doubles from the base on until it is the maximum.
pub backoff_delay_exact :
    (cfg : RetryConfig) (retry random : ℕ)
    → cfg.jitter ≡ 0
    → 0 < cfg.jitter_unit
    → random < random_unit
    → backoff_delay cfg retry random ≡ min (cfg.base_delay_ms * 2 ^ retry) cfg.max_delay_ms
backoff_delay_exact cfg retry random j u r =
    let b = backoff_delay_bounds cfg retry random (omega arith) u r in
    let c = min (cfg.base_delay_ms * 2 ^ retry) cfg.max_delay_ms in
    let d = backoff_delay cfg retry random in
    let all : cfg.jitter_unit - cfg.jitter ≡ cfg.jitter_unit = omega arith in
    let low : 2 * (c * cfg.jitter_unit) ≤ (2 * d + 1) * cfg.jitter_unit =
      subst (λ t. 2 * (c * t) ≤ (2 * d + 1) * cfg.jitter_unit) all b.1 in
    let scaled : 2 * c * cfg.jitter_unit ≤ (2 * d + 1) * cfg.jitter_unit = grind (arith, low) in
    let least = le_of_mul-le-mul_right scaled u in omega (arith, b.0, least)
