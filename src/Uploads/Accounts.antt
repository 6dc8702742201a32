-- ===== src/Uploads/Accounts.antt =====
-- What the breaker is told of the operations.
use platform_ts.CircuitBreaking
use platform_ts.CircuitBreaking.{Breaker, Call, proceeds, succeeds, fails}
use platform_ts.Retry.Attempts.{Sum-cases}
use platform_ts.Uploads.{Action, Bucket}
use platform_ts.Uploads.Uploader
use platform_ts.Uploads.Uploader.{
  UploadsConfig, Kind, save_kind, read_kind, admit, settle_done, settle_error, carry_out,
  write_limited, walk, leaves_at, Operation, save_object, open_object, delete_object, check_object,
  describe_object, sign_object, list_objects, rest_of, Busy, Event, begins, ends, react, run_events,
}
use platform_ts.Prelude.{
  ℕ, ◌+◌, String, ◌≡◌, refl, sym, ap, subst, ◌∙◌, inl, inr, Option, List, [], ◌∷◌, ◌++◌, arith, ltb,
  if◌then◌else◌, Bool-cases, Option-cases,
}

module _ {World : Type 0} where
  abbrev pub all_done : Uploader.Uploader World → ℕ
  all_done u = u.saves + u.reads

  abbrev pub all_errors : Uploader.Uploader World → ℕ
  all_errors u = u.save_errors + u.read_errors

module _ (c : UploadsConfig) where
  abbrev pub Calls : Type 0
  Calls = List (Call c.circuit_breaker)

  run-append :
      (es fs : Calls) (b : Breaker)
      → CircuitBreaking.run c.circuit_breaker (es ++ fs) b
        ≡ CircuitBreaking.run c.circuit_breaker fs (CircuitBreaking.run c.circuit_breaker es b)
  unfolding CircuitBreaking.run
  run-append [] fs b = refl
  run-append (e ∷ es) fs b = run-append es fs (CircuitBreaking.step c.circuit_breaker e b)

  -- What the end of an operation is to tell the breaker, as the counters show it.
  abbrev pub outcome_calls :
      {World : Type 0} → ℕ → Uploader.Uploader World → Uploader.Uploader World → Calls
  outcome_calls after u u' =
      if ltb (all_done u) (all_done u')
      then succeeds ∷ []
      else if ltb (all_errors u) (all_errors u')
      then fails after ∷ []
      else []

  -- The calls have led the breaker from the one uploader to the other.
  abbrev IsTold : {World : Type 0} → ℕ → Uploader.Uploader World → Uploader.Uploader World → Type 0
  IsTold after u u' =
      CircuitBreaking.run c.circuit_breaker (outcome_calls after u u') u.breaker ≡ u'.breaker

  module _ {World : Type 0} (u : Uploader.Uploader World) (w : World) (after : ℕ) where
    settle_done-IsTold : (kind : Kind) → IsTold after u (settle_done c kind w u)
    unfolding CircuitBreaking.run CircuitBreaking.step settle_done
    settle_done-IsTold save_kind = ground arith
    settle_done-IsTold read_kind = ground arith

    settle_error-IsTold : (kind : Kind) → IsTold after u (settle_error c after kind w u)
    unfolding CircuitBreaking.run CircuitBreaking.step settle_error
    settle_error-IsTold save_kind = ground arith
    settle_error-IsTold read_kind = ground arith

    left-IsTold : IsTold after u (record u { world = w })
    unfolding CircuitBreaking.run
    left-IsTold = ground arith

  same-IsTold : {World : Type 0} (after : ℕ) (u : Uploader.Uploader World) → IsTold after u u
  unfolding CircuitBreaking.run
  same-IsTold after u = ground arith

  carry_out-IsTold :
      {World A : Type 0} (kind : Kind) (action : Action World A) (after : ℕ)
      (u : Uploader.Uploader World)
      → IsTold after u (carry_out c kind action after u).0
  unfolding carry_out
  carry_out-IsTold kind action after u = elim (Sum-cases (action u.world).1) [
    | inl (a, fine) ↦
        let e : (carry_out c kind action after u).0 ≡ settle_done c kind (action u.world).0 u =
          ground (arith, fine) in
        subst (λ v. IsTold after u v) (sym e) (settle_done-IsTold u (action u.world).0 after kind)
    | inr (err, bad) ↦
        let e : (carry_out c kind action after u).0
            ≡ settle_error c after kind (action u.world).0 u =
          ground (arith, bad) in
        subst (λ v. IsTold after u v) (sym e) (settle_error-IsTold u (action u.world).0 after kind)
  ]

  module _ (bucket : Bucket) where
    walk-IsTold :
        (prefix : String) (leaves : Option ℕ) (after : ℕ) (u : Uploader.Uploader bucket.World)
        → IsTold after u (walk c bucket prefix leaves after u).0
    unfolding walk
    walk-IsTold prefix leaves after u =
        let read = bucket.list prefix u.world in
        elim (Bool-cases (leaves_at c bucket leaves read.1)) [
          | inl left ↦
              let e : (walk c bucket prefix leaves after u).0 ≡ record u { world = read.0 } =
                ground (arith, left) in
              subst (λ v. IsTold after u v) (sym e) (left-IsTold u read.0 after)
          | inr stayed ↦ elim (Option-cases read.2) [
            | inl ended ↦
                let e : (walk c bucket prefix leaves after u).0 ≡ settle_done c read_kind read.0 u =
                  ground (arith, stayed, ended) in
                subst (λ v. IsTold after u v) (sym e) (settle_done-IsTold u read.0 after read_kind)
            | inr (err, bad) ↦
                let e : (walk c bucket prefix leaves after u).0
                    ≡ settle_error c after read_kind read.0 u =
                  ground (arith, stayed, bad) in
                subst (λ v. IsTold after u v) (sym e) (settle_error-IsTold u read.0 after read_kind)
          ]
        ]

    rest_of-IsTold :
        (operation : Operation c bucket) (after : ℕ) (u : Uploader.Uploader bucket.World)
        → IsTold after u (rest_of c bucket operation after u)
    unfolding rest_of
    rest_of-IsTold (save_object path body options) after u =
        carry_out-IsTold save_kind (write_limited c bucket path body options) after u
    rest_of-IsTold (open_object path offset n) after u =
        carry_out-IsTold read_kind (bucket.open_range path offset n) after u
    rest_of-IsTold (delete_object path) after u =
        carry_out-IsTold save_kind (bucket.delete path) after u
    rest_of-IsTold (check_object path) after u =
        carry_out-IsTold read_kind (bucket.exists path) after u
    rest_of-IsTold (describe_object path) after u =
        carry_out-IsTold read_kind (bucket.attributes path) after u
    rest_of-IsTold (sign_object path) after u =
        carry_out-IsTold read_kind (bucket.signed_url path) after u
    rest_of-IsTold (list_objects prefix leaves) after u = walk-IsTold prefix leaves after u

    -- What the breaker is to be told by an event, and by events in their order.
    abbrev pub event_calls : Event c bucket → Busy c bucket → Calls
    event_calls (begins i operation now later) s = proceeds now later ∷ []
    event_calls (ends i after) s =
        outcome_calls after s.uploader (react c bucket (ends i after) s).uploader

    abbrev pub calls_told : List (Event c bucket) → Busy c bucket → Calls
    calls_told [] s = []
    calls_told (e ∷ es) s = event_calls e s ++ calls_told es (react c bucket e s)

    react-breaker :
        (e : Event c bucket) (s : Busy c bucket)
        → CircuitBreaking.run c.circuit_breaker (event_calls e s) s.uploader.breaker
          ≡ (react c bucket e s).uploader.breaker
    unfolding react CircuitBreaking.run CircuitBreaking.step admit
    react-breaker (begins i operation now later) s = refl
    react-breaker (ends i after) s = elim (Option-cases (s.under_way i)) [
      | inl nothing ↦
          let e : (react c bucket (ends i after) s).uploader ≡ s.uploader =
            ground (arith, nothing) in
          subst (λ v. IsTold after s.uploader v) (sym e) (same-IsTold after s.uploader)
      | inr (operation, there) ↦
          let e : (react c bucket (ends i after) s).uploader
              ≡ rest_of c bucket operation after s.uploader =
            ground (arith, there) in
          subst (λ v. IsTold after s.uploader v) (sym e) (rest_of-IsTold operation after s.uploader)
    ]

    -- However operations overlap, the breaker is led by these calls in their order: a question when an
    -- operation starts, and when it ends a success if and only if it was counted as done, a failure
    -- if and only if it was counted as an error, and nothing otherwise.
    pub run_events-breaker :
        (es : List (Event c bucket)) (s : Busy c bucket)
        → (run_events c bucket es s).uploader.breaker
          ≡ CircuitBreaking.run c.circuit_breaker (calls_told es s) s.uploader.breaker
    unfolding run_events CircuitBreaking.run
    run_events-breaker [] s = refl
    run_events-breaker (e ∷ es) s =
        run_events-breaker es (react c bucket e s)
        ∙ ap (CircuitBreaking.run c.circuit_breaker (calls_told es (react c bucket e s)))
            (sym (react-breaker e s))
        ∙ sym (run-append (event_calls e s) (calls_told es (react c bucket e s)) s.uploader.breaker)
