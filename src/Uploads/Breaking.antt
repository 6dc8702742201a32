-- ===== src/Uploads/Breaking.antt =====
-- Operations that open the breaker, or leave it waiting.
use platform_ts.CircuitBreaking
use platform_ts.CircuitBreaking.{
  Breaker, Call, proceeds, succeeds, fails, fresh, can_proceed, succeeded, failed, opened, closed,
  half_open,
}
use platform_ts.Uploads.{circuit_broken, byte_body, SaveOptions, Action, Bucket}
use platform_ts.Uploads.Uploader
use platform_ts.Uploads.Uploader.{
  UploadsConfig, new_uploader, Kind, save_kind, read_kind, Times, settle_done, settle_error, admit,
  carry_out, walk, track, enforce_max_size, write_limited, save, leaves_at, Operation, save_object,
  open_object, delete_object, check_object, describe_object, sign_object, list_objects, step,
  Uploader,
}
use platform_ts.Prelude.{
  ℕ, suc, ◌+◌, ◌≤◌, ◌<◌, String, ◌≡◌, refl, sym, subst, inr, true, false, Option, none, List, [],
  ◌∷◌, arith, length,
}

module _ (c : UploadsConfig) where
  pub can_proceed_closed :
      (now later : ℕ) (b : Breaker)
      → b.state ≡ closed
      → can_proceed c.circuit_breaker now later b ≡ (b, true)
  unfolding can_proceed CircuitBreaking.advance CircuitBreaking.admit
  can_proceed_closed now later b shut = ground (arith, shut)

  module _ (bucket : Bucket) where
    -- Saves of bytes that are more than the limit, at some times.
    abbrev pub oversized :
        String → List ℕ → SaveOptions → List Times → List (Operation c bucket × Times)
    oversized path bytes options [] = []
    oversized path bytes options (t ∷ ts) =
        (save_object path (byte_body bytes) options, t) ∷ oversized path bytes options ts

    refused_save :
        (path : String) (bytes : List ℕ) (options : SaveOptions) (t : Times)
        (u : Uploader bucket.World)
        → 0 < c.max_size_bytes
        → c.max_size_bytes < length bytes
        → u.breaker.state ≡ closed
        → (save c bucket path (byte_body bytes) options t u).0
          ≡ settle_error c t.after save_kind u.world u
    unfolding track write_limited enforce_max_size admit carry_out
    refused_save path bytes options t u h k shut =
        ground (arith, h, k, can_proceed_closed t.now t.later u.breaker shut)

    failed_more :
        (now : ℕ) (b : Breaker)
        → b.state ≡ closed
        → let b' = failed c.circuit_breaker now b in
          let limit = c.circuit_breaker.failure_threshold in
          (suc b.failures < limit → (b'.state ≡ closed) × (b'.failures ≡ suc b.failures))
          × (limit ≤ suc b.failures → b'.state ≡ opened)
    unfolding failed CircuitBreaking.open_at
    failed_more now b shut = (λ h. ground (arith, h, shut), λ h. ground (arith, h, shut))

    -- On a closed breaker, as many saves of bytes over the limit as it has failures left open it: the
    -- bucket is not called, and what it holds stays.
    pub oversized_trips :
        (path : String) (bytes : List ℕ) (options : SaveOptions) (ts : List Times)
        (u : Uploader bucket.World)
        → 0 < c.max_size_bytes
        → c.max_size_bytes < length bytes
        → u.breaker.state ≡ closed
        → 0 < length ts
        → u.breaker.failures + length ts ≡ c.circuit_breaker.failure_threshold
        → let u' = Uploader.run c bucket (oversized path bytes options ts) u in
          (u'.breaker.state ≡ opened) × (u'.world ≡ u.world)
    unfolding Uploader.run step settle_error
    oversized_trips path bytes options [] u h k shut some_left e = absurd (omega arith)
    oversized_trips path bytes options (t ∷ []) u h k shut some_left e =
        rw (refused_save path bytes options t u h k shut)
          ((failed_more t.after u.breaker shut).1 (omega arith), refl)
    oversized_trips path bytes options (t ∷ t' ∷ ts) u h k shut some_left e =
        let more = (failed_more t.after u.breaker shut).0 (omega arith) in
        let u1 = settle_error c t.after save_kind u.world u in
        let ih =
          oversized_trips path bytes options (t' ∷ ts) u1 h k more.0 (omega arith)
            (omega (arith, more.1)) in
        subst
          (λ v.
            let end = Uploader.run c bucket (oversized path bytes options (t' ∷ ts)) v in
            (end.breaker.state ≡ opened) × (end.world ≡ u.world))
          (sym (refused_save path bytes options t u h k shut)) ih

    abbrev last_probe : Breaker → Breaker
    last_probe b = record b { half_open_attempts = suc b.half_open_attempts }

    can_proceed_last :
        (now later : ℕ) (b : Breaker)
        → b.state ≡ half_open
        → suc b.half_open_attempts ≡ c.circuit_breaker.half_open_max_attempts
        → can_proceed c.circuit_breaker now later b ≡ (last_probe b, true)
    unfolding can_proceed CircuitBreaking.advance CircuitBreaking.admit
    can_proceed_last now later b half one_left = ground (arith, half, one_left)

    can_proceed_full :
        (now later : ℕ) (b : Breaker)
        → b.state ≡ half_open
        → b.half_open_attempts ≡ c.circuit_breaker.half_open_max_attempts
        → now < b.half_open_at + c.circuit_breaker.open_duration_ms
        → can_proceed c.circuit_breaker now later b ≡ (CircuitBreaking.reject b, false)
    unfolding can_proceed CircuitBreaking.advance CircuitBreaking.admit
    can_proceed_full now later b half full early = ground (arith, half, full, early)

    track_refused :
        {A : Type 0} (kind : Kind) (action : Action bucket.World A) (t : Times)
        (u : Uploader bucket.World)
        → u.breaker.state ≡ half_open
        → u.breaker.half_open_attempts ≡ c.circuit_breaker.half_open_max_attempts
        → t.now < u.breaker.half_open_at + c.circuit_breaker.open_duration_ms
        → track c kind action t u
          ≡ (record u { breaker = CircuitBreaking.reject u.breaker }, inr circuit_broken)
    unfolding track admit
    track_refused kind action t u half full early =
        ground (arith, can_proceed_full t.now t.later u.breaker half full early)

    list_left :
        (prefix : String) (leaves : Option ℕ) (t : Times) (u : Uploader bucket.World)
        → u.breaker.state ≡ half_open
        → suc u.breaker.half_open_attempts ≡ c.circuit_breaker.half_open_max_attempts
        → let (w, infos, end) = bucket.list prefix u.world in
          leaves_at c bucket leaves infos ≡ true
          → Uploader.list c bucket prefix leaves t u ≡ (
            record u { breaker = last_probe u.breaker; world = w },
            Uploader.seen_by c bucket leaves infos,
            none,
          )
    unfolding Uploader.list admit walk
    list_left prefix leaves t u half one_left left =
        ground (arith, can_proceed_last t.now t.later u.breaker half one_left, left)

    -- If the breaker is half open with one attempt left and not stalled, a listing that its caller
    -- leaves early takes that attempt and reports nothing: a read or a write after it is refused,
    -- and the bucket not called, if it comes before the breaker counts as stalled.
    pub abandoned_listing_refuses :
        {A : Type 0} (prefix : String) (leaves : Option ℕ) (kind : Kind)
        (action : Action bucket.World A) (t t' : Times) (u : Uploader bucket.World)
        → u.breaker.state ≡ half_open
        → suc u.breaker.half_open_attempts ≡ c.circuit_breaker.half_open_max_attempts
        → t'.now < u.breaker.half_open_at + c.circuit_breaker.open_duration_ms
        → leaves_at c bucket leaves (bucket.list prefix u.world).1 ≡ true
        → let (u1, infos, end) = Uploader.list c bucket prefix leaves t u in
          let (u2, r) = track c kind action t' u1 in
          (end ≡ none)
          × (r ≡ inr circuit_broken)
          × (u2.world ≡ (bucket.list prefix u.world).0)
          × (u2.breaker.state ≡ half_open)
    abandoned_listing_refuses prefix leaves kind action t t' u half one_left early left =
        let listed = list_left prefix leaves t u half one_left left in
        let u1 = record u {
          breaker = last_probe u.breaker;
          world = (bucket.list prefix u.world).0;
        } in
        let refused = track_refused kind action t' u1 half one_left early in
        rw (listed, refused) (refl, refl, refl, half)
