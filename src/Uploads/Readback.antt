-- ===== src/Uploads/Readback.antt =====
-- What an uploader reads back.
use platform_ts.CircuitBreaking
use platform_ts.CircuitBreaking.{Breaker, can_proceed, succeeded, closed}
use platform_ts.OrderedMap.Laws.{get-put_self, get-put_ne}
use platform_ts.HttpClient.Requests.{append_text}
use platform_ts.Retry.Attempts.{Sum-cases}
use platform_ts.Uploads.{byte_body, SaveOptions, Action, Bucket}
use platform_ts.Uploads.Streams.{bytes_to_stream}
use platform_ts.Uploads.Buckets
use platform_ts.Uploads.Buckets.{StoredBlob, MemoryBucket, memory_bucket, prefixed_bucket}
use platform_ts.Uploads.Uploader.{
  UploadsConfig, Uploader, Kind, save_kind, read_kind, Times, admit, carry_out, track,
  enforce_max_size, write_limited, settle_done, save, open_path,
}
use platform_ts.Uploads.Breaking.{can_proceed_closed}
use platform_ts.Uploads.Stored.{append_text_cancels}
use platform_ts.Prelude.{
  ℕ, ◌≤◌, String, ◌≡◌, sym, ap, ◌∙◌, ◌≢◌, ◌⊎◌, inl, inr, ite, none, List, arith, string_discrete,
  length,
}

module _ (c : UploadsConfig) where
  succeeded_closed :
      (b : Breaker) → b.state ≡ closed → (succeeded c.circuit_breaker b).state ≡ closed
  unfolding succeeded CircuitBreaking.close
  succeeded_closed b shut = ground (arith, shut)

  write_allowed :
      (bucket : Bucket) (path : String) (bytes : List ℕ) (options : SaveOptions) (w : bucket.World)
      → (c.max_size_bytes ≡ 0) ⊎ (length bytes ≤ c.max_size_bytes)
      → write_limited c bucket path (byte_body bytes) options w
        ≡ bucket.write path (byte_body bytes) options w
  unfolding write_limited enforce_max_size
  write_allowed bucket path bytes options w (inl unlimited) = ground (arith, unlimited)
  write_allowed bucket path bytes options w (inr within) = ground (arith, within)

  module _ {World A : Type 0} (kind : Kind) (action : Action World A) (t : Times) where
    track-answer :
        (u : Uploader World)
        → u.breaker.state ≡ closed
        → (track c kind action t u).1 ≡ (action u.world).1
    unfolding track admit carry_out
    track-answer u shut =
        let admits = can_proceed_closed c t.now t.later u.breaker shut in
        elim (Sum-cases (action u.world).1) [
          | inl (a, fine) ↦ ground (arith, admits, fine)
          | inr (e, bad) ↦ ground (arith, admits, bad)
        ]

    track_done :
        (u : Uploader World) (w : World) (a : A)
        → u.breaker.state ≡ closed
        → action u.world ≡ (w, inl a)
        → track c kind action t u ≡ (settle_done c kind w u, inl a)
    unfolding track admit carry_out
    track_done u w a shut fine =
        ground (arith, can_proceed_closed c t.now t.later u.breaker shut, fine)

  opened_after :
      (prefix path other : String) (bytes : List ℕ) (options : SaveOptions) (b : MemoryBucket)
      → let bucket = prefixed_bucket memory_bucket prefix in
        let b' = (bucket.write path (byte_body bytes) options b).0 in
        (bucket.open_range other 0 none b').1
        ≡ ite
            (string_discrete path other)
            (inl (bytes_to_stream bytes))
            (bucket.open_range other 0 none b).1
  unfolding Buckets.write Buckets.open_range
  opened_after prefix path other bytes options b =
      let key = append_text prefix path in
      let blob : StoredBlob = record {
        content = bytes;
        content_type = options.content_type;
        cache_control = options.cache_control;
        mod_time = b.now;
      } in
      elim (string_discrete path other) [
        | yes same ↦
            let e = ap (append_text prefix) same in ground (arith, e, get-put_self key blob b.blobs)
        | no ne ↦
            let apart : key ≢ append_text prefix other =
              λ e. ne (append_text_cancels prefix path other e) in
            ground (arith, get-put_ne key (append_text prefix other) blob b.blobs apart)
      ]

  -- On a closed breaker, bytes within the limit that are saved under a path of a bucket with a prefix
  -- are what the path then opens to, and any other path opens to what it opened to before.
  pub open_path-save :
      (prefix path other : String) (bytes : List ℕ) (options : SaveOptions) (t t' : Times)
      (u : Uploader MemoryBucket)
      → u.breaker.state ≡ closed
      → (c.max_size_bytes ≡ 0) ⊎ (length bytes ≤ c.max_size_bytes)
      → let bucket = prefixed_bucket memory_bucket prefix in
        let (u', saved) = save c bucket path (byte_body bytes) options t u in
        (saved ≡ inl tt)
        × ((open_path c bucket other t' u').1
            ≡ ite
                (string_discrete path other)
                (inl (bytes_to_stream bytes))
                (open_path c bucket other t' u).1)
  unfolding Buckets.write settle_done
  open_path-save prefix path other bytes options t t' u shut within =
      let bucket = prefixed_bucket memory_bucket prefix in
      let u1 = settle_done c save_kind (bucket.write path (byte_body bytes) options u.world).0 u in
      let saved =
        track_done save_kind (write_limited c bucket path (byte_body bytes) options) t u
          (bucket.write path (byte_body bytes) options u.world).0 tt shut
          (write_allowed bucket path bytes options u.world within) in
      (
        ap (λ x. x.1) saved,
        ap (λ v. (open_path c bucket other t' v).1) (ap (λ x. x.0) saved)
            ∙ track-answer read_kind (bucket.open_range other 0 none) t' u1
                (succeeded_closed u.breaker shut)
            ∙ opened_after prefix path other bytes options u.world
            ∙ ap (λ r. ite (string_discrete path other) (inl (bytes_to_stream bytes)) r)
                (sym (track-answer read_kind (bucket.open_range other 0 none) t' u shut)),
      )
