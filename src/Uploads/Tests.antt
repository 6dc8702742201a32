-- ===== src/Uploads/Tests.antt =====
-- A bucket with a prefix, a breaker that three failures open, and the theorems at them.
use platform_ts.CircuitBreaking
use platform_ts.CircuitBreaking.{
  can_proceed, succeeded, failed, proceeds, succeeds, fails, Breaker, fresh, opened, half_open,
  closed,
}
use platform_ts.Uploads.{
  backend_error, circuit_broken, done, errored, chunk, byte_body, SaveOptions,
}
use platform_ts.Uploads.Streams.{
  bytes_to_stream, collect_stream, limit_stream, collect-limit_stream,
}
use platform_ts.OrderedMap
use platform_ts.Uploads.Buckets
use platform_ts.Uploads.Buckets.{MemoryBucket, memory_bucket, prefixed_bucket, strip_prefix}
use platform_ts.Uploads.Uploader
use platform_ts.Uploads.Uploader.{
  UploadsConfig, new_uploader, read_kind, Times, track, save, open_path, save_object, open_object,
  Busy, Event, begins, ends, run_events, react, admit, begin, end, rest_of, settle_done,
  settle_error, carry_out, write_limited, enforce_max_size,
}
use platform_ts.Uploads.Accounts.{calls_told, run_events-breaker}
use platform_ts.Uploads.Breaking.{oversized, oversized_trips, abandoned_listing_refuses}
use platform_ts.Uploads.Stored.{view, answer_of, prefixed_bucket-refines}
use platform_ts.Uploads.Readback.{open_path-save}
use platform_ts.Prelude.{
  ℕ, ◌≡◌, refl, inl, inr, ite, none, some, List, [], ◌∷◌, arith, string_discrete, leb,
  if◌then◌else◌,
}

abbrev config : UploadsConfig
config = record {
  circuit_breaker = record {
    failure_threshold = 3;
    open_duration_ms = 100;
    half_open_max_attempts = 1;
  };
  max_size_bytes = 4;
}

abbrev options : SaveOptions
options = record { content_type = none; cache_control = none }

abbrev at_time : ℕ → Times
at_time n = record { now = n; later = n; after = n }

abbrev empty : MemoryBucket
empty = record { blobs = []; now = 5 }

abbrev stored : MemoryBucket
stored = record {
  blobs =
      (
        "a/x",
        record { content = 1 ∷ 2 ∷ []; content_type = none; cache_control = none; mod_time = 0 },
      )
      ∷ [];
  now = 5;
}

abbrev probing : Uploader.Uploader MemoryBucket
probing = record (new_uploader stored) {
  breaker = record {
    state = half_open;
    failures = 3;
    opened_at = 0;
    half_open_at = 100;
    half_open_attempts = 0;
    transitions = [];
    gauge = 1;
    rejections = 0;
  };
}

-- A chunk over the limit lets nothing of itself through.
limit_one_chunk :
    limit_stream 4 (backend_error "big") (chunk (1 ∷ 2 ∷ 3 ∷ 4 ∷ 5 ∷ []) done)
    ≡ errored (backend_error "big")
unfolding limit_stream
limit_one_chunk = refl

collect-limit_stream_example :
    collect_stream (limit_stream 4 (backend_error "big") (chunk (1 ∷ 2 ∷ []) (chunk (3 ∷ []) done)))
    ≡ (if leb 3 4
        then collect_stream (chunk (1 ∷ 2 ∷ []) (chunk (3 ∷ []) done))
        else inr (backend_error "big"))
collect-limit_stream_example =
    collect-limit_stream 4 (backend_error "big") (chunk (1 ∷ 2 ∷ []) (chunk (3 ∷ []) done))

-- Two operations that overlap: the read starts before the save ends.
abbrev overlapping : List (Event config memory_bucket)
overlapping =
    begins 0 (save_object "x" (byte_body (1 ∷ [])) options) 1 1
    ∷ begins 1 (open_object "y" 0 none) 2 2
    ∷ ends 0 3
    ∷ ends 1 4
    ∷ []

abbrev idle : Busy config memory_bucket
idle = record { uploader = new_uploader empty; under_way = λ i. none }

told_in_order :
    calls_told config memory_bucket overlapping idle
    ≡ proceeds 1 1 ∷ proceeds 2 2 ∷ succeeds ∷ fails 4 ∷ []
unfolding fresh react admit can_proceed OrderedMap.get OrderedMap.put begin end rest_of settle_done
    settle_error carry_out write_limited enforce_max_size Buckets.write Buckets.open_range succeeded
    failed string_discrete
told_in_order = refl

run_events-breaker_example :
    (run_events config memory_bucket overlapping idle).uploader.breaker
    ≡ CircuitBreaking.run config.circuit_breaker
        (calls_told config memory_bucket overlapping idle)
        fresh
run_events-breaker_example = run_events-breaker config memory_bucket overlapping idle

oversized_trips_example :
    let u =
      Uploader.run config memory_bucket
        (oversized config memory_bucket "x"
          (1 ∷ 2 ∷ 3 ∷ 4 ∷ 5 ∷ [])
          options
          (at_time 1 ∷ at_time 2 ∷ at_time 3 ∷ []))
        (new_uploader empty) in
    (u.breaker.state ≡ opened) × (u.world ≡ empty)
unfolding fresh
oversized_trips_example =
    oversized_trips config memory_bucket "x" (1 ∷ 2 ∷ 3 ∷ 4 ∷ 5 ∷ []) options
      (at_time 1 ∷ at_time 2 ∷ at_time 3 ∷ []) (new_uploader empty) (omega arith) (omega arith) refl
      (omega arith) refl

abandoned_listing_refuses_example :
    let (u1, infos, end) = Uploader.list config memory_bucket "" (some 0) (at_time 110) probing in
    let (u2, r) = track config read_kind (memory_bucket.exists "a/x") (at_time 120) u1 in
    (end ≡ none) × (r ≡ inr circuit_broken) × (u2.world ≡ stored) × (u2.breaker.state ≡ half_open)
unfolding strip_prefix
abandoned_listing_refuses_example =
    abandoned_listing_refuses config memory_bucket "" (some 0) read_kind
      (memory_bucket.exists "a/x") (at_time 110) (at_time 120) probing refl refl (omega arith) refl

prefixed_bucket-refines_example :
    let outer = prefixed_bucket memory_bucket "a/" in
    let inner = view "a/" stored in
    (view "a/" (outer.write "y" (byte_body (7 ∷ [])) options stored).0
      ≡ (memory_bucket.write "y" (byte_body (7 ∷ [])) options inner).0)
    × ((outer.write "y" (byte_body (7 ∷ [])) options stored).1
        ≡ (memory_bucket.write "y" (byte_body (7 ∷ [])) options inner).1)
    × (view "a/" (outer.delete "y" stored).0 ≡ (memory_bucket.delete "y" inner).0)
    × (answer_of (outer.open_range "y" 0 none stored).1
        ≡ answer_of (memory_bucket.open_range "y" 0 none inner).1)
    × ((outer.exists "y" stored).1 ≡ (memory_bucket.exists "y" inner).1)
    × (answer_of (outer.attributes "y" stored).1 ≡ answer_of (memory_bucket.attributes "y" inner).1)
    × ((outer.list "y" stored).1 ≡ (memory_bucket.list "y" inner).1)
prefixed_bucket-refines_example =
    prefixed_bucket-refines "a/" "y" (byte_body (7 ∷ [])) options 0 none stored

open_path-save_example :
    let bucket = prefixed_bucket memory_bucket "a/" in
    let (u, saved) =
      save config bucket "y" (byte_body (7 ∷ [])) options (at_time 1) (new_uploader stored) in
    (saved ≡ inl tt)
    × ((open_path config bucket "x" (at_time 2) u).1
        ≡ ite
            (string_discrete "y" "x")
            (inl (bytes_to_stream (7 ∷ [])))
            (open_path config bucket "x" (at_time 2) (new_uploader stored)).1)
unfolding fresh
open_path-save_example =
    open_path-save config "a/" "y" "x" (7 ∷ []) options (at_time 1) (at_time 2)
      (new_uploader stored) refl (inr (omega arith))
