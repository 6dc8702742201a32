-- ===== src/Uploads/Streams.antt =====
-- packages/uploads/src/stream.ts: streams as what a reader gets from them, chunk by chunk.
use platform_ts.Uploads.{
  UploadError, Source, done, errored, chunk, BlobBody, byte_body, stream_body,
}
use platform_ts.Prelude.{
  ℕ, ◌+◌, ◌≤◌, ◌≡◌, ◌∙◌, ◌⊎◌, inl, inr, List, [], ◌++◌, arith, dec_lt, ltb, leb, if◌then◌else◌,
  length,
}

abbrev pub bytes_to_stream : List ℕ → Source
bytes_to_stream bytes = chunk bytes done

-- The loop of `collectStream`, with the bytes so far.
unfoldable pub collect_from : List ℕ → Source → List ℕ ⊎ UploadError
collect_from out done = inl out
collect_from out (errored e) = inr e
collect_from out (chunk bytes rest) = collect_from (out ++ bytes) rest

unfoldable pub collect_stream : Source → List ℕ ⊎ UploadError
unfolding collect_from
collect_stream s = collect_from [] s

abbrev pub to_bytes : BlobBody → List ℕ ⊎ UploadError
to_bytes (byte_body bytes) = inl bytes
to_bytes (stream_body s) = collect_stream s

-- The stream of `limitStream` once it has let `total` bytes through.
unfoldable pub limit_from : ℕ → UploadError → ℕ → Source → Source
limit_from max_bytes exceeded total done = done
limit_from max_bytes exceeded total (errored e) = errored e
limit_from max_bytes exceeded total (chunk bytes rest) =
    let total' = total + length bytes in
    let limited = limit_from max_bytes exceeded total' rest in
    if ltb max_bytes total' then errored exceeded else chunk bytes limited

unfoldable pub limit_stream : ℕ → UploadError → Source → Source
unfolding limit_from
limit_stream max_bytes exceeded s = limit_from max_bytes exceeded 0 s

-- How many bytes a stream holds up to its end or its error.
abbrev pub size_of : Source → ℕ
size_of done = 0
size_of (errored e) = 0
size_of (chunk bytes rest) = length bytes + size_of rest

collect-limit_from :
    (max_bytes : ℕ) (exceeded : UploadError) (total : ℕ) (out : List ℕ) (s : Source)
    → total ≤ max_bytes
    → collect_from out (limit_from max_bytes exceeded total s)
      ≡ (if leb (total + size_of s) max_bytes then collect_from out s else inr exceeded)
unfolding collect_from limit_from
collect-limit_from m x total out done h = ground arith
collect-limit_from m x total out (errored e) h = ground arith
collect-limit_from m x total out (chunk bytes rest) h =
    let total' = total + length bytes in
    elim (dec_lt m total') [
      | yes over ↦ ground (arith, over)
      | no under ↦
          ground (arith, under, collect-limit_from m x total' (out ++ bytes) rest (omega arith))
    ]

-- A stream under a limit reads as the stream itself if that holds no more bytes than the limit, and
-- else as the error of the limit, whether the stream would have ended well or not.
pub collect-limit_stream :
    (max_bytes : ℕ) (exceeded : UploadError) (s : Source)
    → collect_stream (limit_stream max_bytes exceeded s)
      ≡ (if leb (size_of s) max_bytes then collect_stream s else inr exceeded)
unfolding collect_stream limit_stream
collect-limit_stream m x s = collect-limit_from m x 0 [] s (omega arith) ∙ ground arith
