-- ===== src/Uploads/Uploader.antt =====
-- packages/uploads/src/uploader.ts: Uploader over a bucket and the breaker of CircuitBreaking. Of the
-- metrics the counters are kept.
use platform_ts.CircuitBreaking
use platform_ts.CircuitBreaking.{Breaker, fresh, can_proceed, succeeded, failed}
use platform_ts.Uploads.{
  UploadError, circuit_broken, file_too_large, Source, BlobBody, byte_body, stream_body,
  SaveOptions, Attributes, ObjectInfo, Action, Bucket,
}
use platform_ts.Uploads.Streams.{limit_stream}
use platform_ts.Prelude.{
  ℕ, suc, String, ◌⊎◌, inl, inr, Bool, false, Option, none, some, List, [], ◌∷◌, ltb, ◌==◌,
  if◌then◌else◌, length, take,
}

pub record UploadsConfig : Type 0 where
  pub circuit_breaker : CircuitBreaking.Config
  pub max_size_bytes : ℕ

pub record Uploader (World : Type 0) : Type 0 where
  pub world : World
  pub breaker : Breaker
  pub saves : ℕ
  pub reads : ℕ
  pub save_errors : ℕ
  pub read_errors : ℕ

abbrev pub new_uploader : {World : Type 0} → World → Uploader World
new_uploader w = record {
  world = w;
  breaker = fresh;
  saves = 0;
  reads = 0;
  save_errors = 0;
  read_errors = 0;
}

pub data Kind : Type 0 where
  save_kind read_kind : Kind

-- The clock's readings: the two of `canProceed` and the one of `failed`.
pub record Times : Type 0 where
  pub now : ℕ
  pub later : ℕ
  pub after : ℕ

module _ (c : UploadsConfig) where
  -- No limit is a limit of zero.
  unfoldable pub enforce_max_size : BlobBody → BlobBody ⊎ UploadError
  enforce_max_size (byte_body bytes) =
      if c.max_size_bytes == 0
      then inl (byte_body bytes)
      else if ltb c.max_size_bytes (length bytes)
      then inr (file_too_large c.max_size_bytes (some (length bytes)))
      else inl (byte_body bytes)
  enforce_max_size (stream_body s) =
      if c.max_size_bytes == 0
      then inl (stream_body s)
      else inl
          (stream_body (limit_stream c.max_size_bytes (file_too_large c.max_size_bytes none) s))

module _ {World : Type 0} where
  abbrev pub count_done : Kind → Uploader World → Uploader World
  count_done save_kind u = record u { saves = suc u.saves }
  count_done read_kind u = record u { reads = suc u.reads }

  abbrev pub count_error : Kind → Uploader World → Uploader World
  count_error save_kind u = record u { save_errors = suc u.save_errors }
  count_error read_kind u = record u { read_errors = suc u.read_errors }

module _ {World : Type 0} (c : UploadsConfig) where
  -- What an operation asks of the breaker before it starts.
  unfoldable pub admit : ℕ → ℕ → Uploader World → Uploader World × Bool
  admit now later u =
      let (b, ok) = can_proceed c.circuit_breaker now later u.breaker in
      (record u { breaker = b }, ok)

  -- What it counts and reports once it is over, to the breaker as that is then.
  unfoldable pub settle_done : Kind → World → Uploader World → Uploader World
  settle_done kind w u =
      count_done kind (record u { world = w; breaker = succeeded c.circuit_breaker u.breaker })

  unfoldable pub settle_error : ℕ → Kind → World → Uploader World → Uploader World
  settle_error after kind w u =
      count_error kind (record u { world = w; breaker = failed c.circuit_breaker after u.breaker })

  -- An operation that the breaker let through.
  unfoldable pub carry_out : {A : Type 0} → Kind → Action World A → ℕ → Action (Uploader World) A
  carry_out kind action after u =
      let (w, r) = action u.world in
      elim r [
        | inl a ↦ (settle_done kind w u, inl a)
        | inr e ↦ (settle_error after kind w u, inr e)
      ]

  -- An operation that no other one overlaps.
  unfoldable pub track : {A : Type 0} → Kind → Action World A → Times → Action (Uploader World) A
  unfolding admit carry_out
  track kind action t u =
      let (u', ok) = admit t.now t.later u in
      let rest = carry_out kind action t.after u' in if ok then rest else (u', inr circuit_broken)

module _ (c : UploadsConfig) (bucket : Bucket) where
  unfoldable pub write_limited : String → BlobBody → SaveOptions → Action bucket.World Unit
  unfolding enforce_max_size
  write_limited path body options w = elim (enforce_max_size c body) [
    | inr e ↦ (w, inr e)
    | inl body' ↦ bucket.write path body' options w
  ]

  abbrev pub save : String → BlobBody → SaveOptions → Times → Action (Uploader bucket.World) Unit
  save path body options = track c save_kind (write_limited path body options)

  abbrev pub open_range : String → ℕ → Option ℕ → Times → Action (Uploader bucket.World) Source
  open_range path offset n = track c read_kind (bucket.open_range path offset n)

  abbrev pub open_path : String → Times → Action (Uploader bucket.World) Source
  open_path path = open_range path 0 none

  abbrev pub delete : String → Times → Action (Uploader bucket.World) Unit
  delete path = track c save_kind (bucket.delete path)

  abbrev pub exists : String → Times → Action (Uploader bucket.World) Bool
  exists path = track c read_kind (bucket.exists path)

  abbrev pub attributes : String → Times → Action (Uploader bucket.World) Attributes
  attributes path = track c read_kind (bucket.attributes path)

  abbrev pub signed_url : String → Times → Action (Uploader bucket.World) String
  signed_url path = track c read_kind (bucket.signed_url path)

  -- The caller leaves its loop at an object of its choice, counted from zero, or does not.
  abbrev pub leaves_at : Option ℕ → List ObjectInfo → Bool
  leaves_at none infos = false
  leaves_at (some n) infos = ltb n (length infos)

  abbrev pub seen_by : Option ℕ → List ObjectInfo → List ObjectInfo
  seen_by none infos = infos
  seen_by (some n) infos = take (suc n) infos

  -- A listing that the breaker let through: what the caller's loop sees, and the error that it ends
  -- with, if any.
  unfoldable pub walk :
      String
      → Option ℕ
      → ℕ
      → Uploader bucket.World
      → Uploader bucket.World × List ObjectInfo × Option UploadError
  walk prefix leaves after u =
      let (w, infos, end) = bucket.list prefix u.world in
      if leaves_at leaves infos
      then (record u { world = w }, seen_by leaves infos, none)
      else elim end [
        | none ↦ (settle_done c read_kind w u, infos, none)
        | some e ↦ (settle_error c after read_kind w u, infos, some e)
      ]

  unfoldable pub list :
      String
      → Option ℕ
      → Times
      → Uploader bucket.World
      → Uploader bucket.World × List ObjectInfo × Option UploadError
  unfolding walk
  list prefix leaves t u =
      let (u', ok) = admit c t.now t.later u in
      let rest = walk prefix leaves t.after u' in if ok then rest else (u', [], some circuit_broken)

  pub data Operation : Type 0 where
    save_object : String → BlobBody → SaveOptions → Operation
    open_object : String → ℕ → Option ℕ → Operation
    delete_object : String → Operation
    check_object : String → Operation
    describe_object : String → Operation
    sign_object : String → Operation
    list_objects : String → Option ℕ → Operation

  unfoldable pub step : Operation → Times → Uploader bucket.World → Uploader bucket.World
  step (save_object path body options) t u = (save path body options t u).0
  step (open_object path offset n) t u = (open_range path offset n t u).0
  step (delete_object path) t u = (delete path t u).0
  step (check_object path) t u = (exists path t u).0
  step (describe_object path) t u = (attributes path t u).0
  step (sign_object path) t u = (signed_url path t u).0
  step (list_objects prefix leaves) t u = (list prefix leaves t u).0

  unfoldable pub run : List (Operation × Times) → Uploader bucket.World → Uploader bucket.World
  unfolding step
  run [] u = u
  run ((operation, t) ∷ rest) u = run rest (step operation t u)

  -- What an operation that was let through leaves.
  unfoldable pub rest_of : Operation → ℕ → Uploader bucket.World → Uploader bucket.World
  unfolding carry_out walk
  rest_of (save_object path body options) after u =
      (carry_out c save_kind (write_limited path body options) after u).0
  rest_of (open_object path offset n) after u =
      (carry_out c read_kind (bucket.open_range path offset n) after u).0
  rest_of (delete_object path) after u = (carry_out c save_kind (bucket.delete path) after u).0
  rest_of (check_object path) after u = (carry_out c read_kind (bucket.exists path) after u).0
  rest_of (describe_object path) after u =
      (carry_out c read_kind (bucket.attributes path) after u).0
  rest_of (sign_object path) after u = (carry_out c read_kind (bucket.signed_url path) after u).0
  rest_of (list_objects prefix leaves) after u = (walk prefix leaves after u).0

  -- An uploader with the operations that are under way, each by a number of its own.
  pub record Busy : Type 0 where
    pub uploader : Uploader bucket.World
    pub under_way : ℕ → Option Operation

  -- Operations that overlap: one starts, with the readings of `canProceed`, or the bucket does what
  -- it is to do and it ends, with the reading of `failed`.
  pub data Event : Type 0 where
    begins : ℕ → Operation → ℕ → ℕ → Event
    ends : ℕ → ℕ → Event

  abbrev pub put_under_way : ℕ → Option Operation → (ℕ → Option Operation) → ℕ → Option Operation
  put_under_way i operation under_way j = if i == j then operation else under_way j

  unfoldable pub begin : ℕ → Operation → ℕ → ℕ → Busy → Busy
  begin i operation now later s =
      let (u, ok) = admit c now later s.uploader in
      record {
        uploader = u;
        under_way = put_under_way i (if ok then some operation else none) s.under_way;
      }

  unfoldable pub end : ℕ → ℕ → Busy → Busy
  unfolding rest_of
  end i after s = elim (s.under_way i) [
    | none ↦ s
    | some operation ↦ record {
      uploader = rest_of operation after s.uploader;
      under_way = put_under_way i none s.under_way;
    }
  ]

  unfoldable pub react : Event → Busy → Busy
  unfolding begin end
  react (begins i operation now later) s = begin i operation now later s
  react (ends i after) s = end i after s

  unfoldable pub run_events : List Event → Busy → Busy
  unfolding react
  run_events [] s = s
  run_events (e ∷ es) s = run_events es (react e s)
