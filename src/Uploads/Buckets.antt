-- ===== src/Uploads/Buckets.antt =====
-- packages/uploads/src: MemoryBucket of providers/memory.ts and PrefixedBucket of bucket.ts.
use Prim.Native.Char.{code}
use platform_ts.OrderedMap
use platform_ts.OrderedMap.{Map}
use platform_ts.Idempotency.Client.{is_some}
use platform_ts.HttpClient.Requests.{append_text}
use platform_ts.Uploads.{
  blob_not_found, signing_unsupported, Source, BlobBody, SaveOptions, Attributes, ObjectInfo,
  Action, Bucket,
}
use platform_ts.Uploads.Streams.{bytes_to_stream, to_bytes}
use platform_ts.Prelude.{
  ℕ, String, inl, inr, Bool, false, Option, none, some, List, [], ◌∷◌, map, ◌==◌, if◌then◌else◌,
  length, drop, take,
}

pub record StoredBlob : Type 0 where
  pub content : List ℕ
  pub content_type : Option String
  pub cache_control : Option String
  pub mod_time : ℕ

-- The map, and what `new Date()` gives.
pub record MemoryBucket : Type 0 where
  pub blobs : Map StoredBlob
  pub now : ℕ

-- `startsWith` and the `slice` behind it.
unfoldable pub strip_prefix : String → String → Option String
strip_prefix String.[] s = some s
strip_prefix (String.◌∷◌ c p) String.[] = none
strip_prefix (String.◌∷◌ c p) (String.◌∷◌ d s) = if code c == code d then strip_prefix p s else none

-- `slice(offset, end)`; a negative length reads to the end.
abbrev pub slice : ℕ → Option ℕ → List ℕ → List ℕ
slice offset none bytes = drop offset bytes
slice offset (some n) bytes = take n (drop offset bytes)

unfoldable pub write : String → BlobBody → SaveOptions → Action MemoryBucket Unit
write key body options b = elim (to_bytes body) [
  | inr e ↦ (b, inr e)
  | inl content ↦
      let blob : StoredBlob = record {
        content = content;
        content_type = options.content_type;
        cache_control = options.cache_control;
        mod_time = b.now;
      } in
      (record b { blobs = OrderedMap.put key blob b.blobs }, inl tt)
]

unfoldable pub open_range : String → ℕ → Option ℕ → Action MemoryBucket Source
open_range key offset n b = elim (OrderedMap.get key b.blobs) [
  | none ↦ (b, inr (blob_not_found key))
  | some blob ↦ (b, inl (bytes_to_stream (slice offset n blob.content)))
]

abbrev pub delete : String → Action MemoryBucket Unit
delete key b = (record b { blobs = OrderedMap.delete key b.blobs }, inl tt)

abbrev pub exists : String → Action MemoryBucket Bool
exists key b = (b, inl (is_some (OrderedMap.get key b.blobs)))

abbrev pub attributes : String → Action MemoryBucket Attributes
attributes key b = elim (OrderedMap.get key b.blobs) [
  | none ↦ (b, inr (blob_not_found key))
  | some blob ↦ (
    b,
    inl (record {
      mod_time = blob.mod_time;
      content_type = blob.content_type;
      cache_control = blob.cache_control;
      size = length blob.content;
    }),
  )
]

abbrev pub listed : String → Map StoredBlob → List ObjectInfo
listed prefix [] = []
listed prefix ((key, blob) ∷ rest) =
    let info : ObjectInfo = record {
      mod_time = blob.mod_time;
      path = key;
      size = length blob.content;
      is_dir = false;
    } in
    if is_some (strip_prefix prefix key) then info ∷ listed prefix rest else listed prefix rest

abbrev pub memory_bucket : Bucket
memory_bucket = record {
  World = MemoryBucket;
  write = write;
  open_range = open_range;
  delete = delete;
  exists = exists;
  attributes = attributes;
  list = λ prefix b. (b, listed prefix b.blobs, none);
  signed_url = λ key b. (b, inr (signing_unsupported "memory"));
}

abbrev pub without_prefix : String → ObjectInfo → ObjectInfo
without_prefix prefix info = elim (strip_prefix prefix info.path) [
  | some path ↦ record info { path = path }
  | none ↦ info
]

abbrev pub prefixed_bucket : Bucket → String → Bucket
prefixed_bucket inner prefix = record {
  World = inner.World;
  write = λ key. inner.write (append_text prefix key);
  open_range = λ key. inner.open_range (append_text prefix key);
  delete = λ key. inner.delete (append_text prefix key);
  exists = λ key. inner.exists (append_text prefix key);
  attributes = λ key. inner.attributes (append_text prefix key);
  list = λ p w.
      let (w', infos, end) = inner.list (append_text prefix p) w in
      (w', map (without_prefix prefix) infos, end);
  signed_url = λ key. inner.signed_url (append_text prefix key);
}
