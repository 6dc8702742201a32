-- ===== src/Uploads/Stored.antt =====
-- What a bucket under a prefix holds.
use Prim.Native.Char.{code}
use mathlib.Core.Option.{some-injective}
use text.Mathlib.TextEquality.{Char-path}
use platform_ts.OrderedMap
use platform_ts.OrderedMap.{Map}
use platform_ts.Idempotency.Client.{is_some}
use platform_ts.HttpClient.Requests.{append_text}
use platform_ts.Retry.Attempts.{Sum-cases}
use platform_ts.Uploads.{UploadError, BlobBody, SaveOptions}
use platform_ts.Uploads.Streams.{to_bytes}
use platform_ts.Uploads.Buckets
use platform_ts.Uploads.Buckets.{
  StoredBlob, MemoryBucket, strip_prefix, listed, memory_bucket, without_prefix, prefixed_bucket,
}
use platform_ts.Prelude.{
  ℕ, String, ◌≡◌, refl, sym, ap, ◌∙◌, ◌≢◌, ◌⊎◌, inl, inr, Option, none, some, [], ◌∷◌, map, arith,
  string_discrete, ◌==◌, Bool-cases, Option-cases,
}

abbrev strip_or : Option String → String → Option String
strip_or none q = none
strip_or (some rest) q = strip_prefix q rest

strip_prefix-append : (p s : String) → strip_prefix p (append_text p s) ≡ some s
unfolding strip_prefix
strip_prefix-append String.[] s = refl
strip_prefix-append (String.◌∷◌ c p) s = ground (arith, strip_prefix-append p s)

strip_prefix_twice :
    (p q s : String) → strip_prefix (append_text p q) s ≡ strip_or (strip_prefix p s) q
unfolding strip_prefix
strip_prefix_twice String.[] q s = refl
strip_prefix_twice (String.◌∷◌ c p) q String.[] = refl
strip_prefix_twice (String.◌∷◌ c p) q (String.◌∷◌ d s) = elim (Bool-cases (code c == code d)) [
  | inl same ↦ rw same (strip_prefix_twice p q s)
  | inr other ↦ rw other refl
]

strip_prefix-some : (p s r : String) → strip_prefix p s ≡ some r → s ≡ append_text p r
unfolding strip_prefix
strip_prefix-some String.[] s r e = ground (arith, e)
strip_prefix-some (String.◌∷◌ c p) String.[] r e = absurd (cc)
strip_prefix-some (String.◌∷◌ c p) (String.◌∷◌ d s) r e = elim (Bool-cases (code c == code d)) [
  | inl same ↦
      let rest = strip_prefix-some p s r (ground (arith, e, same)) in
      let eq : code c ≡ code d = ground (arith, same) in
      ap (λ x. String.◌∷◌ x s) (sym (Char-path c d eq)) ∙ ap (λ x. String.◌∷◌ c x) rest
  | inr other ↦ absurd (ground (arith, e, other))
]

-- The objects under a prefix, by their keys behind it.
abbrev pub under : String → Map StoredBlob → Map StoredBlob
under prefix [] = []
under prefix ((key, blob) ∷ m) = elim (strip_prefix prefix key) [
  | some rest ↦ (rest, blob) ∷ under prefix m
  | none ↦ under prefix m
]

abbrev pub view : String → MemoryBucket → MemoryBucket
view prefix b = record b { blobs = under prefix b.blobs }

pub append_text_cancels : (p s r : String) → append_text p s ≡ append_text p r → s ≡ r
append_text_cancels p s r e =
    some-injective s r
      (sym (strip_prefix-append p s) ∙ ap (strip_prefix p) e ∙ strip_prefix-append p r)

-- A key is outside a prefix, or it is the one sought under it, or another.
key-cases :
    (p j k : String)
    → ((strip_prefix p j ≡ none) × (j ≢ append_text p k))
      ⊎ ((strip_prefix p j ≡ some k) × (j ≡ append_text p k))
      ⊎ ((r : String) × (strip_prefix p j ≡ some r) × (r ≢ k) × (j ≢ append_text p k))
key-cases p j k = elim (Option-cases (strip_prefix p j)) [
  | inl other ↦
      inl
        (other, λ e. absurd (ground (arith, other, strip_prefix-append p k, ap (strip_prefix p) e)))
  | inr (r, found) ↦
      let e = strip_prefix-some p j r found in
      elim (string_discrete r k) [
        | yes same ↦ inr (inl (found ∙ ap some same, e ∙ ap (append_text p) same))
        | no ne ↦ inr (inr (r, found, ne, λ f. ne (append_text_cancels p r k (sym e ∙ f))))
      ]
]

get-under :
    (p k : String) (m : Map StoredBlob)
    → OrderedMap.get k (under p m) ≡ OrderedMap.get (append_text p k) m
unfolding OrderedMap.get
get-under p k [] = refl
get-under p k ((j, v) ∷ m) = elim (key-cases p j k) [
  | inl (outside, apart) ↦ ground (arith, outside, apart, get-under p k m)
  | inr (inl (found, e)) ↦ ground (arith, found, e)
  | inr (inr (r, found, ne, apart)) ↦ ground (arith, found, ne, apart, get-under p k m)
]

under-put :
    (p k : String) (v : StoredBlob) (m : Map StoredBlob)
    → under p (OrderedMap.put (append_text p k) v m) ≡ OrderedMap.put k v (under p m)
unfolding OrderedMap.put
under-put p k v [] = ground (arith, strip_prefix-append p k)
under-put p k v ((j, w) ∷ m) = elim (key-cases p j k) [
  | inl (outside, apart) ↦ ground (arith, outside, apart, under-put p k v m)
  | inr (inl (found, e)) ↦ ground (arith, found, e, strip_prefix-append p k)
  | inr (inr (r, found, ne, apart)) ↦ ground (arith, found, ne, apart, under-put p k v m)
]

under-delete :
    (p k : String) (m : Map StoredBlob)
    → under p (OrderedMap.delete (append_text p k) m) ≡ OrderedMap.delete k (under p m)
unfolding OrderedMap.delete
under-delete p k [] = refl
under-delete p k ((j, w) ∷ m) = elim (key-cases p j k) [
  | inl (outside, apart) ↦ ground (arith, outside, apart, under-delete p k m)
  | inr (inl (found, e)) ↦ ground (arith, found, e, under-delete p k m)
  | inr (inr (r, found, ne, apart)) ↦ ground (arith, found, ne, apart, under-delete p k m)
]

listed-under :
    (p q : String) (m : Map StoredBlob)
    → map (without_prefix p) (listed (append_text p q) m) ≡ listed q (under p m)
listed-under p q [] = refl
listed-under p q ((j, v) ∷ m) =
    let twice = strip_prefix_twice p q j in
    elim (Option-cases (strip_prefix p j)) [
      | inl other ↦ ground (arith, other, twice, listed-under p q m)
      | inr (r, found) ↦ elim (Option-cases (strip_prefix q r)) [
        | inl outside ↦ ground (arith, found, twice, outside, listed-under p q m)
        | inr (t, inside) ↦ ground (arith, found, twice, inside, listed-under p q m)
      ]
    ]

-- The answer, if it is one.
abbrev pub answer_of : {A : Type 0} → A ⊎ UploadError → Option A
answer_of (inl a) = some a
answer_of (inr e) = none

write-view :
    (p key : String) (body : BlobBody) (options : SaveOptions) (b : MemoryBucket)
    → (view p (Buckets.write (append_text p key) body options b).0
        ≡ (Buckets.write key body options (view p b)).0)
      × ((Buckets.write (append_text p key) body options b).1
          ≡ (Buckets.write key body options (view p b)).1)
unfolding Buckets.write
write-view p key body options b = elim (Sum-cases (to_bytes body)) [
  | inr (e, bad) ↦ rw (bad, Buckets.write) (refl, refl)
  | inl (content, good) ↦
      let blob : StoredBlob = record {
        content = content;
        content_type = options.content_type;
        cache_control = options.cache_control;
        mod_time = b.now;
      } in
      rw (good, Buckets.write)
        (ap (λ m. record b { blobs = m }) (under-put p key blob b.blobs), refl)
]

reads-view :
    (p key : String) (offset : ℕ) (n : Option ℕ) (b : MemoryBucket)
    → (answer_of (Buckets.open_range (append_text p key) offset n b).1
        ≡ answer_of (Buckets.open_range key offset n (view p b)).1)
      × (answer_of (Buckets.attributes (append_text p key) b).1
          ≡ answer_of (Buckets.attributes key (view p b)).1)
unfolding Buckets.open_range
reads-view p key offset n b =
    let found = get-under p key b.blobs in
    elim (Option-cases (OrderedMap.get (append_text p key) b.blobs)) [
      | inl absent ↦ (ground (arith, absent, found), ground (arith, absent, found))
      | inr (blob, there) ↦ (ground (arith, there, found), ground (arith, there, found))
    ]

-- A memory bucket under a prefix is the memory bucket of the objects under it: a write and a delete
-- do to those what they do to it, and reads, tests, attributes and listings answer as it does, but
-- for the key that an error names.
pub prefixed_bucket-refines :
    (prefix key : String) (body : BlobBody) (options : SaveOptions) (offset : ℕ) (n : Option ℕ)
    (b : MemoryBucket)
    → let outer = prefixed_bucket memory_bucket prefix in
      let inner = view prefix b in
      (view prefix (outer.write key body options b).0
        ≡ (memory_bucket.write key body options inner).0)
      × ((outer.write key body options b).1 ≡ (memory_bucket.write key body options inner).1)
      × (view prefix (outer.delete key b).0 ≡ (memory_bucket.delete key inner).0)
      × (answer_of (outer.open_range key offset n b).1
          ≡ answer_of (memory_bucket.open_range key offset n inner).1)
      × ((outer.exists key b).1 ≡ (memory_bucket.exists key inner).1)
      × (answer_of (outer.attributes key b).1 ≡ answer_of (memory_bucket.attributes key inner).1)
      × ((outer.list key b).1 ≡ (memory_bucket.list key inner).1)
prefixed_bucket-refines prefix key body options offset n b =
    let (written, same) = write-view prefix key body options b in
    let (read, described) = reads-view prefix key offset n b in
    (
      written,
      same,
      ap (λ m. record b { blobs = m }) (under-delete prefix key b.blobs),
      read,
      ap (λ x. inl (is_some x)) (sym (get-under prefix key b.blobs)),
      described,
      listed-under prefix key b.blobs,
    )
