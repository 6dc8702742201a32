-- ===== src/Idempotency/Fingerprint/Requests.antt =====
-- What a request's fingerprint commits to.
use platform_ts.Idempotency.Fingerprint.{
  framed, RequestFingerprintInput, request_parts, fingerprint_request, to_upper, text_or_empty,
  bytes_or_empty,
}
use platform_ts.Idempotency.Fingerprint.Framing.{IsBytes, fingerprint_of-injective}
use platform_ts.Idempotency.Fingerprint.Utf8.{encode-injective}
use platform_ts.Prelude.{ℕ, zero, suc, String, ◌≡◌, ap, List, [], ◌∷◌}

-- The entry at a place, or an empty one.
abbrev part_at : ℕ → List (List ℕ) → List ℕ
part_at i [] = []
part_at zero (p ∷ ps) = p
part_at (suc i) (p ∷ ps) = part_at i ps

module _ (hash : List ℕ → List ℕ) (pathname sorted_query : String → String) where
  abbrev pub buffer : RequestFingerprintInput → List ℕ
  buffer r = framed (request_parts pathname sorted_query r)

  -- Two requests with the same fingerprint have the same method but for its case, the same path, the
  -- same sorted query, the same principal and the same body, where none counts as empty, if the hash
  -- does not give their two buffers the same digest.
  pub fingerprint_request_commits :
      (r q : RequestFingerprintInput)
      → IsBytes (hash (buffer r))
      → IsBytes (hash (buffer q))
      → (hash (buffer r) ≡ hash (buffer q) → buffer r ≡ buffer q)
      → fingerprint_request hash pathname sorted_query r
        ≡ fingerprint_request hash pathname sorted_query q
      → (to_upper r.method ≡ to_upper q.method)
        × (pathname r.url ≡ pathname q.url)
        × (sorted_query r.url ≡ sorted_query q.url)
        × (text_or_empty r.principal ≡ text_or_empty q.principal)
        × (bytes_or_empty r.body ≡ bytes_or_empty q.body)
  unfolding fingerprint_request
  fingerprint_request_commits r q b c apart e =
      let same =
        fingerprint_of-injective hash (request_parts pathname sorted_query r)
          (request_parts pathname sorted_query q) b c apart e in
      (
        encode-injective (to_upper r.method) (to_upper q.method) (ap (part_at 0) same),
        encode-injective (pathname r.url) (pathname q.url) (ap (part_at 1) same),
        encode-injective (sorted_query r.url) (sorted_query q.url) (ap (part_at 2) same),
        encode-injective (text_or_empty r.principal) (text_or_empty q.principal)
            (ap (part_at 3) same),
        ap (part_at 4) same,
      )
