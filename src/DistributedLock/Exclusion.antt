-- ===== src/DistributedLock/Exclusion.antt =====
-- Mutual exclusion in time.
use platform_ts.OrderedMap
use platform_ts.OrderedMap.{Map}
use platform_ts.OrderedMap.Laws.{
  get-put_self, get-put_ne, get-delete_self, get-delete_ne, get-keep_pass, get-keep-none,
}
use platform_ts.DistributedLock.{
  Lease, Lock, Locker, acquire, sweep_expired, Call, acquires, releases, refreshes, refresh,
  release, step, run, is_unexpired, or_default, owns, owned_by,
}
use platform_ts.Prelude.{
  ℕ, suc, ◌+◌, ◌<◌, String, ◌≡◌, refl, ◌≢◌, true, false, Option, none, some, List, [], ◌∷◌, arith,
  string_discrete, ltb, All,
}

-- A call by somebody else: it reads the clock before the deadline, and releases or refreshes no
-- lock of this key with this token.
abbrev pub IsForeign : String → ℕ → ℕ → Call → Type 0
IsForeign key token deadline (acquires swept checked granted k ttl) =
    (swept < deadline) × (checked < deadline)
IsForeign key token deadline (releases now k) = (k.key ≡ key) → (k.token ≢ token)
IsForeign key token deadline (refreshes now later k ttl) = (k.key ≡ key) → (k.token ≢ token)

module _ (key : String) (l : Lease) where
  acquire-held :
      (swept checked granted : ℕ) (k : String) (ttl : Option ℕ) (s : Locker)
      → OrderedMap.get key s.leases ≡ some l
      → swept < l.expires_at
      → checked < l.expires_at
      → (OrderedMap.get key (acquire swept checked granted k ttl s).0.leases ≡ some l)
        × (k ≡ key → (acquire swept checked granted k ttl s).1 ≡ none)
  unfolding acquire sweep_expired
  acquire-held swept checked granted k ttl s found h h' =
      let leases = OrderedMap.keep (is_unexpired swept) s.leases in
      let kept = get-keep_pass (is_unexpired swept) key l s.leases found (ground arith) in
      let next : Lease = record {
        token = s.next_token;
        expires_at = granted + or_default ttl s.default_ttl_ms;
      } in
      elim (string_discrete k key) [
        | yes p ↦ (rw p (rw kept (ground (arith, kept))), λ q. rw p (rw kept (ground arith)))
        | no p ↦ (ground (arith, kept, get-put_ne k key next leases p), λ q. absurd (p q))
      ]

  release-foreign :
      (now : ℕ) (k : Lock) (s : Locker)
      → OrderedMap.get key s.leases ≡ some l
      → (k.key ≡ key → k.token ≢ l.token)
      → OrderedMap.get key (release now k s).0.leases ≡ some l
  unfolding release
  release-foreign now k s found f = elim (string_discrete k.key key) [
    | yes p ↦ rw (p, found) (ground (arith, f p))
    | no p ↦ ground (arith, get-delete_ne k.key key s.leases p)
  ]

  refresh-foreign :
      (now later : ℕ) (k : Lock) (ttl : Option ℕ) (s : Locker)
      → OrderedMap.get key s.leases ≡ some l
      → (k.key ≡ key → k.token ≢ l.token)
      → OrderedMap.get key (refresh now later k ttl s).0.leases ≡ some l
  unfolding refresh
  refresh-foreign now later k ttl s found f =
      let l' : Lease = record { token = k.token; expires_at = later + or_default ttl k.ttl_ms } in
      elim (string_discrete k.key key) [
        | yes p ↦ rw (p, found) (ground (arith, f p))
        | no p ↦ ground (arith, get-put_ne k.key key l' s.leases p)
      ]

  step-foreign :
      (c : Call) (s : Locker)
      → OrderedMap.get key s.leases ≡ some l
      → IsForeign key l.token l.expires_at c
      → OrderedMap.get key (step c s).leases ≡ some l
  unfolding step
  step-foreign (acquires swept checked granted k ttl) s found (h, h') =
      (acquire-held swept checked granted k ttl s found h h').0
  step-foreign (releases now k) s found f = release-foreign now k s found f
  step-foreign (refreshes now later k ttl) s found f = refresh-foreign now later k ttl s found f

  -- While a lease lasts, calls of others neither end nor move it, and whoever asks for its key is
  -- turned away.
  pub held_excludes :
      (cs : List Call) (s : Locker)
      → OrderedMap.get key s.leases ≡ some l
      → All (IsForeign key l.token l.expires_at) cs
      → (swept checked granted : ℕ) (ttl : Option ℕ) → swept < l.expires_at
      → checked < l.expires_at
      → (OrderedMap.get key (run cs s).leases ≡ some l)
        × ((acquire swept checked granted key ttl (run cs s)).1 ≡ none)
  unfolding run
  held_excludes [] s found f swept checked granted ttl h h' =
      (found, (acquire-held swept checked granted key ttl s found h h').1 refl)
  held_excludes (c ∷ cs) s found (f, fs) swept checked granted ttl h h' =
      held_excludes cs (step c s) (step-foreign c s found f) fs swept checked granted ttl h h'

-- A lock whose key another token holds by now can neither release nor refresh it: both answer
-- false and leave the leases as they are.
pub stale_lock :
    (now later : ℕ) (k : Lock) (ttl : Option ℕ) (s : Locker) (l : Lease)
    → OrderedMap.get k.key s.leases ≡ some l
    → l.token ≢ k.token
    → (release now k s ≡ (record s { contention = suc s.contention }, false))
      × (refresh now later k ttl s ≡ (record s { contention = suc s.contention }, false))
unfolding release refresh
stale_lock now later k ttl s l found other = (ground arith, ground arith)

-- The lock that a free key is granted owns the key until its expiry, can extend it before then, and
-- once released leaves the key free for the next caller at once.
pub acquire-free :
    (swept checked granted now later : ℕ) (key : String) (ttl : Option ℕ) (s : Locker)
    → OrderedMap.get key s.leases ≡ none
    → now < granted + or_default ttl s.default_ttl_ms
    → (k : Lock) × ((acquire swept checked granted key ttl s).1 ≡ some k)
      × (owns now k (acquire swept checked granted key ttl s).0 ≡ true)
      × (owned_by now k.token (
            OrderedMap.get key
              (refresh now later k none (acquire swept checked granted key ttl s).0).0.leases)
          ≡ ltb now (later + k.ttl_ms))
      × ((release now k (acquire swept checked granted key ttl s).0).1 ≡ true)
      × (OrderedMap.get key (release now k (acquire swept checked granted key ttl s).0).0.leases
          ≡ none)
unfolding acquire release refresh sweep_expired
acquire-free swept checked granted now later key ttl s free h =
    let leases = OrderedMap.keep (is_unexpired swept) s.leases in
    let l : Lease = record {
      token = s.next_token;
      expires_at = granted + or_default ttl s.default_ttl_ms;
    } in
    let gone = get-keep-none (is_unexpired swept) key s.leases free in
    let there = get-put_self key l leases in
    let l' : Lease = record l { expires_at = later + or_default ttl s.default_ttl_ms } in
    let k : Lock = record {
      key = key;
      token = s.next_token;
      ttl_ms = or_default ttl s.default_ttl_ms;
    } in
    rw gone (
      k,
      refl,
      ground (arith, there),
      ground (arith, there, get-put_self key l' (OrderedMap.put key l leases)),
      ground (arith, there),
      ground (arith, there, get-delete_self key (OrderedMap.put key l leases)),
    )
