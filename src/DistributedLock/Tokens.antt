-- ===== src/DistributedLock/Tokens.antt =====
-- The tokens that are in use.
use platform_ts.OrderedMap
use platform_ts.OrderedMap.{Map}
use platform_ts.OrderedMap.Laws.{
  HasUniqueKeys, HoldsEach, put-HoldsEach, delete-HoldsEach, keep-HoldsEach, get-HoldsEach,
  put-HasUniqueKeys, delete-HasUniqueKeys, keep-HasUniqueKeys,
}
use platform_ts.DistributedLock.{
  Lease, Lock, Locker, acquire, owned_by, release, run, refresh, sweep_expired, step, new_locker,
  owns, Call, is_unexpired, or_default, acquires, is_held, releases, refreshes,
}
use platform_ts.Prelude.{
  ℕ, suc, ◌+◌, ◌≤◌, ◌<◌, String, ◌≡◌, refl, inl, inr, true, Option, none, some, List, [], ◌∷◌,
  arith, Bool-cases,
}

abbrev pub IsBelow : ℕ → Lease → Type 0
IsBelow n l = l.token < n

-- Each key has one lease, and the tokens in use are older than the next one.
pub record IsValid (s : Locker) : Type 0 where
  pub below : HoldsEach (IsBelow s.next_token) s.leases
  pub unique : HasUniqueKeys s.leases

HoldsEach-IsBelow :
    (m n : ℕ) (ls : Map Lease) → m ≤ n → HoldsEach (IsBelow m) ls → HoldsEach (IsBelow n) ls
HoldsEach-IsBelow m n [] h b = tt
HoldsEach-IsBelow m n ((k, l) ∷ ls) h b = (omega (arith, b.0), HoldsEach-IsBelow m n ls h b.1)

acquire-IsValid :
    (swept checked granted : ℕ) (key : String) (ttl : Option ℕ) (s : Locker)
    → IsValid s
    → IsValid (acquire swept checked granted key ttl s).0
unfolding acquire sweep_expired
acquire-IsValid swept checked granted key ttl s v =
    let leases = OrderedMap.keep (is_unexpired swept) s.leases in
    let b = keep-HoldsEach (IsBelow s.next_token) (is_unexpired swept) s.leases v.below in
    let u = keep-HasUniqueKeys (is_unexpired swept) s.leases v.unique in
    let l : Lease = record {
      token = s.next_token;
      expires_at = granted + or_default ttl s.default_ttl_ms;
    } in
    elim (Bool-cases (is_held checked (OrderedMap.get key leases))) [
      | inl held ↦ rw held (record { below = b; unique = u })
      | inr free ↦ rw free (record {
        below =
            put-HoldsEach (IsBelow (suc s.next_token)) key l leases
              (HoldsEach-IsBelow s.next_token (suc s.next_token) leases (omega arith) b)
              (omega arith);
        unique = put-HasUniqueKeys key l leases u;
      })
    ]

release-IsValid : (now : ℕ) (k : Lock) (s : Locker) → IsValid s → IsValid (release now k s).0
unfolding release
release-IsValid now k s v = elim (Bool-cases (owns now k s)) [
  | inl ours ↦ rw ours (record {
    below = delete-HoldsEach (IsBelow s.next_token) k.key s.leases v.below;
    unique = delete-HasUniqueKeys k.key s.leases v.unique;
  })
  | inr lost ↦ rw lost (record { below = v.below; unique = v.unique })
]

owned-token :
    (now token : ℕ) (o : Option Lease)
    → owned_by now token o ≡ true
    → (l : Lease) × (o ≡ some l) × (l.token ≡ token)
owned-token now token none h = cc
owned-token now token (some l) h = (l, refl, ground arith)

refresh-IsValid :
    (now later : ℕ) (k : Lock) (ttl : Option ℕ) (s : Locker)
    → IsValid s
    → IsValid (refresh now later k ttl s).0
unfolding refresh
refresh-IsValid now later k ttl s v = elim (Bool-cases (owns now k s)) [
  | inl ours ↦
      let (l, found, same) = owned-token now k.token (OrderedMap.get k.key s.leases) ours in
      let b = get-HoldsEach (IsBelow s.next_token) k.key l s.leases v.below found in
      let l' : Lease = record { token = k.token; expires_at = later + or_default ttl k.ttl_ms } in
      rw ours (record {
        below =
            put-HoldsEach (IsBelow s.next_token) k.key l' s.leases v.below (omega (arith, b, same));
        unique = put-HasUniqueKeys k.key l' s.leases v.unique;
      })
  | inr lost ↦ rw lost (record { below = v.below; unique = v.unique })
]

step-IsValid : (c : Call) (s : Locker) → IsValid s → IsValid (step c s)
unfolding step
step-IsValid (acquires swept checked granted key ttl) s v =
    acquire-IsValid swept checked granted key ttl s v
step-IsValid (releases now k) s v = release-IsValid now k s v
step-IsValid (refreshes now later k ttl) s v = refresh-IsValid now later k ttl s v

run-IsValid_from : (cs : List Call) (s : Locker) → IsValid s → IsValid (run cs s)
unfolding run
run-IsValid_from [] s v = v
run-IsValid_from (c ∷ cs) s v = run-IsValid_from cs (step c s) (step-IsValid c s v)

-- Whatever calls a new locker has served, each key has at most one lease, and every token in use is
-- below the next token to be granted.
pub run-new_locker-IsValid : (ttl : Option ℕ) (cs : List Call) → IsValid (run cs (new_locker ttl))
unfolding new_locker
run-new_locker-IsValid ttl cs =
    run-IsValid_from cs (new_locker ttl) (record { below = tt; unique = tt })
