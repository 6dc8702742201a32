-- ===== src/DistributedLock.antt =====
-- packages/distributedlock/src/providers/memory.ts. Readings of the clock are arguments, in the
-- order in which the code takes them; the instrument is the contention counter.
pub mod Tokens
pub mod Exclusion
mod Tests
use platform_ts.OrderedMap
use platform_ts.OrderedMap.{Map}
use platform_ts.Prelude.{
  ℕ, suc, ◌+◌, String, Bool, true, false, ◌&&◌, Option, none, some, List, [], ◌∷◌, ltb, ◌==◌,
  if◌then◌else◌,
}

pub record Lease : Type 0 where
  pub token : ℕ
  pub expires_at : ℕ

pub record Locker : Type 0 where
  pub leases : Map Lease
  pub next_token : ℕ
  pub default_ttl_ms : ℕ
  pub contention : ℕ

-- What `#makeLock` closes over.
pub record Lock : Type 0 where
  pub key : String
  pub token : ℕ
  pub ttl_ms : ℕ

abbrev pub default_ttl : ℕ
default_ttl = 30000

abbrev pub or_default : Option ℕ → ℕ → ℕ
or_default none d = d
or_default (some n) d = n

unfoldable pub new_locker : Option ℕ → Locker
new_locker ttl = record {
  leases = [];
  next_token = 1;
  default_ttl_ms = or_default ttl default_ttl;
  contention = 0;
}

abbrev pub is_unexpired : ℕ → Lease → Bool
is_unexpired now l = ltb now l.expires_at

unfoldable pub sweep_expired : ℕ → Map Lease → Map Lease
sweep_expired now = OrderedMap.keep (is_unexpired now)

abbrev pub contended : Locker → Locker
contended s = record s { contention = suc s.contention }

-- Whether the key's lease is still running.
abbrev pub is_held : ℕ → Option Lease → Bool
is_held now none = false
is_held now (some l) = is_unexpired now l

-- The readings are those of the sweep, of the check and of the expiry.
unfoldable pub acquire : ℕ → ℕ → ℕ → String → Option ℕ → Locker → Locker × Option Lock
acquire swept checked granted key ttl s =
    let leases = sweep_expired swept s.leases in
    let ttl_ms = or_default ttl s.default_ttl_ms in
    if is_held checked (OrderedMap.get key leases)
    then (record s { leases = leases; contention = suc s.contention }, none)
    else (
      record s {
        leases =
            OrderedMap.put key (record { token = s.next_token; expires_at = granted + ttl_ms })
              leases;
        next_token = suc s.next_token;
      },
      some (record { key = key; token = s.next_token; ttl_ms = ttl_ms }),
    )

abbrev pub owned_by : ℕ → ℕ → Option Lease → Bool
owned_by now token none = false
owned_by now token (some l) = l.token == token && is_unexpired now l

abbrev pub owns : ℕ → Lock → Locker → Bool
owns now k s = owned_by now k.token (OrderedMap.get k.key s.leases)

unfoldable pub release : ℕ → Lock → Locker → Locker × Bool
release now k s =
    if owns now k s
    then (record s { leases = OrderedMap.delete k.key s.leases }, true)
    else (contended s, false)

-- `later` is the reading for the new expiry.
unfoldable pub refresh : ℕ → ℕ → Lock → Option ℕ → Locker → Locker × Bool
refresh now later k ttl s =
    if owns now k s
    then (
      record s {
        leases =
            OrderedMap.put k.key
              (record { token = k.token; expires_at = later + or_default ttl k.ttl_ms }) s.leases;
      },
      true,
    )
    else (contended s, false)

pub data Call : Type 0 where
  acquires : ℕ → ℕ → ℕ → String → Option ℕ → Call
  releases : ℕ → Lock → Call
  refreshes : ℕ → ℕ → Lock → Option ℕ → Call

unfoldable pub step : Call → Locker → Locker
step (acquires swept checked granted key ttl) s = (acquire swept checked granted key ttl s).0
step (releases now k) s = (release now k s).0
step (refreshes now later k ttl) s = (refresh now later k ttl s).0

unfoldable pub run : List Call → Locker → Locker
run [] s = s
run (c ∷ cs) s = run cs (step c s)
