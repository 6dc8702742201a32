-- ===== src/Idempotency/Memory.antt =====
-- The manager over the memory providers: the record store is packages/cache's InMemoryCache and
-- the locker packages/distributedlock's MemoryDistributedLock, on one clock that moves only while
-- the manager sleeps or works.
pub mod Claims
pub mod Replay
use platform_ts.Cache.Memory.{Cache}
use platform_ts.Cache.Memory
use platform_ts.DistributedLock.{Locker, Lock}
use platform_ts.DistributedLock
use platform_ts.Idempotency.Records.{IdempotencyRecord}
use platform_ts.Idempotency.Services.{Services}
use platform_ts.Idempotency.WithLock.{IsTimed}
use platform_ts.Prelude.{ℕ, suc, ◌+◌, String, refl, Bool, Option, some, arith}

pub record World (T : Type 0) : Type 0 where
  pub cache : Cache (IdempotencyRecord T)
  pub locker : Locker
  pub clock : ℕ
  pub next_id : ℕ
  -- How often the work has run.
  pub runs : ℕ

-- The caller's work, and the claim ids that the identifiers package would give.
pub record Job (T : Type 0) : Type 0 where
  pub duration : ℕ
  pub outcome : Option T
  pub recordable : T → Bool
  pub claim_ids : ℕ → String

module _ {T : Type 0} (j : Job T) where
  abbrev pub memory_services : Services T
  memory_services = record {
    World = World T;
    Handle = Lock;
    store_get =
        λ key w. let (c, r) = Memory.get w.clock key w.cache in (record w { cache = c }, some r);
    store_set = λ key r ttl w.
        (record w { cache = Memory.set_entry w.clock w.clock key r (some ttl) w.cache }, some tt);
    store_delete = λ key w. (record w { cache = Memory.delete key w.cache }, some tt);
    lock_acquire = λ key ttl w.
        let (l, k) = DistributedLock.acquire w.clock w.clock w.clock key (some ttl) w.locker in
        (record w { locker = l }, some k);
    lock_release = λ k w.
        let (l, freed) = DistributedLock.release w.clock k w.locker in
        (record w { locker = l }, some freed);
    now = λ w. (w, w.clock);
    sleep = λ ms w. record w { clock = w.clock + ms };
    new_claim_id = λ w. (record w { next_id = suc w.next_id }, j.claim_ids w.next_id);
    work = λ w. (record w { clock = w.clock + j.duration; runs = suc w.runs }, j.outcome);
    recordable = j.recordable;
  }

  -- On the providers' clock a delay passes, and nothing else moves it back.
  pub memory-IsTimed : IsTimed memory_services (λ w. w.clock)
  memory-IsTimed = record {
    now_reads = λ w. refl;
    now_keeps = λ w. omega arith;
    sleep_passes = λ ms w. omega arith;
    acquire_keeps = λ key ttl w. omega arith;
  }
