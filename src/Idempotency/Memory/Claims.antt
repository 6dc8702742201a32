-- ===== src/Idempotency/Memory/Claims.antt =====
-- What is in the memory providers after a first read, and after a claim.
use platform_ts.OrderedMap
use platform_ts.Cache.Memory.Bounds.{
  IsValid, get-IsValid, set_entry-IsValid, get-cap, set_entry-cap,
}
use platform_ts.Cache.Memory.{Cache}
use platform_ts.Cache.Memory
use platform_ts.Cache.Memory.Views.{view, get-view_result, set_entry-view}
use platform_ts.DistributedLock.{Locker, Lock}
use platform_ts.DistributedLock
use platform_ts.Idempotency.Records.{IdempotencyRecord, record_version}
use platform_ts.Idempotency.Services.{Run, Session, ok}
use platform_ts.Idempotency.Memory.{World, Job, memory_services}
use platform_ts.Idempotency.Manager.{
  claim_locked, Config, store_key, lock_key, load, claim, claimed, in_flight_record,
}
use platform_ts.Cache.{resolve_ttl_ms}
use platform_ts.Idempotency.WithLock.{with_lock, lock_loop}
use platform_ts.DistributedLock.Exclusion.{acquire-free}
use platform_ts.Prelude.{
  ℕ, suc, ◌+◌, ◌≤◌, ◌<◌, String, ◌≡◌, refl, sym, ◌∙◌, Option, none, some, arith,
}

-- The store has no cap on its entries.
pub record IsReady {T : Type 0} (c : Cache (IdempotencyRecord T)) : Type 0 where
  pub uncapped : c.max_entries ≡ none
  pub valid : IsValid c

module _ {T : Type 0} (j : Job T) (cfg : Config) where
  abbrev pub after_read_world : String → World T → World T
  after_read_world key w = record w { cache = (Memory.get w.clock key w.cache).0 }

  pub load_absent :
      (key : String) (z : Session (World T))
      → view z.world.cache z.world.clock key ≡ none
      → load (memory_services j) cfg key z
        ≡ (record z { world = after_read_world key z.world }, ok none)
  unfolding load
  load_absent key z h = ground (arith, get-view_result z.world.clock key z.world.cache, h)

  pub load_present :
      (key : String) (r : IdempotencyRecord T) (z : Session (World T))
      → view z.world.cache z.world.clock key ≡ some r
      → r.version ≡ record_version
      → load (memory_services j) cfg key z
        ≡ (record z { world = after_read_world key z.world }, ok (some r))
  unfolding load
  load_present key r z h e = ground (arith, get-view_result z.world.clock key z.world.cache, h)

  pub get-IsReady :
      (now : ℕ) (key : String) (c : Cache (IdempotencyRecord T))
      → IsReady c
      → IsReady (Memory.get now key c).0
  get-IsReady now key c v = record {
    uncapped = get-cap now key c ∙ v.uncapped;
    valid = get-IsValid now key c v.valid;
  }

  pub set_entry-IsReady :
      (now : ℕ) (key : String) (r : IdempotencyRecord T) (ttl : Option ℕ)
      (c : Cache (IdempotencyRecord T))
      → IsReady c
      → IsReady (Memory.set_entry now now key r ttl c)
  set_entry-IsReady now key r ttl c v = record {
    uncapped = set_entry-cap now now key r ttl c ∙ v.uncapped;
    valid = set_entry-IsValid now now key r ttl c v.valid;
  }

  -- A record that was just written is there until its TTL is over.
  pub written :
      (now later ttl : ℕ) (key : String) (r : IdempotencyRecord T) (c : Cache (IdempotencyRecord T))
      → IsReady c
      → 0 < ttl
      → now ≤ later
      → later < now + ttl
      → view (Memory.set_entry now now key r (some ttl) c) later key ≡ some r
  unfolding resolve_ttl_ms
  written now later ttl key r c v p h k =
      set_entry-view now now later key key r (some ttl) c v.valid.unique
        (λ n e _. cc (sym v.uncapped ∙ e)) h
      ∙ ground arith

  -- The world under the claim lock, once the claim is written.
  abbrev pub claimed_world : String → String → World T → World T
  claimed_world key fingerprint w = record w {
    cache =
        Memory.set_entry w.clock w.clock key
          (in_flight_record w.clock fingerprint (j.claim_ids w.next_id)) (some cfg.in_flight_ttl_ms)
          (Memory.get w.clock key w.cache).0;
    next_id = suc w.next_id;
  }

  claim_locked_free :
      (key fingerprint : String) (z : Session (World T))
      → view z.world.cache z.world.clock key ≡ none
      → claim_locked (memory_services j) cfg key fingerprint z ≡ (
        record z { world = claimed_world key fingerprint z.world },
        ok (claimed (j.claim_ids z.world.next_id)),
      )
  unfolding claim_locked load
  claim_locked_free key fingerprint z absent =
      ground (arith, get-view_result z.world.clock key z.world.cache, absent)

  abbrev acquire_at : String → ℕ → World T → Locker × Option Lock
  acquire_at key ttl w = DistributedLock.acquire w.clock w.clock w.clock key (some ttl) w.locker

  with_lock_free :
      {R : Type 0} (fuel : ℕ) (key : String) (body : Run (World T) R) (z z' : Session (World T))
      (h : Lock) (v : R)
      → (acquire_at key cfg.lock.ttl_ms z.world).1 ≡ some h
      → body (record z {
        world = record z.world { locker = (acquire_at key cfg.lock.ttl_ms z.world).0 };
      })
        ≡ (z', ok v)
      → with_lock (memory_services j) (suc fuel) cfg.lock key body z ≡ (
        record z' {
          world = record z'.world {
            locker = (DistributedLock.release z'.world.clock h z'.world.locker).0;
          };
        },
        ok (some v),
      )
  unfolding with_lock lock_loop
  with_lock_free fuel key body z z' h v got did = ground (arith, got, did)

  -- What a claim leaves behind.
  pub record IsClaimed (key fingerprint : String) (w w' : World T) : Type 0 where
    pub cache : w'.cache ≡ (claimed_world (store_key cfg key) fingerprint w).cache
    pub clock : w'.clock ≡ w.clock
    pub runs : w'.runs ≡ w.runs
    pub unlocked : OrderedMap.get (lock_key cfg key) w'.locker.leases ≡ none

  pub claim_free :
      (fuel : ℕ) (key fingerprint : String) (z : Session (World T))
      → 0 < cfg.lock.ttl_ms
      → view z.world.cache z.world.clock (store_key cfg key) ≡ none
      → OrderedMap.get (lock_key cfg key) z.world.locker.leases ≡ none
      → (w : World T) × (claim (memory_services j) cfg (suc fuel) key fingerprint z
          ≡ (record z { world = w }, ok (claimed (j.claim_ids z.world.next_id))))
        × IsClaimed key fingerprint z.world w
  unfolding claim
  claim_free fuel key fingerprint z p absent free =
      let w = z.world in
      let lk = lock_key cfg key in
      let (h, got, _, _, _, freed) =
        acquire-free w.clock w.clock w.clock w.clock w.clock lk (some cfg.lock.ttl_ms) w.locker free
          (omega arith) in
      let held = record z { world = record w { locker = (acquire_at lk cfg.lock.ttl_ms w).0 } } in
      let body = claim_locked_free (store_key cfg key) fingerprint held absent in
      let locked =
        with_lock_free fuel lk
          (claim_locked (memory_services j) cfg (store_key cfg key) fingerprint) z
          (record z { world = claimed_world (store_key cfg key) fingerprint held.world }) h
          (claimed (j.claim_ids w.next_id)) got body in
      let w' = claimed_world (store_key cfg key) fingerprint held.world in
      (
        record w' { locker = (DistributedLock.release w'.clock h w'.locker).0 },
        ground (arith, locked),
        record { cache = refl; clock = refl; runs = refl; unlocked = freed },
      )
