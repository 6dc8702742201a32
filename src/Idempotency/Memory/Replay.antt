-- ===== src/Idempotency/Memory/Replay.antt =====
-- The protocol from end to end: two requests for one key, one after the other.
use platform_ts.OrderedMap
use platform_ts.Cache.Memory.{Cache}
use platform_ts.Cache.Memory
use platform_ts.Cache.Memory.Views.{view, get-view_result, get-view_kept}
use platform_ts.Idempotency.Records.{
  replayed, fingerprint_mismatch, was_executed, executed, IdempotencyRecord, record_version,
}
use platform_ts.Idempotency.Services.{Session, ok}
use platform_ts.Idempotency.Memory.{World, Job, memory_services}
use platform_ts.Idempotency.Manager.{
  run, Config, store_key, lock_key, claim, claimed, in_flight_record, execute, commit,
  completed_record, still_ours, run_checked, after_read, proceed, retention,
}
use platform_ts.Idempotency.Key.{validate_key}
use platform_ts.Idempotency.Manager.Answers.{run-checked, run-stored}
use platform_ts.Prelude.{
  ℕ, suc, ◌+◌, ◌≤◌, ◌<◌, String, ◌≡◌, refl, sym, ap, subst, ◌∙◌, ◌≢◌, ite, true, Option, none, some,
  ◌∷◌, arith, string_discrete,
}
use platform_ts.Idempotency.Memory.Claims.{
  IsReady, after_read_world, load_absent, load_present, get-IsReady, set_entry-IsReady, written,
  IsClaimed, claim_free,
}

module _ {T : Type 0} (j : Job T) (cfg : Config) where
  still_ours_owned :
      (key claim_id : String) (r : IdempotencyRecord T) (z : Session (World T))
      → view z.world.cache z.world.clock key ≡ some r
      → r.version ≡ record_version
      → r.claim_id ≡ claim_id
      → still_ours (memory_services j) cfg key claim_id z
        ≡ (record z { world = after_read_world j cfg key z.world }, ok true)
  unfolding still_ours
  still_ours_owned key claim_id r z h e same = ground (arith, load_present j cfg key r z h e, same)

  abbrev recorded_world : String → String → String → T → ℕ → World T → World T
  recorded_world key claim_id fingerprint v ttl w = record w {
    cache =
        Memory.set_entry w.clock w.clock key (completed_record w.clock fingerprint claim_id v)
          (some ttl) (Memory.get w.clock key w.cache).0;
  }

  commit_owned :
      (key claim_id fingerprint : String) (v : T) (ttl : ℕ) (r : IdempotencyRecord T)
      (z : Session (World T))
      → view z.world.cache z.world.clock key ≡ some r
      → r.version ≡ record_version
      → r.claim_id ≡ claim_id
      → commit (memory_services j) cfg key claim_id fingerprint v ttl z
        ≡ (record z { world = recorded_world key claim_id fingerprint v ttl z.world }, ok tt)
  unfolding commit
  commit_owned key claim_id fingerprint v ttl r z h e same =
      ground (arith, still_ours_owned key claim_id r z h e same)

  abbrev worked_world : World T → World T
  worked_world w = record w { clock = w.clock + j.duration; runs = suc w.runs }

  execute_recorded :
      (key claim_id fingerprint : String) (v : T) (ttl : ℕ) (r : IdempotencyRecord T)
      (z : Session (World T))
      → j.outcome ≡ some v
      → j.recordable v ≡ true
      → view z.world.cache (z.world.clock + j.duration) key ≡ some r
      → r.version ≡ record_version
      → r.claim_id ≡ claim_id
      → execute (memory_services j) cfg key claim_id fingerprint ttl z ≡ (
        record z {
          world = recorded_world key claim_id fingerprint v ttl (worked_world z.world);
          requests = was_executed ∷ z.requests;
        },
        ok (executed v),
      )
  unfolding execute
  execute_recorded key claim_id fingerprint v ttl r z out rec h e same = ground (
    arith,
    out,
    rec,
    commit_owned key claim_id fingerprint v ttl r (record z { world = worked_world z.world }) h e
        same,
  )

  -- The claim, past the first read.
  claim_after_read :
      (fuel : ℕ) (key fingerprint : String) (z : Session (World T))
      → 0 < cfg.lock.ttl_ms
      → view z.world.cache z.world.clock (store_key cfg key) ≡ none
      → OrderedMap.get (lock_key cfg key) z.world.locker.leases ≡ none
      → let z1 = record z { world = after_read_world j cfg (store_key cfg key) z.world } in
        (w : World T) × (claim (memory_services j) cfg (suc fuel) key fingerprint z1
          ≡ (record z { world = w }, ok (claimed (j.claim_ids z.world.next_id))))
        × IsClaimed j cfg key fingerprint z1.world w
  claim_after_read fuel key fingerprint z p absent free =
      let z1 = record z { world = after_read_world j cfg (store_key cfg key) z.world } in
      claim_free j cfg fuel key fingerprint z1 p
        (get-view_kept z.world.clock z.world.clock (store_key cfg key) (store_key cfg key)
            z.world.cache (omega arith)
          ∙ absent)
        free

  -- What the first request leaves behind.
  record IsAnswered (key fingerprint claim_id : String) (v : T) (ttl : ℕ) (w w' : World T)
      : Type 0 where
    once : w'.runs ≡ suc w.runs
    clock : w'.clock ≡ w.clock + j.duration
    stored :
        (later : ℕ)
        → w'.clock ≤ later
        → later < w'.clock + ttl
        → view w'.cache later (store_key cfg key)
          ≡ some (completed_record w'.clock fingerprint claim_id v)

  execute-IsAnswered :
      (key fingerprint : String) (v : T) (ttl : ℕ) (w w' : World T)
      → IsReady w.cache
      → 0 < ttl
      → IsClaimed j cfg key fingerprint w w'
      → IsAnswered key fingerprint (j.claim_ids w.next_id) v ttl w (
          recorded_world
            (store_key cfg key)
            (j.claim_ids w.next_id)
            fingerprint
            v
            ttl
            (worked_world w'))
  execute-IsAnswered key fingerprint v ttl w w' ready p claim =
      let sk = store_key cfg key in
      let t = w'.clock + j.duration in
      let r = in_flight_record w.clock fingerprint (j.claim_ids w.next_id) in
      let claimed_ready : IsReady w'.cache = subst IsReady (sym claim.cache) (
        set_entry-IsReady j cfg w.clock sk r (some cfg.in_flight_ttl_ms)
          (Memory.get w.clock sk w.cache).0 (get-IsReady j cfg w.clock sk w.cache ready)) in
      record {
        once = ap suc claim.runs;
        clock = omega (arith, claim.clock);
        stored = λ later h k.
            written j cfg t later ttl sk (completed_record t fingerprint (j.claim_ids w.next_id) v)
              (Memory.get t sk w'.cache).0 (get-IsReady j cfg t sk w'.cache claimed_ready) p h k;
      }

  run_first :
      (fuel : ℕ) (key fingerprint : String) (ttl : Option ℕ) (v : T) (z : Session (World T))
      → validate_key key cfg.max_key_length ≡ none
      → fingerprint ≢ ""
      → IsReady z.world.cache
      → 0 < cfg.lock.ttl_ms
      → j.duration < cfg.in_flight_ttl_ms
      → 0 < retention (memory_services j) cfg ttl
      → j.outcome ≡ some v
      → j.recordable v ≡ true
      → view z.world.cache z.world.clock (store_key cfg key) ≡ none
      → OrderedMap.get (lock_key cfg key) z.world.locker.leases ≡ none
      → (w : World T) × (run (memory_services j) cfg (suc fuel) key fingerprint ttl z
          ≡ (record z { world = w; requests = was_executed ∷ z.requests }, ok (executed v)))
        × IsAnswered key fingerprint
            (j.claim_ids z.world.next_id)
            v
            (retention (memory_services j) cfg ttl)
            z.world
            w
  unfolding run_checked after_read proceed
  run_first fuel key fingerprint ttl v z valid given ready leased quick kept out rec absent free =
      let sk = store_key cfg key in
      let z1 = record z { world = after_read_world j cfg sk z.world } in
      let (w, did, claim) = claim_after_read fuel key fingerprint z leased absent free in
      let r = in_flight_record z.world.clock fingerprint (j.claim_ids z.world.next_id) in
      let once_read = get-IsReady j cfg z.world.clock sk z.world.cache ready in
      let seen_in_flight : view w.cache (w.clock + j.duration) sk ≡ some r =
        ap (λ c. view c (w.clock + j.duration) sk) claim.cache
        ∙ written j cfg z.world.clock (w.clock + j.duration) cfg.in_flight_ttl_ms sk r
            (Memory.get z.world.clock sk z1.world.cache).0
            (get-IsReady j cfg z.world.clock sk z1.world.cache once_read) (omega arith)
            (omega (arith, claim.clock)) (omega (arith, claim.clock)) in
      let executed_now =
        execute_recorded sk (j.claim_ids z.world.next_id) fingerprint v
          (retention (memory_services j) cfg ttl) r (record z { world = w }) out rec seen_in_flight
          refl refl in
      let answered =
        execute-IsAnswered key fingerprint v (retention (memory_services j) cfg ttl) z1.world w
          once_read kept claim in
      let read = load_absent j cfg sk z absent in
      (
        recorded_world sk (j.claim_ids z.world.next_id) fingerprint v
            (retention (memory_services j) cfg ttl) (worked_world w),
        run-checked (memory_services j) cfg (suc fuel) key fingerprint ttl z valid given
            ∙ ground (arith, read, did, executed_now),
        record { once = answered.once; clock = answered.clock; stored = answered.stored },
      )

  -- A first request whose work gives a recordable result before its claim runs out is executed. A
  -- second one for the same key that comes while the result is kept replays it if its fingerprint
  -- is the same, and is told of the mismatch if not; in either case the work has run only once. The
  -- store holds nothing for the key before, has no cap, and the key's lock is free.
  pub run-replays :
      (fuel : ℕ) (key fingerprint : String) (ttl : Option ℕ) (v : T) (z : Session (World T))
      (again idle : ℕ) (other : String) (ttl_again : Option ℕ)
      → validate_key key cfg.max_key_length ≡ none
      → fingerprint ≢ ""
      → other ≢ ""
      → IsReady z.world.cache
      → 0 < cfg.lock.ttl_ms
      → j.duration < cfg.in_flight_ttl_ms
      → idle < retention (memory_services j) cfg ttl
      → j.outcome ≡ some v
      → j.recordable v ≡ true
      → view z.world.cache z.world.clock (store_key cfg key) ≡ none
      → OrderedMap.get (lock_key cfg key) z.world.locker.leases ≡ none
      → let (z1, first) = run (memory_services j) cfg (suc fuel) key fingerprint ttl z in
        let z2 = record z1 { world = record z1.world { clock = z1.world.clock + idle } } in
        let (z3, second) = run (memory_services j) cfg again key other ttl_again z2 in
        (first ≡ ok (executed v))
        × (second
            ≡ ok (ite (string_discrete fingerprint other) (replayed (some v)) fingerprint_mismatch))
        × (z3.world.runs ≡ suc z.world.runs)
  run-replays fuel key fingerprint ttl v z again idle other ttl_again valid given given' ready
        leased quick kept out rec absent free =
      let sk = store_key cfg key in
      let (w, did, answered) =
        run_first fuel key fingerprint ttl v z valid given ready leased quick (omega arith) out rec
          absent free in
      let z2 : Session (World T) = record z {
        world = record w { clock = w.clock + idle };
        requests = was_executed ∷ z.requests;
      } in
      let r = completed_record w.clock fingerprint (j.claim_ids z.world.next_id) v in
      let found : (Memory.get z2.world.clock sk z2.world.cache).1 ≡ some r =
        get-view_result z2.world.clock sk z2.world.cache
        ∙ answered.stored (w.clock + idle) (omega arith) (omega arith) in
      let replay =
        run-stored (memory_services j) cfg again key other ttl_again z2 r valid given'
          (ap some found) refl in
      rw did (refl, replay.0, ap (λ w. w.runs) replay.1 ∙ answered.once)
