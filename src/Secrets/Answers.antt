-- ===== src/Secrets/Answers.antt =====
-- What a read is answered.
use platform_ts.OrderedMap
use platform_ts.OrderedMap.{Map}
use platform_ts.OrderedMap.Laws.{get-delete_self}
use platform_ts.OrderedMap.Laws.{HasUniqueKeys}
use platform_ts.Cache.{resolve_ttl_ms}
use platform_ts.Cache.Memory.{get, set_entry, new_cache, is_live, expires}
use platform_ts.Cache.Memory.Views.{HasRoom, get-view_result, set_entry-view}
use platform_ts.Secrets.{
  new_source, found, Phase, looking, asking, storing, settled, Task, CachingSecretSource, update,
  settle, Event, get_call, cache_answers, inner_answers, cache_stores, step, run, Answer, failed,
  missing,
}
use platform_ts.Prelude.{
  ℕ, suc, ◌+◌, ◌≤◌, ◌<◌, String, ◌≡◌, refl, sym, ap, subst, ◌∙◌, inl, inr, true, Option, none, some,
  List, [], ◌∷◌, arith, Bool-cases, Option-cases,
}

-- What a promise of the source settles to, for what the source below gives.
abbrev pub answer_of : Option (Option String) → Answer
answer_of none = failed
answer_of (some none) = missing
answer_of (some (some v)) = found v

-- Where a later read of the key stands once the cache has answered it.
abbrev pub later_phase : Option (Option String) → Phase
later_phase none = asking
later_phase (some none) = asking
later_phase (some (some v)) = settled (found v)

abbrev value_of : Option (Option String) → Option String
value_of none = none
value_of (some o) = o

module _ (s : CachingSecretSource) (key : String)
    (nobody : OrderedMap.get key s.inflight ≡ none) where
  abbrev started : CachingSecretSource
  started = record s {
    inflight = OrderedMap.put key s.next s.inflight;
    tasks = update s.tasks s.next (record { key = key; phase = looking });
    next = suc s.next;
  }

  starts : step (get_call key) s ≡ started
  unfolding step
  starts = ground (arith, nobody)

  looks :
      (now : ℕ) (answer : Option (Option String))
      → (get now key s.cache).1 ≡ value_of answer
      → (step (cache_answers s.next now) started).tasks s.next
        ≡ some (record { key = key; phase = later_phase answer })
  unfolding step
  looks now none e = ground (arith, e)
  looks now (some none) e = ground (arith, e)
  looks now (some (some v)) e = ground (arith, e)

-- A read of a key by task `i`, which the source below answers; the cache's write comes only if that
-- was a value.
abbrev pub read_events : ℕ → String → ℕ → ℕ → ℕ → Option (Option String) → List Event
read_events i key now at later answer =
    get_call key ∷ cache_answers i now ∷ inner_answers i answer ∷ cache_stores i at later ∷ []

second_read :
    (s : CachingSecretSource) (key : String)
    → OrderedMap.get key s.inflight ≡ none
    → (again : ℕ) (answer : Option (Option String)) (j : ℕ) → j ≡ s.next
    → (get again key s.cache).1 ≡ value_of answer
    → (run (get_call key ∷ cache_answers j again ∷ []) s).tasks j
      ≡ some (record { key = key; phase = later_phase answer })
unfolding run
second_read s key nobody again answer j same hit =
    subst
      (λ n.
        (step (cache_answers n again) (step (get_call key) s)).tasks n
        ≡ some (record { key = key; phase = later_phase answer }))
      (sym same)
      (ap (λ r. (step (cache_answers s.next again) r).tasks s.next) (starts s key nobody)
        ∙ looks s key nobody again answer hit)

module _ (s : CachingSecretSource) (key : String)
    (nobody : OrderedMap.get key s.inflight ≡ none) where
  abbrev looked : ℕ → CachingSecretSource
  looked now = record (started s key nobody) { cache = (get now key s.cache).0 }

  abbrev in_phase : Phase → CachingSecretSource → CachingSecretSource
  in_phase phase r = record r {
    tasks = update r.tasks s.next (record { key = key; phase = phase });
  }

  looks_miss :
      (now : ℕ)
      → (get now key s.cache).1 ≡ none
      → step (cache_answers s.next now) (started s key nobody) ≡ in_phase asking (looked now)
  unfolding step
  looks_miss now miss = ground (arith, miss)

  inner_gives :
      (now : ℕ) (v : String)
      → step (inner_answers s.next (some (some v))) (in_phase asking (looked now))
        ≡ in_phase (storing v) (in_phase asking (looked now))
  unfolding step
  inner_gives now v = ground arith

  abbrev stored : ℕ → ℕ → ℕ → String → CachingSecretSource
  stored now at later v =
      let r = in_phase (storing v) (in_phase asking (looked now)) in
      let t : Task = record { key = key; phase = storing v } in
      settle s.next t (found v) (record r { cache = set_entry at later key v none r.cache })

  stores :
      (now at later : ℕ) (v : String)
      → step (cache_stores s.next at later) (in_phase (storing v) (in_phase asking (looked now)))
        ≡ stored now at later v
  unfolding step
  stores now at later v = ground arith

  reads :
      (now at later : ℕ) (v : String)
      → (get now key s.cache).1 ≡ none
      → run (read_events s.next key now at later (some (some v))) s ≡ stored now at later v
  unfolding run
  reads now at later v miss =
      ap
        (λ r.
          step (cache_stores s.next at later)
            (step (inner_answers s.next (some (some v))) (step (cache_answers s.next now) r)))
        (starts s key nobody)
      ∙ ap
          (λ r. step (cache_stores s.next at later) (step (inner_answers s.next (some (some v))) r))
          (looks_miss now miss)
      ∙ ap (λ r. step (cache_stores s.next at later) r) (inner_gives now v)
      ∙ stores now at later v

  stored_answer :
      (now at later : ℕ) (v : String)
      → ((stored now at later v).tasks s.next
          ≡ some (record { key = key; phase = settled (found v) }))
        × (OrderedMap.get key (stored now at later v).inflight ≡ none)
        × ((stored now at later v).next ≡ suc s.next)
        × ((stored now at later v).cache ≡ set_entry at later key v none (get now key s.cache).0)
  unfolding settle
  stored_answer now at later v =
      let gone = get-delete_self key (OrderedMap.put key s.next s.inflight) in ground (arith, gone)

  module _ (now at later again : ℕ) (v : String) where
    kept : Option ℕ
    kept = expires at (get now key s.cache).0.expiry_ms

    again_hits :
        let c = (get now key s.cache).0 in
        HasUniqueKeys c.store
        → HasRoom later key c
        → later ≤ again
        → is_live again (record { value = v; expires_at = kept }) ≡ true
        → (get again key (set_entry at later key v none c)).1 ≡ some v
    unfolding kept resolve_ttl_ms
    again_hits u room h live =
        let c = (get now key s.cache).0 in
        get-view_result again key (set_entry at later key v none c)
        ∙ set_entry-view at later again key key v none c u room h
        ∙ ground (arith, live)

    read_again :
        let c = (get now key s.cache).0 in
        (get now key s.cache).1 ≡ none
        → HasUniqueKeys c.store
        → HasRoom later key c
        → later ≤ again
        → is_live again (record { value = v; expires_at = kept }) ≡ true
        → let s' = run (read_events s.next key now at later (some (some v))) s in
          let i = s.next in
          let j = suc s.next in
          (s'.tasks i ≡ some (record { key = key; phase = settled (found v) }))
          × (OrderedMap.get key s'.inflight ≡ none)
          × ((run (get_call key ∷ cache_answers j again ∷ []) s').tasks j
              ≡ some (record { key = key; phase = settled (found v) }))
    read_again miss u room h live =
        let r = reads now at later v miss in
        let out = stored_answer now at later v in
        let s' = stored now at later v in
        let hits : (get again key s'.cache).1 ≡ some v =
          ap (λ c. (get again key c).1) out.3 ∙ again_hits u room h live in
        (
          ap (λ x. x.tasks s.next) r ∙ out.0,
          ap (λ x. OrderedMap.get key x.inflight) r ∙ out.1,
          ap
                (λ x.
                  (run (get_call key ∷ cache_answers (suc s.next) again ∷ []) x).tasks (suc s.next))
                r
              ∙ second_read s' key out.1 again (some (some v)) (suc s.next) (sym out.2) hits,
        )

  -- The state after a read that the source below has no value for, or fails.
  abbrev refused : ℕ → Option (Option String) → CachingSecretSource
  refused now answer =
      let t : Task = record { key = key; phase = asking } in
      settle s.next t (answer_of answer) (in_phase asking (looked now))

  inner_refuses :
      (now : ℕ) (answer : Option (Option String))
      → value_of answer ≡ none
      → step (inner_answers s.next answer) (in_phase asking (looked now)) ≡ refused now answer
  unfolding step
  inner_refuses now none e = ground arith
  inner_refuses now (some none) e = ground arith
  inner_refuses now (some (some v)) e = absurd (cc)

  module _ (now at later : ℕ) (answer : Option (Option String))
      (no_value : value_of answer ≡ none) where
    stores_nothing : step (cache_stores s.next at later) (refused now answer) ≡ refused now answer
    unfolding step settle
    stores_nothing = ground arith

    reads_refused :
        (get now key s.cache).1 ≡ none
        → run (read_events s.next key now at later answer) s ≡ refused now answer
    unfolding run
    reads_refused miss =
        ap
          (λ r.
            step (cache_stores s.next at later)
              (step (inner_answers s.next answer) (step (cache_answers s.next now) r)))
          (starts s key nobody)
        ∙ ap (λ r. step (cache_stores s.next at later) (step (inner_answers s.next answer) r))
            (looks_miss now miss)
        ∙ ap (λ r. step (cache_stores s.next at later) r) (inner_refuses now answer no_value)
        ∙ stores_nothing

    refused-answer :
        ((refused now answer).tasks s.next
          ≡ some (record { key = key; phase = settled (answer_of answer) }))
        × (OrderedMap.get key (refused now answer).inflight ≡ none)
        × ((refused now answer).next ≡ suc s.next)
        × ((refused now answer).cache ≡ (get now key s.cache).0)
    unfolding settle
    refused-answer =
        let gone = get-delete_self key (OrderedMap.put key s.next s.inflight) in
        ground (arith, gone)

  still_missing :
      (now again : ℕ)
      → (get now key s.cache).1 ≡ none
      → now ≤ again
      → (get again key (get now key s.cache).0).1 ≡ none
  unfolding get
  still_missing now again miss h = elim (Option-cases (OrderedMap.get key s.cache.store)) [
    | inl absent ↦ ground (arith, absent)
    | inr (e, there) ↦ elim (Bool-cases (is_live now e)) [
      | inl live ↦ absurd (ground (arith, miss, there, live))
      | inr dead ↦ ground (arith, there, dead, get-delete_self key s.cache.store)
    ]
  ]

  -- What a read and a later read come to.
  abbrev pub Answers : ℕ → ℕ → ℕ → Option (Option String) → ℕ → Type 0
  Answers now at later answer again =
      let s' = run (read_events s.next key now at later answer) s in
      let i = s.next in
      let j = suc s.next in
      (s'.tasks i ≡ some (record { key = key; phase = settled (answer_of answer) }))
      × (OrderedMap.get key s'.inflight ≡ none)
      × ((run (get_call key ∷ cache_answers j again ∷ []) s').tasks j
          ≡ some (record { key = key; phase = later_phase answer }))

  reads_again_refused :
      (now at later again : ℕ) (answer : Option (Option String))
      → value_of answer ≡ none
      → (get now key s.cache).1 ≡ none
      → now ≤ again
      → Answers now at later answer again
  reads_again_refused now at later again answer no_value miss h =
      let r = reads_refused now at later answer no_value miss in
      let out = refused-answer now at later answer no_value in
      let s' = refused now answer in
      let misses : (get again key s'.cache).1 ≡ value_of answer =
        ap (λ c. (get again key c).1) out.3 ∙ still_missing now again miss h ∙ sym no_value in
      (
        ap (λ x. x.tasks s.next) r ∙ out.0,
        ap (λ x. OrderedMap.get key x.inflight) r ∙ out.1,
        ap (λ x. (run (get_call key ∷ cache_answers (suc s.next) again ∷ []) x).tasks (suc s.next))
              r
            ∙ second_read s' key out.1 again answer (suc s.next) (sym out.2) misses,
      )

  -- A read of a key that no read is under way for, which the cache does not know, is answered as the
  -- source below answers, with a value, without one or with a failure, and leaves nothing in flight. A
  -- second read after it, within the time that the cache keeps a value, has the value from the cache
  -- alone, and asks the source below again if there was none. Nothing else happens between these
  -- events, the cache has room for the key, and it keeps what it is given for a time.
  pub read_then_cached :
      (now at later again ms : ℕ) (answer : Option (Option String))
      → let c = (get now key s.cache).0 in
        (get now key s.cache).1 ≡ none
        → HasUniqueKeys c.store
        → HasRoom later key c
        → c.expiry_ms ≡ some ms
        → now ≤ again
        → later ≤ again
        → again < at + ms
        → Answers now at later answer again
  unfolding kept
  read_then_cached now at later again ms none miss u room ttl n h fresh =
      reads_again_refused now at later again none refl miss n
  read_then_cached now at later again ms (some none) miss u room ttl n h fresh =
      reads_again_refused now at later again (some none) refl miss n
  read_then_cached now at later again ms (some (some v)) miss u room ttl n h fresh =
      read_again now at later again v miss u room h (ground (arith, ttl))

  -- With the cache of a source that is made with a time of zero, which the option's doc says disables
  -- the memoization, the second of two such reads has the value from the cache alone however late it
  -- comes, whatever the source below holds then.
  pub zero_ttl_keeps :
      (now at later again : ℕ) (v : String)
      → let c = (get now key s.cache).0 in
        (get now key s.cache).1 ≡ none
        → HasUniqueKeys c.store
        → HasRoom later key c
        → c.expiry_ms ≡ (new_source (some 0)).cache.expiry_ms
        → later ≤ again
        → Answers now at later (some (some v)) again
  unfolding kept new_source new_cache
  zero_ttl_keeps now at later again v miss u room ttl h =
      read_again now at later again v miss u room h (ground (arith, ttl))
