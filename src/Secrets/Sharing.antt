-- ===== src/Secrets/Sharing.antt =====
-- Reads of one key share a task.
use platform_ts.OrderedMap
use platform_ts.OrderedMap.{Map}
use platform_ts.OrderedMap.Laws.{get-put_self, get-put_ne, get-delete_self, get-delete_ne}
use platform_ts.Cache.Memory.{Cache, get, set_entry}
use platform_ts.Secrets.{
  Answer, found, missing, failed, Phase, looking, asking, storing, settled, Task, is_settled,
  CachingSecretSource, new_source, update, get_secret, move, settle, after_lookup, Event, get_call,
  cache_answers, inner_answers, cache_stores, on_lookup, on_inner, on_store, with_task, step, run,
}
use platform_ts.Prelude.{
  ℕ, suc, ◌<◌, String, ◌≡◌, refl, sym, ap, subst, ◌∙◌, ◌≢◌, inl, inr, false, Option, none, some,
  List, [], ◌∷◌, arith, ℕ_discrete, string_discrete, Option-cases,
}

-- The tasks in flight are just those that are not settled, each under its key.
pub record IsValid (s : CachingSecretSource) : Type 0 where
  pub registered :
      (i : ℕ) (t : Task)
      → s.tasks i ≡ some t
      → is_settled t.phase ≡ false
      → OrderedMap.get t.key s.inflight ≡ some i
  pub live :
      (key : String) (i : ℕ)
      → OrderedMap.get key s.inflight ≡ some i
      → (t : Task) × (s.tasks i ≡ some t) × (t.key ≡ key) × (is_settled t.phase ≡ false)
  pub old : (i : ℕ) (t : Task) → s.tasks i ≡ some t → i < s.next

new_source-IsValid : (ttl : Option ℕ) → IsValid (new_source ttl)
unfolding new_source OrderedMap.get
new_source-IsValid ttl = record {
  registered = λ i t e u. cc e;
  live = λ key i e. cc e;
  old = λ i t e. cc e;
}

update_self : (tasks : ℕ → Option Task) (i : ℕ) (t : Task) → update tasks i t i ≡ some t
update_self tasks i t = ground arith

update_ne : (tasks : ℕ → Option Task) (i j : ℕ) (t : Task) → i ≢ j → update tasks i t j ≡ tasks j
update_ne tasks i j t ne = ground (arith, ne)

module _ (s : CachingSecretSource) (v : IsValid s) where
  module _ (i : ℕ) (t : Task) (at : s.tasks i ≡ some t) (active : is_settled t.phase ≡ false) where
    own_key : (key : String) → OrderedMap.get key s.inflight ≡ some i → t.key ≡ key
    own_key key e = let (t', at', k, w) = v.live key i e in ground (arith, at, at', k)

    move-IsValid : (phase : Phase) → is_settled phase ≡ false → IsValid (move i t phase s)
    unfolding move
    move-IsValid phase on = record {
      registered = λ j u e w. elim (ℕ_discrete i j) [
        | yes same ↦ ground (arith, same, e, v.registered i t at active)
        | no ne ↦ ground (arith, ne, e, v.registered j u)
      ];
      live = λ key j e. elim (ℕ_discrete i j) [
        | yes same ↦
            let k = own_key key (e ∙ ap (λ n. some n) (sym same)) in
            (record t { phase = phase }, ground (arith, same), k, on)
        | no ne ↦
            let (u, at', k, w) = v.live key j e in
            (u, update_ne s.tasks i j (record t { phase = phase }) ne ∙ at', k, w)
      ];
      old = λ j u e. elim (ℕ_discrete i j) [
        | yes same ↦ ground (arith, same, v.old i t at)
        | no ne ↦ ground (arith, ne, e, v.old j u)
      ];
    }

    settle-IsValid : (answer : Answer) → IsValid (settle i t answer s)
    unfolding settle
    settle-IsValid answer = record {
      registered = λ j u e w. elim (ℕ_discrete i j) [
        | yes same ↦ ground (arith, same, e, w)
        | no ne ↦ elim (string_discrete t.key u.key) [
          | yes shared ↦
              let mine = v.registered i t at active in
              let theirs = v.registered j u (ground (arith, ne, e)) w in
              ground (arith, ne, shared, mine, theirs)
          | no differ ↦
              let theirs = v.registered j u (ground (arith, ne, e)) w in
              get-delete_ne t.key u.key s.inflight differ ∙ theirs
        ]
      ];
      live = λ key j e. elim (string_discrete t.key key) [
        | yes shared ↦
            let gone = get-delete_self t.key s.inflight in ground (arith, shared, gone, e)
        | no differ ↦
            let (u, at', k, w) =
              v.live key j (sym (get-delete_ne t.key key s.inflight differ) ∙ e) in
            (
              u,
              update_ne s.tasks i j (record t { phase = settled answer })
                    (λ same. differ (
                      own_key key (
                        sym (get-delete_ne t.key key s.inflight differ)
                        ∙ e
                        ∙ ap (λ n. some n) (sym same))))
                  ∙ at',
              k,
              w,
            )
      ];
      old = λ j u e. elim (ℕ_discrete i j) [
        | yes same ↦ ground (arith, same, v.old i t at)
        | no ne ↦ ground (arith, ne, e, v.old j u)
      ];
    }

  get_secret_pending :
      (key : String) (i : ℕ) → OrderedMap.get key s.inflight ≡ some i → s ≡ (get_secret key s).0
  unfolding get_secret
  get_secret_pending key i pending = ground (arith, pending)

  cached-IsValid : (cache : Cache String) → IsValid (record s { cache = cache })
  cached-IsValid cache = record { registered = v.registered; live = v.live; old = v.old }

  start-IsValid :
      (key : String) → OrderedMap.get key s.inflight ≡ none → IsValid (get_secret key s).0
  unfolding get_secret
  start-IsValid key nobody =
      let t : Task = record { key = key; phase = looking } in
      let now : CachingSecretSource = record s {
        inflight = OrderedMap.put key s.next s.inflight;
        tasks = update s.tasks s.next t;
        next = suc s.next;
      } in
      let started : IsValid now = record {
        registered = λ j u e w. elim (ℕ_discrete s.next j) [
          | yes same ↦ ground (arith, same, e, get-put_self key s.next s.inflight)
          | no ne ↦
              let theirs = v.registered j u (ground (arith, ne, e)) w in
              elim (string_discrete key u.key) [
                | yes shared ↦ ground (arith, shared, theirs, nobody)
                | no differ ↦ get-put_ne key u.key s.next s.inflight differ ∙ theirs
              ]
        ];
        live = λ k j e. elim (string_discrete key k) [
          | yes shared ↦
              let mine : s.next ≡ j =
                ground (arith, shared, e, get-put_self key s.next s.inflight) in
              (t, ground (arith, mine), shared, refl)
          | no differ ↦
              let (u, at, k', w) =
                v.live k j (sym (get-put_ne key k s.next s.inflight differ) ∙ e) in
              (u, ground (arith, at, v.old j u at), k', w)
        ];
        old = λ j u e. elim (ℕ_discrete s.next j) [
          | yes same ↦ ground (arith, same)
          | no ne ↦ ground (arith, ne, e, v.old j u)
        ];
      } in
      let same : now ≡ (get_secret key s).0 = ground (arith, nobody) in subst IsValid same started

  get_secret-IsValid : (key : String) → IsValid (get_secret key s).0
  get_secret-IsValid key = elim (Option-cases (OrderedMap.get key s.inflight)) [
    | inl nobody ↦ start-IsValid key nobody
    | inr (i, pending) ↦ subst IsValid (get_secret_pending key i pending) v
  ]

module _ (s : CachingSecretSource) (v : IsValid s) (i : ℕ) where
  on_lookup-IsValid :
      (now : ℕ) (t : Task) (phase : Phase)
      → s.tasks i ≡ some t
      → t.phase ≡ phase
      → IsValid (on_lookup i now t phase s)
  unfolding on_lookup
  on_lookup-IsValid now t looking at is =
      let s' = record s { cache = (get now t.key s.cache).0 } in
      let w = cached-IsValid s v (get now t.key s.cache).0 in
      let active : is_settled t.phase ≡ false = rw is refl in
      looked s' w t at active (get now t.key s.cache).1
    where
      looked :
          (s : CachingSecretSource) (w : IsValid s) (t : Task)
          → s.tasks i ≡ some t
          → is_settled t.phase ≡ false
          → (value : Option String) → IsValid (after_lookup i t value s)
      looked s w t at active none = move-IsValid s w i t at active asking refl
      looked s w t at active (some x) = settle-IsValid s w i t at active (found x)
  on_lookup-IsValid now t asking at is = v
  on_lookup-IsValid now t (storing x) at is = v
  on_lookup-IsValid now t (settled a) at is = v

  on_inner-IsValid :
      (value : Option (Option String)) (t : Task) (phase : Phase)
      → s.tasks i ≡ some t
      → t.phase ≡ phase
      → IsValid (on_inner i value t phase s)
  unfolding on_inner
  on_inner-IsValid none t asking at is = settle-IsValid s v i t at (rw is refl) failed
  on_inner-IsValid (some none) t asking at is = settle-IsValid s v i t at (rw is refl) missing
  on_inner-IsValid (some (some x)) t asking at is =
      move-IsValid s v i t at (rw is refl) (storing x) refl
  on_inner-IsValid value t looking at is = v
  on_inner-IsValid value t (storing x) at is = v
  on_inner-IsValid value t (settled a) at is = v

  on_store-IsValid :
      (now later : ℕ) (t : Task) (phase : Phase)
      → s.tasks i ≡ some t
      → t.phase ≡ phase
      → IsValid (on_store i now later t phase s)
  unfolding on_store
  on_store-IsValid now later t (storing x) at is =
      let cache = set_entry now later t.key x none s.cache in
      settle-IsValid (record s { cache = cache }) (cached-IsValid s v cache) i t at (rw is refl)
        (found x)
  on_store-IsValid now later t looking at is = v
  on_store-IsValid now later t asking at is = v
  on_store-IsValid now later t (settled a) at is = v

  with_task-IsValid :
      (f : Task → CachingSecretSource → CachingSecretSource)
      → ((t : Task) → s.tasks i ≡ some t → IsValid (f t s))
      → IsValid (with_task i f s)
  with_task-IsValid f keep =
      let choose : Option Task → CachingSecretSource = λ o. elim o [ none ↦ s | some t ↦ f t s ] in
      let chosen = λ (o : Option Task) (e : o ≡ s.tasks i) (w : IsValid (choose o)).
        subst (λ x. IsValid (choose x)) e w in
      elim (Option-cases (s.tasks i)) [
        | inl nothing ↦ chosen none (sym nothing) v
        | inr (t, at) ↦ chosen (some t) (sym at) (keep t at)
      ]

step-IsValid : (e : Event) (s : CachingSecretSource) → IsValid s → IsValid (step e s)
unfolding step
step-IsValid (get_call key) s v = get_secret-IsValid s v key
step-IsValid (cache_answers i now) s v =
    with_task-IsValid s v i (λ t. on_lookup i now t t.phase)
      (λ t at. on_lookup-IsValid s v i now t t.phase at refl)
step-IsValid (inner_answers i value) s v =
    with_task-IsValid s v i (λ t. on_inner i value t t.phase)
      (λ t at. on_inner-IsValid s v i value t t.phase at refl)
step-IsValid (cache_stores i now later) s v =
    with_task-IsValid s v i (λ t. on_store i now later t t.phase)
      (λ t at. on_store-IsValid s v i now later t t.phase at refl)

run_keeps : (es : List Event) (s : CachingSecretSource) → IsValid s → IsValid (run es s)
unfolding run
run_keeps [] s v = v
run_keeps (e ∷ es) s v = run_keeps es (step e s) (step-IsValid e s v)

-- Whatever callers read and whatever the cache and the source below answer, in any order, two reads of
-- one key that are both under way are one task, so that the source below is asked for a key by one
-- task at a time; and a call for the key joins that task and starts nothing.
pub reads_share :
    (ttl : Option ℕ) (es : List Event) (i : ℕ) (t : Task)
    → let s = run es (new_source ttl) in
      s.tasks i ≡ some t
      → is_settled t.phase ≡ false
      → ((j : ℕ) (u : Task)
          → s.tasks j ≡ some u
          → is_settled u.phase ≡ false
          → u.key ≡ t.key
          → i ≡ j)
        × (get_secret t.key s ≡ (s, i))
unfolding get_secret
reads_share ttl es i t at active =
    let s = run es (new_source ttl) in
    let v = run_keeps es (new_source ttl) (new_source-IsValid ttl) in
    let mine = v.registered i t at active in
    (
      λ j u at' active' same.
          let theirs = v.registered j u at' active' in
          let both = sym mine ∙ ap (λ k. OrderedMap.get k s.inflight) (sym same) ∙ theirs in
          cc both,
      ground (arith, mine),
    )
