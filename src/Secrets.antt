-- ===== src/Secrets.antt =====
-- packages/secrets/src/providers/caching.ts: the memoizing source over another one, with the cache of
-- Cache.Memory. Each read is a task, which goes on when the cache or the source below answers.
pub mod Sharing
pub mod Answers
mod Tests
use platform_ts.OrderedMap
use platform_ts.OrderedMap.{Map}
use platform_ts.Cache.Memory.{Cache, new_cache, get, set_entry}
use platform_ts.Prelude.{
  ℕ, suc, String, Bool, true, false, Option, none, some, List, [], ◌∷◌, ◌==◌, if◌then◌else◌,
}

-- What a promise settles to.
pub data Answer : Type 0 where
  found : String → Answer
  missing failed : Answer

-- A read waits for the cache, for the source below or for its own write to the cache, or is settled.
pub data Phase : Type 0 where
  looking asking : Phase
  storing : String → Phase
  settled : Answer → Phase

pub record Task : Type 0 where
  pub key : String
  pub phase : Phase

abbrev pub is_settled : Phase → Bool
is_settled looking = false
is_settled asking = false
is_settled (storing v) = false
is_settled (settled a) = true

-- `inflight` gives a key's task by its number.
pub record CachingSecretSource : Type 0 where
  pub cache : Cache String
  pub inflight : Map ℕ
  pub tasks : ℕ → Option Task
  pub next : ℕ

abbrev pub default_secret_ttl_ms : ℕ
default_secret_ttl_ms = 30000

abbrev pub or_default_ttl : Option ℕ → ℕ
or_default_ttl none = default_secret_ttl_ms
or_default_ttl (some ms) = ms

unfoldable pub new_source : Option ℕ → CachingSecretSource
new_source ttl_ms = record {
  cache = new_cache (some (or_default_ttl ttl_ms)) none;
  inflight = [];
  tasks = λ i. none;
  next = 0;
}

abbrev pub update : (ℕ → Option Task) → ℕ → Task → ℕ → Option Task
update tasks i t j = if i == j then some t else tasks j

-- `get`, which gives the number of the task whose promise it returns.
unfoldable pub get_secret : String → CachingSecretSource → CachingSecretSource × ℕ
get_secret key s = elim (OrderedMap.get key s.inflight) [
  | some pending ↦ (s, pending)
  | none ↦ (
    record s {
      inflight = OrderedMap.put key s.next s.inflight;
      tasks = update s.tasks s.next (record { key = key; phase = looking });
      next = suc s.next;
    },
    s.next,
  )
]

unfoldable pub move : ℕ → Task → Phase → CachingSecretSource → CachingSecretSource
move i t phase s = record s { tasks = update s.tasks i (record t { phase = phase }) }

-- A task that settles leaves `inflight`.
unfoldable pub settle : ℕ → Task → Answer → CachingSecretSource → CachingSecretSource
unfolding move
settle i t answer s =
    let s' = move i t (settled answer) s in
    record s' { inflight = OrderedMap.delete t.key s'.inflight }

unfoldable pub after_lookup : ℕ → Task → Option String → CachingSecretSource → CachingSecretSource
unfolding settle move
after_lookup i t (some v) s = settle i t (found v) s
after_lookup i t none s = move i t asking s

-- What the source below gives: `none` if it throws.
unfoldable pub after_inner :
    ℕ → Task → Option (Option String) → CachingSecretSource → CachingSecretSource
unfolding settle move
after_inner i t none s = settle i t failed s
after_inner i t (some none) s = settle i t missing s
after_inner i t (some (some v)) s = move i t (storing v) s

-- A caller reads a key, and the cache, the source below, or the cache's write answers a task.
pub data Event : Type 0 where
  get_call : String → Event
  cache_answers : ℕ → ℕ → Event
  inner_answers : ℕ → Option (Option String) → Event
  cache_stores : ℕ → ℕ → ℕ → Event

unfoldable pub on_lookup : ℕ → ℕ → Task → Phase → CachingSecretSource → CachingSecretSource
unfolding after_lookup
on_lookup i now t looking s =
    let (cache, value) = get now t.key s.cache in
    after_lookup i t value (record s { cache = cache })
on_lookup i now t phase s = s

unfoldable pub on_inner :
    ℕ → Option (Option String) → Task → Phase → CachingSecretSource → CachingSecretSource
unfolding after_inner
on_inner i value t asking s = after_inner i t value s
on_inner i value t phase s = s

unfoldable pub on_store : ℕ → ℕ → ℕ → Task → Phase → CachingSecretSource → CachingSecretSource
unfolding settle
on_store i now later t (storing v) s =
    settle i t (found v) (record s { cache = set_entry now later t.key v none s.cache })
on_store i now later t phase s = s

abbrev pub with_task :
    ℕ
    → (Task → CachingSecretSource → CachingSecretSource)
    → CachingSecretSource
    → CachingSecretSource
with_task i f s = elim (s.tasks i) [ none ↦ s | some t ↦ f t s ]

unfoldable pub step : Event → CachingSecretSource → CachingSecretSource
unfolding get_secret on_lookup on_inner on_store
step (get_call key) s = (get_secret key s).0
step (cache_answers i now) s = with_task i (λ t. on_lookup i now t t.phase) s
step (inner_answers i value) s = with_task i (λ t. on_inner i value t t.phase) s
step (cache_stores i now later) s = with_task i (λ t. on_store i now later t t.phase) s

unfoldable pub run : List Event → CachingSecretSource → CachingSecretSource
unfolding step
run [] s = s
run (e ∷ es) s = run es (step e s)
