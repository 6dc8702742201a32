-- ===== src/Secrets/Tests.antt =====
-- A source that is read twice at a time, and again later.
use platform_ts.OrderedMap
use platform_ts.OrderedMap.{Map}
use platform_ts.OrderedMap.Laws.{HasUniqueKeys}
use platform_ts.Cache.Memory.{new_cache, get}
use platform_ts.Cache.Memory.Views.{HasRoom}
use platform_ts.Secrets.{
  asking, Task, is_settled, CachingSecretSource, new_source, get_secret, Event, get_call,
  cache_answers, run,
}
use platform_ts.Secrets.Sharing.{reads_share}
use platform_ts.Secrets.Answers.{Answers, read_then_cached, zero_ttl_keeps}
use platform_ts.Prelude.{ℕ, ◌≡◌, refl, false, none, some, List, [], ◌∷◌, arith, string_discrete}

abbrev waiting : Task
waiting = record { key = "db"; phase = asking }

abbrev calls : List Event
calls = get_call "db" ∷ get_call "db" ∷ cache_answers 0 5 ∷ []

is_waiting : (run calls (new_source none)).tasks 0 ≡ some waiting
unfolding run new_source get OrderedMap.get OrderedMap.put string_discrete new_cache
is_waiting = refl

reads_share_example :
    ((j : ℕ) (u : Task)
      → (run calls (new_source none)).tasks j ≡ some u
      → is_settled u.phase ≡ false
      → u.key ≡ "db"
      → 0 ≡ j)
    × (get_secret "db" (run calls (new_source none)) ≡ (run calls (new_source none), 0))
reads_share_example = reads_share none calls 0 waiting is_waiting refl

abbrev source : CachingSecretSource
source = record {
  cache = record { store = []; expiry_ms = some 30000; max_entries = some 9; hits = 0; misses = 0 };
  inflight = [];
  tasks = λ i. none;
  next = 0;
}

nobody : OrderedMap.get "db" source.inflight ≡ none
unfolding OrderedMap.get
nobody = refl

miss : (get 5 "db" source.cache).1 ≡ none
unfolding get OrderedMap.get
miss = refl

unique : HasUniqueKeys (get 5 "db" source.cache).0.store
unfolding get OrderedMap.get
unique = tt

room : HasRoom 7 "db" (get 5 "db" source.cache).0
unfolding get OrderedMap.get OrderedMap.keep
room n e k = ground (arith, e)

ttl : (get 5 "db" source.cache).0.expiry_ms ≡ some 30000
unfolding get OrderedMap.get
ttl = refl

read_then_cached_example : Answers source "db" nobody 5 6 7 (some (some "pw")) 90
read_then_cached_example =
    read_then_cached source "db" nobody 5 6 7 90 30000 (some (some "pw")) miss unique room ttl
      (omega arith) (omega arith) (omega arith)

abbrev forever : CachingSecretSource
forever = record source { cache = record source.cache { expiry_ms = none } }

never_ends : (get 5 "db" forever.cache).0.expiry_ms ≡ (new_source (some 0)).cache.expiry_ms
unfolding get OrderedMap.get new_source new_cache
never_ends = refl

zero_ttl_keeps_example : Answers forever "db" nobody 5 6 7 (some (some "old")) 99999999
unfolding get OrderedMap.get
zero_ttl_keeps_example =
    zero_ttl_keeps forever "db" nobody 5 6 7 99999999 "old" miss unique room never_ends
      (omega arith)
