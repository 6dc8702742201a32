-- ===== src/CircuitBreaking/Partitions.antt =====
-- The partitioned breaker: one breaker for each key, made on first use.
use platform_ts.Prelude.{String, ◌≡◌, ◌∙◌, ◌≢◌, inl, inr, none, some, Option-cases}
use platform_ts.OrderedMap
use platform_ts.OrderedMap.{Map}
use platform_ts.OrderedMap.Laws.{get-put_self, get-put_ne}
use platform_ts.CircuitBreaking.{Config, Breaker, fresh, Call, step}

abbrev pub Partitions : Type 0
Partitions = Map Breaker

-- `forPartition`: the map with the breaker in it, and the breaker.
unfoldable pub for_partition : String → Partitions → Partitions × Breaker
unfolding fresh
for_partition key ps = elim (OrderedMap.get key ps) [
  | some b ↦ (ps, b)
  | none ↦ (OrderedMap.put key fresh ps, fresh)
]

abbrev pub default_partition : String
default_partition = "default"

-- A partition's breaker, or the fresh one that it would start as.
unfoldable pub breaker_of : String → Partitions → Breaker
breaker_of key ps = elim (OrderedMap.get key ps) [ some b ↦ b | none ↦ fresh ]

module _ (c : Config) where
  -- A method of the breaker that `forPartition` hands out, which is the one in the map.
  unfoldable pub call_partition : String → Call c → Partitions → Partitions
  unfolding for_partition
  call_partition key e ps =
      let (ps', b) = for_partition key ps in OrderedMap.put key (step c e b) ps'

  -- The manager's own methods.
  unfoldable pub call_default : Call c → Partitions → Partitions
  unfolding call_partition
  call_default = call_partition default_partition

  -- A call on one partition steps that partition's breaker, from the fresh state on first use.
  pub call_partition_self :
      (key : String) (e : Call c) (ps : Partitions)
      → OrderedMap.get key (call_partition key e ps) ≡ some (step c e (breaker_of key ps))
  unfolding call_partition breaker_of
  call_partition_self key e ps = elim (Option-cases (OrderedMap.get key ps)) [
    | inl new ↦ rw (new, for_partition, breaker_of) (get-put_self key _ _)
    | inr (b, known) ↦ rw (known, for_partition, breaker_of) (get-put_self key _ _)
  ]

  -- And it leaves every other partition as it was.
  pub call_partition_ne :
      (key other : String) (call : Call c) (ps : Partitions)
      → key ≢ other
      → OrderedMap.get other (call_partition key call ps) ≡ OrderedMap.get other ps
  unfolding call_partition
  call_partition_ne key other call ps h = elim (Option-cases (OrderedMap.get key ps)) [
    | inl e ↦
        rw (e, for_partition)
          (get-put_ne key other _ (OrderedMap.put key fresh ps) h ∙ get-put_ne key other fresh ps h)
    | inr (b, e) ↦ rw (e, for_partition) (get-put_ne key other _ ps h)
  ]
