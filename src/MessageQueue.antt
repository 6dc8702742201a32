-- ===== src/MessageQueue.antt =====
-- packages/messagequeue/src/providers/memory.ts: the broker, and the delivery to its consumers. A
-- handler is a number, since a set of functions tells them apart by identity. The providers' caches
-- of publishers and consumers, logs and spans are left out.
pub mod Broker
mod Tests
use platform_ts.OrderedMap
use platform_ts.OrderedMap.{Map}
use platform_ts.Prelude.{
  ℕ, suc, String, Bool, true, false, Option, none, some, List, [], ◌∷◌, ◌==◌, if◌then◌else◌, length,
  set,
}

pub record MemoryBroker : Type 0 where
  pub subscribers : Map (List ℕ)

abbrev pub or_empty : Option (List ℕ) → List ℕ
or_empty none = []
or_empty (some hs) = hs

-- `Set.add` and `Set.delete`.
unfoldable pub add_handler : ℕ → List ℕ → List ℕ
add_handler h [] = h ∷ []
add_handler h (g ∷ gs) = if g == h then g ∷ gs else g ∷ add_handler h gs

unfoldable pub remove_handler : ℕ → List ℕ → List ℕ
remove_handler h [] = []
remove_handler h (g ∷ gs) = if g == h then remove_handler h gs else g ∷ remove_handler h gs

unfoldable pub subscribe : String → ℕ → MemoryBroker → MemoryBroker
unfolding add_handler
subscribe topic h b = record {
  subscribers =
      OrderedMap.put topic (add_handler h (or_empty (OrderedMap.get topic b.subscribers)))
        b.subscribers;
}

-- What `subscribe` returns.
unfoldable pub unsubscribe : String → ℕ → MemoryBroker → MemoryBroker
unfolding remove_handler
unsubscribe topic h b = elim (OrderedMap.get topic b.subscribers) [
  | none ↦ b
  | some hs ↦
      let rest = remove_handler h hs in
      record {
        subscribers =
            if length rest == 0
            then OrderedMap.delete topic b.subscribers
            else OrderedMap.put topic rest b.subscribers;
      }
]

-- What the handlers do to a world that has the broker in it; `false` means that one threw.
pub record Handlers (D W : Type 0) : Type 0 where
  pub broker : W → MemoryBroker
  pub call : ℕ → D → W → W × Bool

module _ {D W : Type 0} (s : Handlers D W) where
  unfoldable pub fan_out : List ℕ → D → W → W × Bool
  fan_out [] d w = (w, true)
  fan_out (h ∷ hs) d w =
      let (w', fine) = s.call h d w in
      let rest = fan_out hs d w' in if fine then rest else (w', false)

  unfoldable pub publish : String → D → W → W × Bool
  unfolding fan_out
  publish topic d w = elim (OrderedMap.get topic (s.broker w).subscribers) [
    | none ↦ (w, true)
    | some hs ↦ fan_out hs d w
  ]

  -- A publisher's counters and the world.
  pub record Published : Type 0 where
    pub world : W
    pub published : ℕ
    pub publish_errors : ℕ

  -- `encode` gives nothing if `encodeJSON` throws; `false` means that the method threw.
  unfoldable pub publish_message :
      {M : Type 0} → (M → Option D) → String → M → Published → Published × Bool
  unfolding publish
  publish_message encode topic m p = elim (encode m) [
    | none ↦ (record p { publish_errors = suc p.publish_errors }, false)
    | some d ↦
        let (w, fine) = publish topic d p.world in
        if fine
        then (record p { world = w; published = suc p.published }, true)
        else (record p { world = w }, false)
  ]

-- The consumer's handler of a message: `consumed` and `consume_errors` count on the world, and
-- `on_error` is told of what the handler throws and may throw itself.
unfoldable pub deliver :
    {D W : Type 0} → (D → W → W × Bool) → (W → W) → (W → W) → (W → W × Bool) → D → W → W × Bool
deliver handler consumed consume_errors on_error d w =
    let (w', fine) = handler d w in
    if fine then (consumed w', true) else on_error (consume_errors w')
