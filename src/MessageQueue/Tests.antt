-- ===== src/MessageQueue/Tests.antt =====
-- Two consumers of one topic, the first of which unsubscribes while it handles the message.
use platform_ts.OrderedMap
use platform_ts.MessageQueue.{
  MemoryBroker, Handlers, Published, subscribe, unsubscribe, publish_message, deliver,
}
use platform_ts.MessageQueue.Broker.{
  handlers_of, subscribed, unsubscribe-subscribe, IsLogged, deliveries, publish_message-deliveries,
}
use platform_ts.Prelude.{
  ℕ, ◌≡◌, refl, Bool, true, false, some, List, [], ◌∷◌, ◌++◌, string_discrete,
}

record World : Type 0 where
  broker : MemoryBroker
  log : List (ℕ × ℕ)

abbrev start : World
start = record { broker = record { subscribers = ("t", 1 ∷ 2 ∷ []) ∷ [] }; log = [] }

-- The handlers throw, once they have logged the message.
abbrev handler : ℕ → ℕ → World → World × Bool
handler h d w = (record { broker = unsubscribe "t" h w.broker; log = w.log ++ (h, d) ∷ [] }, false)

abbrev uncounted : ℕ → World → World
uncounted h w = w

abbrev told : ℕ → World → World × Bool
told h w = (w, true)

abbrev consumers : Handlers ℕ World
consumers = record {
  broker = λ w. w.broker;
  call = λ h. deliver (handler h) (uncounted h) (uncounted h) (told h);
}

consumers-IsLogged : IsLogged consumers (λ w. w.log)
unfolding deliver
consumers-IsLogged = record { logs = λ h d w. refl }

abbrev fresh : Published consumers
fresh = record { world = start; published = 0; publish_errors = 0 }

publish_message-deliveries_example :
    let (p', fine) = publish_message consumers {M = ℕ} (λ m. some m) "t" 7 fresh in
    (fine ≡ true)
    × (p'.published ≡ 1)
    × (p'.world.log ≡ deliveries consumers (λ w. w.log) (handlers_of "t" start.broker) 7)
publish_message-deliveries_example =
    publish_message-deliveries consumers (λ w. w.log) (λ m. some m) "t" 7 7 fresh handler uncounted
      uncounted told (λ h d w. refl) (λ h w. refl) consumers-IsLogged refl

is_new : subscribed 3 (handlers_of "t" start.broker) ≡ false
unfolding OrderedMap.get string_discrete
is_new = refl

unsubscribe-subscribe_example :
    handlers_of "t" (unsubscribe "t" 3 (subscribe "t" 3 start.broker))
    ≡ handlers_of "t" start.broker
unsubscribe-subscribe_example = unsubscribe-subscribe "t" 3 start.broker "t" is_new
