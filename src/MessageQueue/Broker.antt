-- ===== src/MessageQueue/Broker.antt =====
-- Who gets what is published.
use platform_ts.OrderedMap
use platform_ts.OrderedMap.{Map}
use platform_ts.OrderedMap.Laws.{get-put_self, get-put_ne, get-delete_self, get-delete_ne}
use mathlib.Core.List.{append_assoc, append-nil}
use platform_ts.MessageQueue.{
  MemoryBroker, or_empty, add_handler, remove_handler, subscribe, unsubscribe, Handlers, fan_out,
  publish, deliver, publish_message, Published,
}
use platform_ts.Prelude.{
  ℕ, suc, String, ◌≡◌, refl, sym, ap, ◌∙◌, inl, inr, ite, Bool, true, false, ◌||◌, Option, some,
  List, [], ◌∷◌, ◌++◌, arith, string_discrete, ◌==◌, Option-cases, length,
}

-- The handlers of a topic, in the order in which they subscribed.
abbrev pub handlers_of : String → MemoryBroker → List ℕ
handlers_of topic b = or_empty (OrderedMap.get topic b.subscribers)

pub subscribe-handlers_of :
    (topic : String) (h : ℕ) (b : MemoryBroker) (other : String)
    → handlers_of other (subscribe topic h b)
      ≡ ite
          (string_discrete topic other)
          (add_handler h (handlers_of topic b))
          (handlers_of other b)
unfolding subscribe
subscribe-handlers_of topic h b other =
    let hs = add_handler h (handlers_of topic b) in
    elim (string_discrete topic other) [
      | yes same ↦ ground (arith, same, get-put_self topic hs b.subscribers)
      | no ne ↦ ground (arith, ne, get-put_ne topic other hs b.subscribers ne)
    ]

pub length-empty : (hs : List ℕ) → length hs ≡ 0 → hs ≡ []
length-empty [] e = refl
length-empty (h ∷ hs) e = absurd (omega arith)

pub unsubscribe-handlers_of :
    (topic : String) (h : ℕ) (b : MemoryBroker) (other : String)
    → handlers_of other (unsubscribe topic h b)
      ≡ ite
          (string_discrete topic other)
          (remove_handler h (handlers_of topic b))
          (handlers_of other b)
unfolding unsubscribe remove_handler
unsubscribe-handlers_of topic h b other = elim (Option-cases (OrderedMap.get topic b.subscribers)) [
  | inl none_there ↦ elim (string_discrete topic other) [
    | yes same ↦ ground (arith, same, none_there)
    | no ne ↦ ground (arith, ne, none_there)
  ]
  | inr (hs, there) ↦
      let rest = remove_handler h hs in
      elim (string_discrete topic other) [
        | yes same ↦ ground (
          arith,
          same,
          there,
          get-put_self topic rest b.subscribers,
          get-delete_self topic b.subscribers,
          length-empty rest,
        )
        | no ne ↦ ground (
          arith,
          ne,
          there,
          get-put_ne topic other rest b.subscribers ne,
          get-delete_ne topic other b.subscribers ne,
        )
      ]
]

abbrev pub subscribed : ℕ → List ℕ → Bool
subscribed h [] = false
subscribed h (g ∷ gs) = (g == h) || subscribed h gs

remove_handler-absent : (h : ℕ) (hs : List ℕ) → subscribed h hs ≡ false → remove_handler h hs ≡ hs
unfolding remove_handler
remove_handler-absent h [] e = refl
remove_handler-absent h (g ∷ gs) e = ground (arith, remove_handler-absent h gs)

pub remove_handler-add_handler :
    (h : ℕ) (hs : List ℕ) → subscribed h hs ≡ false → remove_handler h (add_handler h hs) ≡ hs
unfolding remove_handler add_handler
remove_handler-add_handler h [] e = ground arith
remove_handler-add_handler h (g ∷ gs) e = ground (arith, remove_handler-add_handler h gs)

-- To unsubscribe a handler that was not subscribed before undoes its subscription: every topic has
-- the handlers that it had.
pub unsubscribe-subscribe :
    (topic : String) (h : ℕ) (b : MemoryBroker) (other : String)
    → subscribed h (handlers_of topic b) ≡ false
    → handlers_of other (unsubscribe topic h (subscribe topic h b)) ≡ handlers_of other b
unsubscribe-subscribe topic h b other new = elim (string_discrete topic other) [
  | yes same ↦ ground (
    arith,
    same,
    unsubscribe-handlers_of topic h (subscribe topic h b) other,
    subscribe-handlers_of topic h b topic,
    remove_handler-add_handler h (handlers_of topic b) new,
  )
  | no ne ↦ ground (
    arith,
    ne,
    unsubscribe-handlers_of topic h (subscribe topic h b) other,
    subscribe-handlers_of topic h b other,
  )
]

module _ {D W : Type 0} (s : Handlers D W) (log : W → List (ℕ × D)) where
  -- Each call is logged, and logs nothing else: it publishes no message itself.
  pub record IsLogged : Type 0 where
    pub logs : (h : ℕ) (d : D) (w : W) → log (s.call h d w).0 ≡ log w ++ (h, d) ∷ []

  abbrev pub deliveries : List ℕ → D → List (ℕ × D)
  deliveries [] d = []
  deliveries (h ∷ hs) d = (h, d) ∷ deliveries hs d

  fan_out-log :
      (hs : List ℕ) (d : D) (w : W)
      → IsLogged
      → (fan_out s hs d w).1 ≡ true
      → log (fan_out s hs d w).0 ≡ log w ++ deliveries hs d
  unfolding fan_out
  fan_out-log [] d w v h = sym (append-nil (log w))
  fan_out-log (g ∷ gs) d w v h =
      let called = s.call g d w in
      let fine : called.1 ≡ true = ground (arith, h) in
      let rest = fan_out-log gs d called.0 v (ground (arith, h, fine)) in
      ground (arith, fine, rest, v.logs g d w, append_assoc (log w) ((g, d) ∷ []) (deliveries gs d))

  fan_out_fine :
      (hs : List ℕ) (d : D) (w : W)
      → ((h : ℕ) (w : W) → (s.call h d w).1 ≡ true)
      → (fan_out s hs d w).1 ≡ true
  unfolding fan_out
  fan_out_fine [] d w fine = refl
  fan_out_fine (g ∷ gs) d w fine = ground (arith, fine g w, fan_out_fine gs d (s.call g d w).0 fine)

  -- A message goes once to each handler that its topic has when it is published, in the order of
  -- their subscriptions and to no other, whatever subscriptions the handlers change meanwhile, if no
  -- handler throws and none publishes anything itself.
  pub publish-deliveries :
      (topic : String) (d : D) (w : W)
      → IsLogged
      → ((h : ℕ) (w : W) → (s.call h d w).1 ≡ true)
      → ((publish s topic d w).1 ≡ true)
        × (log (publish s topic d w).0 ≡ log w ++ deliveries (handlers_of topic (s.broker w)) d)
  unfolding publish
  publish-deliveries topic d w v fine =
      elim (Option-cases (OrderedMap.get topic (s.broker w).subscribers)) [
        | inl nobody ↦ ground (arith, nobody, append-nil (log w))
        | inr (hs, there) ↦
            let all = fan_out_fine hs d w fine in
            ground (arith, there, all, fan_out-log hs d w v all)
      ]

-- A consumer's handler does not throw, even if the one that it was given does.
deliver_fine :
    {D W : Type 0} (handler : D → W → W × Bool) (consumed consume_errors : W → W)
    (on_error : W → W × Bool) (d : D) (w : W)
    → ((w : W) → (on_error w).1 ≡ true)
    → (deliver handler consumed consume_errors on_error d w).1 ≡ true
unfolding deliver
deliver_fine handler consumed consume_errors on_error d w told =
    ground (arith, told (consume_errors (handler d w).0))

module _ {D W M : Type 0} (s : Handlers D W) (log : W → List (ℕ × D)) where
  -- A message that can be encoded goes once to each consumer that its topic has when it is
  -- published, in the order of their subscriptions and to no other, and is counted as published,
  -- even if the consumers' own handlers throw and whatever subscriptions they change meanwhile, as
  -- long as what is told of a throw does not throw itself and the handlers publish nothing.
  pub publish_message-deliveries :
      (encode : M → Option D) (topic : String) (m : M) (d : D) (p : Published s)
      (handler : ℕ → D → W → W × Bool) (consumed consume_errors : ℕ → W → W)
      (on_error : ℕ → W → W × Bool)
      → ((h : ℕ) (d : D) (w : W)
          → s.call h d w ≡ deliver (handler h) (consumed h) (consume_errors h) (on_error h) d w)
      → ((h : ℕ) (w : W) → (on_error h w).1 ≡ true)
      → IsLogged s log
      → encode m ≡ some d
      → let (p', fine) = publish_message s encode topic m p in
        (fine ≡ true)
        × (p'.published ≡ suc p.published)
        × (log p'.world ≡ log p.world ++ deliveries s log (handlers_of topic (s.broker p.world)) d)
  unfolding publish_message
  publish_message-deliveries encode topic m d p handler consumed consume_errors on_error is told v
        fit =
      let sent = publish-deliveries s log topic d p.world v (λ h w.
        ap (λ x. x.1) (is h d w)
        ∙ deliver_fine (handler h) (consumed h) (consume_errors h) (on_error h) d w (told h)) in
      ground (arith, fit, sent)
