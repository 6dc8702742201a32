-- ===== src/EventStream/Subscribers.antt =====
-- packages/eventstream/src/providers/emitter.ts: the handlers of a named event. The sets of handlers
-- are objects, since the function that `on` returns keeps hold of one.
use platform_ts.OrderedMap
use platform_ts.OrderedMap.{Map}
use platform_ts.OrderedMap.Laws.{get-put_self, get-put_ne, get-delete_self, get-delete_ne}
use platform_ts.MessageQueue.{add_handler, remove_handler}
use platform_ts.MessageQueue.Broker.{subscribed, remove_handler-add_handler, length-empty}
use platform_ts.Prelude.{
  ℕ, suc, ◌<◌, String, ◌≡◌, ap, subst, ◌∙◌, ◌≢◌, inl, inr, false, none, some, List, [], ◌∷◌, arith,
  ℕ_discrete, string_discrete, ◌==◌, if◌then◌else◌, Option-cases, length,
}

-- The objects by their numbers, and the map from events to them.
pub record Subscribers : Type 0 where
  pub sets : ℕ → List ℕ
  pub next_set : ℕ
  pub event_handlers : Map ℕ

abbrev pub update : (ℕ → List ℕ) → ℕ → List ℕ → ℕ → List ℕ
update sets i hs j = if i == j then hs else sets j

-- The set of an event, made if there is none.
unfoldable pub set_for : String → Subscribers → Subscribers × ℕ
set_for event s = elim (OrderedMap.get event s.event_handlers) [
  | some i ↦ (s, i)
  | none ↦ (
    record {
      sets = update s.sets s.next_set [];
      next_set = suc s.next_set;
      event_handlers = OrderedMap.put event s.next_set s.event_handlers;
    },
    s.next_set,
  )
]

-- The new state, and the set that the function returned by `on` keeps.
unfoldable pub on : String → ℕ → Subscribers → Subscribers × ℕ
unfolding set_for add_handler
on event handler s =
    let (s', i) = set_for event s in
    (record s' { sets = update s'.sets i (add_handler handler (s'.sets i)) }, i)

-- What the function does that `on` returned for a handler and a set.
unfoldable pub unsubscribe : String → ℕ → ℕ → Subscribers → Subscribers
unfolding remove_handler
unsubscribe event handler i s =
    let rest = remove_handler handler (s.sets i) in
    record s {
      sets = update s.sets i rest;
      event_handlers =
          if length rest == 0 then OrderedMap.delete event s.event_handlers else s.event_handlers;
    }

-- Whom a message of an event goes to.
abbrev pub handlers_of : String → Subscribers → List ℕ
handlers_of event s = elim (OrderedMap.get event s.event_handlers) [ none ↦ [] | some i ↦ s.sets i ]

-- No two events share a set, no number is used twice, and no event has an empty set.
pub record IsValid (s : Subscribers) : Type 0 where
  pub old :
      (event : String) (i : ℕ) → OrderedMap.get event s.event_handlers ≡ some i → i < s.next_set
  pub apart :
      (event other : String) (i : ℕ)
      → OrderedMap.get event s.event_handlers ≡ some i
      → OrderedMap.get other s.event_handlers ≡ some i
      → event ≡ other
  pub used :
      (event : String) (i : ℕ) → OrderedMap.get event s.event_handlers ≡ some i → s.sets i ≢ []

module _ (event : String) (h : ℕ) (s : Subscribers) where
  on-handlers_of_self : handlers_of event (on event h s).0 ≡ add_handler h (handlers_of event s)
  unfolding on
  on-handlers_of_self = elim (Option-cases (OrderedMap.get event s.event_handlers)) [
    | inl nobody ↦ ground (arith, nobody, get-put_self event s.next_set s.event_handlers)
    | inr (i, there) ↦ ground (arith, there)
  ]

  on-handlers_of_ne :
      (other : String)
      → IsValid s
      → event ≢ other
      → handlers_of other (on event h s).0 ≡ handlers_of other s
  unfolding on
  on-handlers_of_ne other v ne = elim (Option-cases (OrderedMap.get other s.event_handlers)) [
    | inl no_other ↦ elim (Option-cases (OrderedMap.get event s.event_handlers)) [
      | inl nobody ↦
          ground (arith, no_other, nobody, get-put_ne event other s.next_set s.event_handlers ne)
      | inr (i, there) ↦ ground (arith, no_other, there)
    ]
    | inr (j, there') ↦ elim (Option-cases (OrderedMap.get event s.event_handlers)) [
      | inl nobody ↦ ground (
        arith,
        there',
        nobody,
        v.old other j there',
        get-put_ne event other s.next_set s.event_handlers ne,
      )
      | inr (i, there) ↦ elim (ℕ_discrete i j) [
        | yes same ↦ absurd (ne (v.apart event other j (there ∙ ap (λ k. some k) same) there'))
        | no differ ↦ ground (arith, there, there', differ)
      ]
    ]
  ]

  handlers_at :
      (i : ℕ) → OrderedMap.get event s.event_handlers ≡ some i → handlers_of event s ≡ s.sets i
  handlers_at i e = ground (arith, e)

  unsubscribe-on_self :
      IsValid s
      → subscribed h (handlers_of event s) ≡ false
      → let (s', i) = on event h s in
        handlers_of event (unsubscribe event h i s') ≡ handlers_of event s
  unfolding on unsubscribe
  unsubscribe-on_self v new = elim (Option-cases (OrderedMap.get event s.event_handlers)) [
    | inl nobody ↦
        ground
          (arith, nobody, get-delete_self event (OrderedMap.put event s.next_set s.event_handlers))
    | inr (i, there) ↦
        let kept =
          remove_handler-add_handler h (s.sets i)
            (subst (λ hs. subscribed h hs ≡ false) (handlers_at i there) new) in
        ground (arith, there, kept, length-empty (s.sets i), v.used event i there)
  ]

  unsubscribe-on_ne :
      (other : String)
      → IsValid s
      → event ≢ other
      → handlers_of other (unsubscribe event h (on event h s).1 (on event h s).0)
        ≡ handlers_of other s
  unfolding on unsubscribe
  unsubscribe-on_ne other v ne =
      let m = OrderedMap.put event s.next_set s.event_handlers in
      let added = get-put_ne event other s.next_set s.event_handlers ne in
      let gone = get-delete_ne event other m ne in
      let gone' = get-delete_ne event other s.event_handlers ne in
      elim (Option-cases (OrderedMap.get event s.event_handlers)) [
        | inl nobody ↦ elim (Option-cases (OrderedMap.get other s.event_handlers)) [
          | inl no_other ↦ ground (arith, nobody, no_other, added, gone)
          | inr (j, there') ↦ ground (arith, nobody, there', added, gone, v.old other j there')
        ]
        | inr (i, there) ↦ elim (Option-cases (OrderedMap.get other s.event_handlers)) [
          | inl no_other ↦ ground (arith, there, no_other, gone')
          | inr (j, there') ↦ elim (ℕ_discrete i j) [
            | yes same ↦ absurd (ne (v.apart event other j (there ∙ ap (λ k. some k) same) there'))
            | no differ ↦ ground (arith, there, there', differ, gone')
          ]
        ]
      ]

  -- To call what `on` returned undoes it for every event, if the handler was not registered for the
  -- event before.
  pub unsubscribe-on :
      (other : String)
      → IsValid s
      → subscribed h (handlers_of event s) ≡ false
      → let (s', i) = on event h s in
        handlers_of other (unsubscribe event h i s') ≡ handlers_of other s
  unsubscribe-on other v new = elim (string_discrete event other) [
    | yes same ↦
        subst
          (λ o.
            handlers_of o (unsubscribe event h (on event h s).1 (on event h s).0) ≡ handlers_of o s)
          same (unsubscribe-on_self v new)
    | no ne ↦ unsubscribe-on_ne other v ne
  ]

-- If nobody was registered for an event, a handler registers and is withdrawn, and another one
-- registers, then a second call of what the first registration returned drops the other one.
pub unsubscribe_twice :
    (event : String) (h other : ℕ) (s : Subscribers)
    → OrderedMap.get event s.event_handlers ≡ none
    → let (s₁, i) = on event h s in
      let s₂ = unsubscribe event h i s₁ in
      let s₃ = (on event other s₂).0 in
      (handlers_of event s₃ ≡ other ∷ []) × (handlers_of event (unsubscribe event h i s₃) ≡ [])
unfolding on unsubscribe
unsubscribe_twice event h other s nobody =
    let m = OrderedMap.put event s.next_set s.event_handlers in
    let m' = OrderedMap.delete event m in
    ground (
      arith,
      nobody,
      get-delete_self event m,
      get-put_self event (suc s.next_set) m',
      get-delete_self event (OrderedMap.put event (suc s.next_set) m'),
    )
