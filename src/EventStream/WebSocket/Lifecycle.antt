-- ===== src/EventStream/WebSocket/Lifecycle.antt =====
-- Sockets and timers over a stream's life.
use platform_ts.EventStream.Emitter.{
  StreamState, connecting, opened, closed, StreamMessage, transport_error, heartbeat_timeout,
  Notice, open_notice, close_notice, error_notice, is_closed, has_id, clear_heartbeat,
  arm_heartbeat,
}
use platform_ts.EventStream.WebSocket.{
  WebSocket, Options, fresh, close_transport, Event, connect_call, close_call, socket_open,
  socket_error, socket_message, socket_close, timer_fires, alarm_fires, close, connect,
  on_socket_open, on_socket_message, drop_and_retry, on_socket_close, on_heartbeat_timeout,
  on_timer, fire, ring, step, run,
}
use platform_ts.Prelude.{
  ℕ, ◌≡◌, inl, inr, Bool, true, false, Option, none, some, List, [], ◌∷◌, arith, Bool-cases,
  Option-cases,
}

abbrev pub ids : Option ℕ → List ℕ
ids none = []
ids (some i) = i ∷ []

-- What a stream holds in each state: its socket, its reconnect timer and its heartbeat timer.
abbrev pub Holds : StreamState → Option ℕ → Option ℕ → Option ℕ → Type 0
Holds closed none none none = Unit
Holds connecting (some s) none heartbeat = Unit
Holds connecting none (some t) none = Unit
Holds opened (some s) none heartbeat = Unit
Holds state socket timer heartbeat = ⊥

pub record IsValid (e : WebSocket) : Type 0 where
  pub sockets : e.transport.attached ≡ ids e.transport.socket
  pub timers : e.transport.timers ≡ ids e.transport.reconnect_timer
  pub alarms : e.alarms ≡ ids e.heartbeat_timer
  pub holds : Holds e.state e.transport.socket e.transport.reconnect_timer e.heartbeat_timer

fresh-IsValid : IsValid fresh
fresh-IsValid = ground arith

abbrev pub has_socket : WebSocket → Bool
has_socket e = elim e.transport.socket [ none ↦ false | some s ↦ true ]

has_socket_of_id :
    (e : WebSocket) (s : ℕ) → IsValid e → has_id s e.transport.attached ≡ true → has_socket e ≡ true
has_socket_of_id e s v h = elim (Option-cases e.transport.socket) [
  | inl e0 ↦ ground (arith, e0, v.sockets)
  | inr (t, e1) ↦ ground (arith, e1)
]

module _ (o : Options) (random : ℕ → ℕ) (react : Notice → WebSocket → WebSocket) where
  -- What the handlers do with the stream keeps it valid, and those that are told of a heartbeat that
  -- is missing do not close it.
  pub record AreFair : Type 0 where
    pub keep : (n : Notice) (e : WebSocket) → IsValid e → IsValid (react n e)
    pub stay :
        (e : WebSocket)
        → IsValid e
        → has_socket e ≡ true
        → has_socket (react (error_notice heartbeat_timeout) e) ≡ true

  clear_heartbeat-IsValid : (e : WebSocket) → IsValid e → IsValid (clear_heartbeat e)
  unfolding clear_heartbeat
  clear_heartbeat-IsValid e v = ground arith

  arm_heartbeat-IsValid :
      (e : WebSocket)
      → IsValid e
      → has_socket e ≡ true
      → IsValid (arm_heartbeat o.heartbeat_timeout_ms react e)
  unfolding arm_heartbeat
  arm_heartbeat-IsValid e v h = ground arith

  on_socket_open-IsValid :
      (e : WebSocket)
      → AreFair
      → IsValid e
      → has_socket e ≡ true
      → IsValid (on_socket_open o random react e)
  unfolding on_socket_open
  on_socket_open-IsValid e f v h =
      let reset = record e { transport = record e.transport { reconnect_attempts = 0 } } in
      let now = arm_heartbeat o.heartbeat_timeout_ms react (record reset { state = opened }) in
      elim (Bool-cases (is_closed e.state)) [
        | inl off ↦ ground (arith, off)
        | inr on ↦
            let armed : IsValid now =
              arm_heartbeat-IsValid (record reset { state = opened }) (ground (arith, on)) h in
            ground (arith, on, f.keep open_notice now armed)
      ]

  on_socket_message-IsValid :
      (m : Option StreamMessage) (e : WebSocket)
      → AreFair
      → IsValid e
      → has_socket e ≡ true
      → IsValid (on_socket_message o random react m e)
  unfolding on_socket_message
  on_socket_message-IsValid none e f v h = f.keep _ e v
  on_socket_message-IsValid (some m) e f v h = f.keep _ _ (arm_heartbeat-IsValid e v h)

  closing-IsValid :
      (e : WebSocket)
      → IsValid e
      → IsValid (close_transport (clear_heartbeat (record e { state = closed })))
  unfolding close_transport clear_heartbeat
  closing-IsValid e v = ground arith

  close-IsValid : (e : WebSocket) → AreFair → IsValid e → IsValid (close o random react e)
  unfolding close
  close-IsValid e f v =
      let now = close_transport (clear_heartbeat (record e { state = closed })) in
      elim (Bool-cases (is_closed e.state)) [
        | inl off ↦ ground (arith, off)
        | inr on ↦ ground (arith, on, f.keep close_notice now (closing-IsValid e v))
      ]

  connect-IsValid : (e : WebSocket) → IsValid e → IsValid (connect o random react e)
  unfolding connect
  connect-IsValid e v = ground arith

  drop_and_retry-IsValid :
      (e : WebSocket) → IsValid e → has_socket e ≡ true → IsValid (drop_and_retry o random react e)
  unfolding drop_and_retry
  drop_and_retry-IsValid e v h = ground arith

  on_timer-IsValid :
      (t : ℕ) (e : WebSocket)
      → IsValid e
      → has_id t e.transport.timers ≡ true
      → IsValid (on_timer o random react (fire o random react t e))
  unfolding on_timer
  on_timer-IsValid t e v h = ground arith

  on_socket_close-IsValid :
      (code : Option ℕ) (e : WebSocket)
      → AreFair
      → IsValid e
      → has_socket e ≡ true
      → IsValid (on_socket_close o random react code e)
  unfolding on_socket_close
  on_socket_close-IsValid code e f v h =
      ground (arith, close-IsValid e f v, drop_and_retry-IsValid e v h)

  ring-IsValid :
      (t : ℕ) (e : WebSocket)
      → IsValid e
      → has_id t e.alarms ≡ true
      → IsValid (ring o random react t e) × (has_socket (ring o random react t e) ≡ true)
  ring-IsValid t e v h = ground arith

  on_heartbeat_timeout-IsValid :
      (e : WebSocket)
      → AreFair
      → IsValid e
      → has_socket e ≡ true
      → IsValid (on_heartbeat_timeout o random react e)
  unfolding on_heartbeat_timeout
  on_heartbeat_timeout-IsValid e f v h =
      let told = react (error_notice heartbeat_timeout) e in
      let kept = f.keep (error_notice heartbeat_timeout) e v in
      ground (arith, close-IsValid told f kept, drop_and_retry-IsValid told kept (f.stay e v h))

  pub step-IsValid :
      (ev : Event) (e : WebSocket) → AreFair → IsValid e → IsValid (step o random react ev e)
  unfolding step
  step-IsValid connect_call e f v = connect-IsValid e v
  step-IsValid close_call e f v = close-IsValid e f v
  step-IsValid (socket_open s) e f v =
      let on = has_socket_of_id e s v in ground (arith, on, on_socket_open-IsValid e f v)
  step-IsValid (socket_error s) e f v = ground (arith, f.keep (error_notice transport_error) e v)
  step-IsValid (socket_message s m) e f v =
      let on = has_socket_of_id e s v in ground (arith, on, on_socket_message-IsValid m e f v)
  step-IsValid (socket_close s code) e f v =
      let on = has_socket_of_id e s v in ground (arith, on, on_socket_close-IsValid code e f v)
  step-IsValid (timer_fires t) e f v = ground (arith, on_timer-IsValid t e v)
  step-IsValid (alarm_fires t) e f v =
      let rung = ring o random react t e in
      let r = ring-IsValid t e v in ground (arith, r, on_heartbeat_timeout-IsValid rung f)

  run_keeps :
      (evs : List Event) (e : WebSocket) → AreFair → IsValid e → IsValid (run o random react evs e)
  unfolding run
  run_keeps [] e f v = v
  run_keeps (ev ∷ evs) e f v = run_keeps evs (step o random react ev e) f (step-IsValid ev e f v)

  -- Whatever the user calls and the runtime tells a new stream, in any order, the only socket that
  -- has the stream's handlers is its own, the only timers that are set are those that it knows, and
  -- it is closed without any of them, connecting with a socket or a reconnect timer but not both, or
  -- open with a socket and no reconnect timer, if its handlers are fair.
  pub no_stray_socket : (evs : List Event) → AreFair → IsValid (run o random react evs fresh)
  no_stray_socket evs f = run_keeps evs fresh f fresh-IsValid
