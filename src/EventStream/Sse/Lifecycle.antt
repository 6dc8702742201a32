-- ===== src/EventStream/Sse/Lifecycle.antt =====
-- Sources and timers over a stream's life.
use platform_ts.EventStream.Emitter.{
  StreamState, connecting, opened, closed, StreamMessage, transport_error, heartbeat_timeout,
  Notice, open_notice, close_notice, error_notice, message_notice, is_closed, has_id,
  clear_heartbeat, dispatch_reconnecting, arm_heartbeat, dispatch_open, dispatch_message,
}
use platform_ts.EventStream.Sse.{
  SseEventStream, fresh, open_transport, detach_source, ReadyState, Event, connect_call, close_call,
  source_opens, source_message, source_error, alarm_fires, is_declared, id_of, close, connect,
  on_heartbeat_timeout, on_source_error, ring, step, run,
}
use platform_ts.EventStream.WebSocket.Lifecycle.{ids}
use platform_ts.Prelude.{
  ℕ, String, ◌≡◌, refl, inl, inr, true, false, ◌&&◌, Option, none, some, List, [], ◌∷◌, arith,
  Bool-cases,
}

-- What a stream holds in each state: its source and its heartbeat timer.
abbrev pub Holds : StreamState → Option ℕ → Option ℕ → Type 0
Holds closed none none = Unit
Holds connecting (some s) heartbeat = Unit
Holds opened (some s) heartbeat = Unit
Holds state source heartbeat = ⊥

pub record IsValid (e : SseEventStream) : Type 0 where
  pub sources : e.transport.attached ≡ ids e.transport.source
  pub alarms : e.alarms ≡ ids e.heartbeat_timer
  pub holds : Holds e.state e.transport.source e.heartbeat_timer

fresh-IsValid : IsValid fresh
fresh-IsValid = ground arith

module _ (heartbeat_timeout_ms : ℕ) (events : List String)
    (react : Notice → SseEventStream → SseEventStream) where
  -- What the handlers do with the stream keeps it valid, and those that are told of a heartbeat that
  -- is missing do not close it.
  pub record AreFair : Type 0 where
    pub keep : (n : Notice) (e : SseEventStream) → IsValid e → IsValid (react n e)
    pub stay :
        (e : SseEventStream)
        → IsValid e
        → is_closed e.state ≡ false
        → is_closed (react (error_notice heartbeat_timeout) e).state ≡ false

  arm_heartbeat-IsValid :
      (e : SseEventStream)
      → IsValid e
      → is_closed e.state ≡ false
      → IsValid (arm_heartbeat heartbeat_timeout_ms react e)
  unfolding arm_heartbeat
  arm_heartbeat-IsValid e v on = ground arith

  opening-IsValid :
      (e : SseEventStream)
      → IsValid e
      → is_closed e.state ≡ false
      → IsValid (record e { state = opened })
  opening-IsValid e v on = ground arith

  dispatch_open-IsValid :
      (e : SseEventStream)
      → AreFair
      → IsValid e
      → IsValid (dispatch_open heartbeat_timeout_ms react e)
  unfolding dispatch_open
  dispatch_open-IsValid e f v = elim (Bool-cases (is_closed e.state)) [
    | inl off ↦ ground (arith, off)
    | inr on ↦
        let armed =
          arm_heartbeat-IsValid (record e { state = opened }) (opening-IsValid e v on) refl in
        ground (arith, on, f.keep open_notice _ armed)
  ]

  closing-IsValid :
      (e : SseEventStream)
      → IsValid e
      → IsValid (detach_source (clear_heartbeat (record e { state = closed })))
  unfolding detach_source clear_heartbeat
  closing-IsValid e v = ground arith

  close-IsValid :
      (e : SseEventStream)
      → AreFair
      → IsValid e
      → IsValid (close heartbeat_timeout_ms events react e)
  unfolding close
  close-IsValid e f v =
      let now = detach_source (clear_heartbeat (record e { state = closed })) in
      elim (Bool-cases (is_closed e.state)) [
        | inl off ↦ ground (arith, off)
        | inr on ↦ ground (arith, on, f.keep close_notice now (closing-IsValid e v))
      ]

  connect-IsValid :
      (e : SseEventStream) → IsValid e → IsValid (connect heartbeat_timeout_ms events react e)
  unfolding connect
  connect-IsValid e v = ground arith

  dispatch_reconnecting-IsValid :
      (e : SseEventStream) → IsValid e → IsValid (dispatch_reconnecting e)
  unfolding dispatch_reconnecting
  dispatch_reconnecting-IsValid e v = ground arith

  on_source_error-IsValid :
      (s : ℕ) (ready : ReadyState) (e : SseEventStream)
      → AreFair
      → IsValid e
      → IsValid (on_source_error heartbeat_timeout_ms events react s ready e)
  unfolding on_source_error
  on_source_error-IsValid s ready e f v =
      let told = react (error_notice transport_error) e in
      let kept = f.keep (error_notice transport_error) e v in
      let shut = close-IsValid told f kept in
      let back = dispatch_reconnecting-IsValid told kept in ground (arith, shut, back, kept)

  -- A source that is replaced leaves nothing behind.
  replacing-IsValid :
      (e : SseEventStream)
      → IsValid e
      → is_closed e.state ≡ false
      → IsValid (open_transport (dispatch_reconnecting (detach_source e)))
  unfolding open_transport dispatch_reconnecting detach_source
  replacing-IsValid e v on = ground arith

  ring-IsValid :
      (t : ℕ) (e : SseEventStream)
      → IsValid e
      → has_id t e.alarms ≡ true
      → IsValid (ring heartbeat_timeout_ms events react t e) × (is_closed e.state ≡ false)
  ring-IsValid t e v h = ground arith

  on_heartbeat_timeout-IsValid :
      (e : SseEventStream)
      → AreFair
      → IsValid e
      → is_closed e.state ≡ false
      → IsValid (on_heartbeat_timeout heartbeat_timeout_ms events react e)
  unfolding on_heartbeat_timeout
  on_heartbeat_timeout-IsValid e f v on =
      let told = react (error_notice heartbeat_timeout) e in
      replacing-IsValid told (f.keep (error_notice heartbeat_timeout) e v) (f.stay e v on)

  is_on_of_id :
      (s : ℕ) (e : SseEventStream)
      → IsValid e
      → has_id s e.transport.attached ≡ true
      → is_closed e.state ≡ false
  is_on_of_id s e v h = ground arith

  step-IsValid :
      (ev : Event) (e : SseEventStream)
      → AreFair
      → IsValid e
      → IsValid (step heartbeat_timeout_ms events react ev e)
  unfolding step dispatch_message
  step-IsValid connect_call e f v = connect-IsValid e v
  step-IsValid close_call e f v = close-IsValid e f v
  step-IsValid (source_opens s) e f v = ground (arith, dispatch_open-IsValid e f v)
  step-IsValid (source_message s event text id) e f v =
      let m : StreamMessage = record { text = text; event = event; id = id_of id } in
      let wanted = has_id s e.transport.attached && is_declared events event in
      let now = arm_heartbeat heartbeat_timeout_ms react e in
      elim (Bool-cases wanted) [
        | inl yes_it_is ↦
            let on = is_on_of_id s e v (ground (arith, yes_it_is)) in
            let kept = f.keep (message_notice m) now (arm_heartbeat-IsValid e v on) in
            rw yes_it_is kept
        | inr no_it_is_not ↦ rw no_it_is_not v
      ]
  step-IsValid (source_error s ready) e f v = ground (arith, on_source_error-IsValid s ready e f v)
  step-IsValid (alarm_fires t) e f v =
      let r = ring-IsValid t e v in
      ground (arith, r, on_heartbeat_timeout-IsValid (ring heartbeat_timeout_ms events react t e) f)

  run_keeps :
      (evs : List Event) (e : SseEventStream)
      → AreFair
      → IsValid e
      → IsValid (run heartbeat_timeout_ms events react evs e)
  unfolding run
  run_keeps [] e f v = v
  run_keeps (ev ∷ evs) e f v =
      run_keeps evs (step heartbeat_timeout_ms events react ev e) f (step-IsValid ev e f v)

  -- Whatever the user calls and the runtime tells a new stream, in any order, the only source that
  -- has the stream's handlers is its own, the only heartbeat timer that is set is the one that it
  -- knows, and it has neither if it is closed and a source otherwise, if its handlers are fair.
  pub no_stray_source :
      (evs : List Event) → AreFair → IsValid (run heartbeat_timeout_ms events react evs fresh)
  no_stray_source evs f = run_keeps evs fresh f fresh-IsValid

  -- If a handler that is told of a missing heartbeat closes the stream, the stream opens a source all
  -- the same, and what comes from that goes to the handlers, although the stream is closed.
  pub late_close_reopens :
      (a : ℕ) (e : SseEventStream) (text : String)
      → let told =
          react (error_notice heartbeat_timeout) (ring heartbeat_timeout_ms events react a e) in
        has_id a e.alarms ≡ true
        → IsValid told
        → is_closed told.state ≡ true
        → let late = step heartbeat_timeout_ms events react (alarm_fires a) e in
          let s = told.transport.next_source in
          let m : StreamMessage = record { text = text; event = none; id = none } in
          (is_closed late.state ≡ true)
          × (late.transport.attached ≡ s ∷ [])
          × (step heartbeat_timeout_ms events react (source_message s none text none) late
              ≡ react (message_notice m) (arm_heartbeat heartbeat_timeout_ms react late))
  unfolding step on_heartbeat_timeout dispatch_message
  late_close_reopens a e text h v c = ground (arith, h, c)
