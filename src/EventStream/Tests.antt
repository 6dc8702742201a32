-- ===== src/EventStream/Tests.antt =====
-- A stream with a heartbeat, handlers that only look on, and one that closes the stream.
use platform_ts.OrderedMap
use platform_ts.OrderedMap.{Map}
use platform_ts.MessageQueue.Broker.{subscribed}
use platform_ts.EventStream.Emitter.{
  connecting, opened, StreamMessage, heartbeat_timeout, Notice, open_notice, error_notice,
  message_notice, is_closed, arm_heartbeat,
}
use platform_ts.EventStream.WebSocket
use platform_ts.EventStream.WebSocket.{Options}
use platform_ts.EventStream.WebSocket.Lifecycle.{no_stray_socket}
use platform_ts.EventStream.WebSocket.Reconnects.{drop_recovers, late_close_doubles}
use platform_ts.EventStream.Sse
use platform_ts.EventStream.Sse.Lifecycle.{no_stray_source, late_close_reopens}
use platform_ts.EventStream.Subscribers.{
  Subscribers, IsValid, on, unsubscribe, handlers_of, unsubscribe-on, unsubscribe_twice,
}
use platform_ts.Prelude.{
  ℕ, ◌*◌, ◌^◌, ◌≤◌, min, ◌≡◌, refl, true, false, none, some, List, [], ◌∷◌, arith, length,
}

abbrev options : Options
options = record {
  heartbeat_timeout_ms = 30;
  reconnect = true;
  base_delay_ms = 500;
  max_delay_ms = 30000;
  jitter = 1;
  jitter_unit = 2;
}

abbrev drawn : ℕ → ℕ
drawn i = 7

abbrev look_on : Notice → WebSocket.WebSocket → WebSocket.WebSocket
look_on n e = e

looking_on_IsFair : WebSocket.Lifecycle.AreFair options drawn look_on
looking_on_IsFair = record { keep = λ n e v. v; stay = λ e v h. h }

abbrev life : List WebSocket.Event
life =
    WebSocket.connect_call
    ∷ WebSocket.socket_open 0
    ∷ WebSocket.socket_close 0 (some 1006)
    ∷ WebSocket.timer_fires 0
    ∷ WebSocket.socket_open 1
    ∷ WebSocket.alarm_fires 1
    ∷ []

no_stray_socket_example :
    WebSocket.Lifecycle.IsValid (WebSocket.run options drawn look_on life WebSocket.fresh)
no_stray_socket_example = no_stray_socket options drawn look_on life looking_on_IsFair

abbrev live : WebSocket.WebSocket
live = record {
  state = opened;
  heartbeat_timer = some 0;
  alarms = 0 ∷ [];
  next_alarm = 1;
  transport = record {
    socket = some 0;
    attached = 0 ∷ [];
    next_socket = 1;
    reconnect_attempts = 0;
    reconnect_timer = none;
    timers = [];
    next_timer = 0;
    delay_ms = 0;
    sent = [];
  };
}

live-IsValid : WebSocket.Lifecycle.IsValid live
live-IsValid = ground arith

drop_recovers_example :
    let c = live.transport in
    let dropped =
      WebSocket.step options drawn look_on (WebSocket.socket_close 0 (some 1006)) live in
    let retried =
      WebSocket.step options drawn look_on (WebSocket.timer_fires c.next_timer) dropped in
    (dropped.state ≡ connecting)
    × (dropped.transport.attached ≡ [])
    × (dropped.transport.timers ≡ c.next_timer ∷ [])
    × (dropped.transport.delay_ms ≤ min (500 * 2 ^ c.reconnect_attempts) 30000)
    × (retried.state ≡ connecting)
    × (retried.transport.attached ≡ c.next_socket ∷ [])
    × ((r : WebSocket.WebSocket) × (WebSocket.step options drawn look_on
            (WebSocket.socket_open c.next_socket)
            retried
          ≡ look_on open_notice r)
        × (r.state ≡ opened)
        × (r.transport.attached ≡ c.next_socket ∷ [])
        × (r.transport.timers ≡ [])
        × (r.transport.reconnect_attempts ≡ 0))
drop_recovers_example =
    drop_recovers options drawn look_on 0 (some 1006) live live-IsValid refl refl refl (omega arith)
      (omega arith) (λ i. omega arith)

-- The handler of errors gives the stream up.
abbrev give_up : Notice → WebSocket.WebSocket → WebSocket.WebSocket
give_up (error_notice cause) e = WebSocket.close options drawn look_on e
give_up n e = e

gave_up-IsValid :
    let told =
      give_up (error_notice heartbeat_timeout) (WebSocket.ring options drawn give_up 0 live) in
    WebSocket.Lifecycle.IsValid told × (is_closed told.state ≡ true)
unfolding WebSocket.close
gave_up-IsValid = ground arith

late_close_doubles_example :
    let t =
      (give_up
        (error_notice heartbeat_timeout)
        (WebSocket.ring options drawn give_up 0 live)).transport.next_timer in
    let late = WebSocket.step options drawn give_up (WebSocket.alarm_fires 0) live in
    (is_closed late.state ≡ true)
    × (late.transport.timers ≡ t ∷ [])
    × (length
          (WebSocket.step options drawn give_up
            (WebSocket.timer_fires t)
            (WebSocket.step options drawn give_up WebSocket.connect_call late)).transport.attached
        ≡ 2)
late_close_doubles_example =
    late_close_doubles options drawn give_up 0 live refl refl gave_up-IsValid.0 gave_up-IsValid.1

abbrev see : Notice → Sse.SseEventStream → Sse.SseEventStream
see n e = e

seeing_IsFair : Sse.Lifecycle.AreFair 30 ("tick" ∷ []) see
seeing_IsFair = record { keep = λ n e v. v; stay = λ e v h. h }

no_stray_source_example : Sse.Lifecycle.IsValid (
    Sse.run 30
      ("tick" ∷ [])
      see
      (Sse.connect_call ∷ Sse.source_opens 0 ∷ Sse.source_error 0 Sse.source_connecting ∷ [])
      Sse.fresh)
no_stray_source_example =
    no_stray_source 30 ("tick" ∷ []) see
      (Sse.connect_call ∷ Sse.source_opens 0 ∷ Sse.source_error 0 Sse.source_connecting ∷ [])
      seeing_IsFair

abbrev live_source : Sse.SseEventStream
live_source = record {
  state = opened;
  heartbeat_timer = some 0;
  alarms = 0 ∷ [];
  next_alarm = 1;
  transport = record { source = some 0; attached = 0 ∷ []; next_source = 1 };
}

abbrev leave : Notice → Sse.SseEventStream → Sse.SseEventStream
leave (error_notice cause) e = Sse.close 30 [] see e
leave n e = e

left-IsValid :
    let told = leave (error_notice heartbeat_timeout) (Sse.ring 30 [] leave 0 live_source) in
    Sse.Lifecycle.IsValid told × (is_closed told.state ≡ true)
unfolding Sse.close
left-IsValid = ground arith

late_close_reopens_example :
    let told = leave (error_notice heartbeat_timeout) (Sse.ring 30 [] leave 0 live_source) in
    let late = Sse.step 30 [] leave (Sse.alarm_fires 0) live_source in
    let s = told.transport.next_source in
    let m : StreamMessage = record { text = "late"; event = none; id = none } in
    (is_closed late.state ≡ true)
    × (late.transport.attached ≡ s ∷ [])
    × (Sse.step 30 [] leave (Sse.source_message s none "late" none) late
        ≡ leave (message_notice m) (arm_heartbeat 30 leave late))
late_close_reopens_example =
    late_close_reopens 30 [] leave 0 live_source "late" refl left-IsValid.0 left-IsValid.1

abbrev nobody : Subscribers
nobody = record { sets = λ i. []; next_set = 0; event_handlers = [] }

nobody-IsValid : IsValid nobody
unfolding OrderedMap.get
nobody-IsValid = record { old = λ e i h. cc h; apart = λ e o i h k. cc h; used = λ e i h. cc h }

nobody_there : OrderedMap.get {V = ℕ} "tick" [] ≡ none
unfolding OrderedMap.get
nobody_there = refl

nothing_new : subscribed 1 (handlers_of "tick" nobody) ≡ false
unfolding OrderedMap.get
nothing_new = refl

unsubscribe-on_example :
    let (s, i) = on "tick" 1 nobody in
    handlers_of "tick" (unsubscribe "tick" 1 i s) ≡ handlers_of "tick" nobody
unsubscribe-on_example = unsubscribe-on "tick" 1 nobody "tick" nobody-IsValid nothing_new

unsubscribe_twice_example :
    let (s₁, i) = on "tick" 1 nobody in
    let s₂ = unsubscribe "tick" 1 i s₁ in
    let s₃ = (on "tick" 2 s₂).0 in
    (handlers_of "tick" s₃ ≡ 2 ∷ []) × (handlers_of "tick" (unsubscribe "tick" 1 i s₃) ≡ [])
unsubscribe_twice_example = unsubscribe_twice "tick" 1 2 nobody nobody_there
