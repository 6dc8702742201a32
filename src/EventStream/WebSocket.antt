-- ===== src/EventStream/WebSocket.antt =====
-- packages/eventstream/src/providers/websocket.ts: the stream over a socket, with its reconnects. A
-- frame comes parsed, or as `none` if it is not text; logs are left out.
pub mod Lifecycle
pub mod Reconnects
use platform_ts.Retry.{RetryConfig}
use platform_ts.Retry.Backoff.{backoff_delay}
use platform_ts.EventStream.Emitter
use platform_ts.EventStream.Emitter.{
  StreamState, connecting, opened, closed, StreamMessage, Cause, transport_error, heartbeat_timeout,
  non_text_frame, Notice, is_closed, is_opened, has_id, drop_id, clear_heartbeat,
  dispatch_reconnecting, arm_heartbeat, dispatch_open, dispatch_message, dispatch_error,
}
use platform_ts.Prelude.{
  ℕ, suc, String, Bool, true, not, ◌||◌, Option, none, some, List, [], ◌∷◌, ◌++◌, ◌==◌,
  if◌then◌else◌, set,
}

-- The fields, the sockets that carry the stream's handlers, and the reconnect timers that are set.
pub record Connection : Type 0 where
  pub socket : Option ℕ
  pub attached : List ℕ
  pub next_socket : ℕ
  pub reconnect_attempts : ℕ
  pub reconnect_timer : Option ℕ
  pub timers : List ℕ
  pub next_timer : ℕ
  pub delay_ms : ℕ
  pub sent : List String

abbrev pub WebSocket : Type 0
WebSocket = Emitter.Emitter Connection

pub record Options : Type 0 where
  pub heartbeat_timeout_ms : ℕ
  pub reconnect : Bool
  pub base_delay_ms : ℕ
  pub max_delay_ms : ℕ
  pub jitter : ℕ
  pub jitter_unit : ℕ

abbrev pub fresh : WebSocket
fresh = record {
  state = closed;
  heartbeat_timer = none;
  alarms = [];
  next_alarm = 0;
  transport = record {
    socket = none;
    attached = [];
    next_socket = 0;
    reconnect_attempts = 0;
    reconnect_timer = none;
    timers = [];
    next_timer = 0;
    delay_ms = 0;
    sent = [];
  };
}

abbrev pub is_clean_close : Option ℕ → Bool
is_clean_close none = true
is_clean_close (some code) = code == 1000 || code == 1001

unfoldable pub open_transport : WebSocket → WebSocket
open_transport e =
    let c = e.transport in
    record e {
      transport = record c {
        socket = some c.next_socket;
        attached = c.next_socket ∷ c.attached;
        next_socket = suc c.next_socket;
      };
    }

unfoldable pub detach_socket : WebSocket → WebSocket
detach_socket e = elim e.transport.socket [
  | none ↦ e
  | some s ↦ record e {
    transport = record e.transport { socket = none; attached = drop_id s e.transport.attached };
  }
]

unfoldable pub clear_reconnect : WebSocket → WebSocket
clear_reconnect e = elim e.transport.reconnect_timer [
  | none ↦ e
  | some t ↦ record e {
    transport = record e.transport {
      reconnect_timer = none;
      timers = drop_id t e.transport.timers;
    };
  }
]

unfoldable pub close_transport : WebSocket → WebSocket
unfolding clear_reconnect detach_socket
close_transport e = detach_socket (clear_reconnect e)

-- A field of what `JSON.parse` gives, which is a parameter.
pub data Field : Type 0 where
  text_field : String → Field
  other_field : Field

pub data Parsed : Type 0 where
  broken no_object : Parsed
  object : (String → Option Field) → Parsed

abbrev pub text_of : Option Field → Option String
text_of none = none
text_of (some (text_field s)) = some s
text_of (some other_field) = none

abbrev pub raw_message : String → StreamMessage
raw_message raw = record { text = raw; event = none; id = none }

unfoldable pub default_parse : (String → Parsed) → String → StreamMessage
default_parse parse raw = elim (parse raw) [
  | broken ↦ raw_message raw
  | no_object ↦ raw_message raw
  | object field ↦ elim (field "data") [
    | none ↦ raw_message raw
    | some d ↦ record {
      text = elim (text_of (some d)) [ none ↦ raw | some s ↦ s ];
      event = text_of (field "event");
      id = text_of (field "id");
    }
  ]
]

-- `send` throws on `none`.
unfoldable pub send : String → WebSocket → Option WebSocket
send text e = elim e.transport.socket [
  | none ↦ none
  | some s ↦
      if is_opened e.state
      then some
          (record e { transport = record e.transport { sent = e.transport.sent ++ text ∷ [] } })
      else none
]

-- What the runtime tells the stream, and what its user calls.
pub data Event : Type 0 where
  connect_call close_call : Event
  socket_open socket_error : ℕ → Event
  socket_message : ℕ → Option StreamMessage → Event
  socket_close : ℕ → Option ℕ → Event
  timer_fires alarm_fires : ℕ → Event

-- `random` gives the numbers that are drawn.
module _ (o : Options) (random : ℕ → ℕ) (react : Notice → WebSocket → WebSocket) where
  abbrev pub reconnect_delay : ℕ → ℕ → ℕ
  reconnect_delay attempt drawn =
      backoff_delay
        (record {
          max_attempts = 0;
          base_delay_ms = o.base_delay_ms;
          max_delay_ms = o.max_delay_ms;
          jitter = o.jitter;
          jitter_unit = o.jitter_unit;
          max_elapsed_ms = 0;
        })
        attempt drawn

  unfoldable pub schedule_reconnect : WebSocket → WebSocket
  schedule_reconnect e =
      let c = e.transport in
      record e {
        transport = record c {
          delay_ms = reconnect_delay c.reconnect_attempts (random c.next_timer);
          reconnect_attempts = suc c.reconnect_attempts;
          reconnect_timer = some c.next_timer;
          timers = c.next_timer ∷ c.timers;
          next_timer = suc c.next_timer;
        };
      }

  unfoldable pub close : WebSocket → WebSocket
  unfolding Emitter.close close_transport
  close = Emitter.close o.heartbeat_timeout_ms react open_transport close_transport

  unfoldable pub connect : WebSocket → WebSocket
  unfolding Emitter.connect open_transport
  connect = Emitter.connect o.heartbeat_timeout_ms react open_transport close_transport

  unfoldable pub on_socket_open : WebSocket → WebSocket
  unfolding dispatch_open
  on_socket_open e =
      dispatch_open o.heartbeat_timeout_ms react
        (record e { transport = record e.transport { reconnect_attempts = 0 } })

  unfoldable pub on_socket_message : Option StreamMessage → WebSocket → WebSocket
  unfolding dispatch_message
  on_socket_message none e = dispatch_error o.heartbeat_timeout_ms react non_text_frame e
  on_socket_message (some m) e = dispatch_message o.heartbeat_timeout_ms react m e

  unfoldable pub drop_and_retry : WebSocket → WebSocket
  unfolding detach_socket dispatch_reconnecting schedule_reconnect
  drop_and_retry e = schedule_reconnect (dispatch_reconnecting (detach_socket e))

  unfoldable pub on_socket_close : Option ℕ → WebSocket → WebSocket
  unfolding close drop_and_retry
  on_socket_close code e =
      if not o.reconnect || is_clean_close code then close e else drop_and_retry e

  unfoldable pub on_heartbeat_timeout : WebSocket → WebSocket
  unfolding close drop_and_retry
  on_heartbeat_timeout e =
      let e' = dispatch_error o.heartbeat_timeout_ms react heartbeat_timeout e in
      if o.reconnect then drop_and_retry e' else close e'

  unfoldable pub on_timer : WebSocket → WebSocket
  unfolding open_transport
  on_timer e =
      let e' = record e { transport = record e.transport { reconnect_timer = none } } in
      if is_closed e.state then e' else open_transport e'

  abbrev pub fire : ℕ → WebSocket → WebSocket
  fire t e = record e { transport = record e.transport { timers = drop_id t e.transport.timers } }

  abbrev pub ring : ℕ → WebSocket → WebSocket
  ring t e = record e { heartbeat_timer = none; alarms = drop_id t e.alarms }

  -- A socket without the stream's handlers and a timer that was cleared do nothing.
  unfoldable pub step : Event → WebSocket → WebSocket
  unfolding connect close on_socket_open on_socket_message on_socket_close on_timer
      on_heartbeat_timeout
  step connect_call e = connect e
  step close_call e = close e
  step (socket_open s) e = if has_id s e.transport.attached then on_socket_open e else e
  step (socket_error s) e =
      if has_id s e.transport.attached
      then dispatch_error o.heartbeat_timeout_ms react transport_error e
      else e
  step (socket_message s m) e = if has_id s e.transport.attached then on_socket_message m e else e
  step (socket_close s code) e = if has_id s e.transport.attached then on_socket_close code e else e
  step (timer_fires t) e = if has_id t e.transport.timers then on_timer (fire t e) else e
  step (alarm_fires t) e = if has_id t e.alarms then on_heartbeat_timeout (ring t e) else e

  unfoldable pub run : List Event → WebSocket → WebSocket
  unfolding step
  run [] e = e
  run (ev ∷ evs) e = run evs (step ev e)
