-- ===== src/EventStream/Sse.antt =====
-- packages/eventstream/src/providers/sse.ts: the stream over an EventSource, which reconnects by
-- itself. Logs are left out.
pub mod Lifecycle
use platform_ts.EventStream.Emitter
use platform_ts.EventStream.Emitter.{
  StreamState, connecting, opened, closed, StreamMessage, transport_error, heartbeat_timeout,
  Notice, has_id, drop_id, clear_heartbeat, dispatch_reconnecting, arm_heartbeat, dispatch_open,
  dispatch_message, dispatch_error,
}
use platform_ts.Prelude.{
  ℕ, suc, String, ite, Bool, true, false, ◌&&◌, Option, none, some, List, [], ◌∷◌, string_discrete,
  if◌then◌else◌,
}

-- The field `source`, and the sources that carry the stream's handlers.
pub record Channel : Type 0 where
  pub source : Option ℕ
  pub attached : List ℕ
  pub next_source : ℕ

abbrev pub SseEventStream : Type 0
SseEventStream = Emitter.Emitter Channel

abbrev pub fresh : SseEventStream
fresh = record {
  state = closed;
  heartbeat_timer = none;
  alarms = [];
  next_alarm = 0;
  transport = record { source = none; attached = []; next_source = 0 };
}

unfoldable pub open_transport : SseEventStream → SseEventStream
open_transport e =
    let c = e.transport in
    record e {
      transport = record {
        source = some c.next_source;
        attached = c.next_source ∷ c.attached;
        next_source = suc c.next_source;
      };
    }

unfoldable pub detach_source : SseEventStream → SseEventStream
detach_source e = elim e.transport.source [
  | none ↦ e
  | some s ↦ record e {
    transport = record e.transport { source = none; attached = drop_id s e.transport.attached };
  }
]

abbrev pub id_of : Option String → Option String
id_of none = none
id_of (some id) = ite (string_discrete id "") none (some id)

-- The source's `readyState`.
pub data ReadyState : Type 0 where
  source_connecting source_open source_closed : ReadyState

pub data Event : Type 0 where
  connect_call close_call : Event
  source_opens : ℕ → Event
  source_message : ℕ → Option String → String → Option String → Event
  source_error : ℕ → ReadyState → Event
  alarm_fires : ℕ → Event

abbrev pub is_declared : List String → Option String → Bool
is_declared events none = true
is_declared [] (some event) = false
is_declared (e ∷ es) (some event) = ite (string_discrete e event) true (is_declared es (some event))

module _ (heartbeat_timeout_ms : ℕ) (events : List String)
    (react : Notice → SseEventStream → SseEventStream) where
  unfoldable pub close : SseEventStream → SseEventStream
  unfolding Emitter.close detach_source
  close = Emitter.close heartbeat_timeout_ms react open_transport detach_source

  unfoldable pub connect : SseEventStream → SseEventStream
  unfolding Emitter.connect open_transport
  connect = Emitter.connect heartbeat_timeout_ms react open_transport detach_source

  unfoldable pub on_heartbeat_timeout : SseEventStream → SseEventStream
  unfolding detach_source dispatch_reconnecting open_transport
  on_heartbeat_timeout e = open_transport (
      dispatch_reconnecting
        (detach_source (dispatch_error heartbeat_timeout_ms react heartbeat_timeout e)))

  -- `readyState` is read when the handlers were told, and is that of a closed source if they let the
  -- source go.
  unfoldable pub on_source_error : ℕ → ReadyState → SseEventStream → SseEventStream
  unfolding close dispatch_reconnecting
  on_source_error s ready e =
      let e' = dispatch_error heartbeat_timeout_ms react transport_error e in
      let now = if has_id s e'.transport.attached then ready else source_closed in
      elim now [
        | source_closed ↦ close e'
        | source_connecting ↦ dispatch_reconnecting e'
        | source_open ↦ e'
      ]

  abbrev pub ring : ℕ → SseEventStream → SseEventStream
  ring t e = record e { heartbeat_timer = none; alarms = drop_id t e.alarms }

  -- A source without the stream's handlers does nothing, and gives the events that are declared.
  unfoldable pub step : Event → SseEventStream → SseEventStream
  unfolding connect close dispatch_open dispatch_message on_source_error on_heartbeat_timeout
  step connect_call e = connect e
  step close_call e = close e
  step (source_opens s) e =
      if has_id s e.transport.attached then dispatch_open heartbeat_timeout_ms react e else e
  step (source_message s event text id) e =
      let m : StreamMessage = record { text = text; event = event; id = id_of id } in
      if has_id s e.transport.attached && is_declared events event
      then dispatch_message heartbeat_timeout_ms react m e
      else e
  step (source_error s ready) e =
      if has_id s e.transport.attached then on_source_error s ready e else e
  step (alarm_fires t) e = if has_id t e.alarms then on_heartbeat_timeout (ring t e) else e

  unfoldable pub run : List Event → SseEventStream → SseEventStream
  unfolding step
  run [] e = e
  run (ev ∷ evs) e = run evs (step ev e)
