-- ===== src/EventStream/Emitter.antt =====
-- packages/eventstream/src/providers/emitter.ts: the lifecycle that the transports share. What the
-- handlers of a notice do to the stream is a parameter, as they may call any of its methods; what
-- they throw is only logged. The runtime's timers are a list of their numbers.
use platform_ts.Prelude.{
  ℕ, suc, String, Bool, true, false, Option, none, some, List, [], ◌∷◌, ◌==◌, if◌then◌else◌,
}

pub data StreamState : Type 0 where
  connecting opened closed : StreamState

pub record StreamMessage : Type 0 where
  pub text : String
  pub event : Option String
  pub id : Option String

pub data Cause : Type 0 where
  transport_error heartbeat_timeout non_text_frame : Cause

pub data Notice : Type 0 where
  open_notice close_notice : Notice
  message_notice : StreamMessage → Notice
  error_notice : Cause → Notice

-- The fields, the timers that are set, and the subclass's fields.
pub record Emitter (T : Type 0) : Type 0 where
  pub state : StreamState
  pub heartbeat_timer : Option ℕ
  pub alarms : List ℕ
  pub next_alarm : ℕ
  pub transport : T

abbrev pub is_closed : StreamState → Bool
is_closed connecting = false
is_closed opened = false
is_closed closed = true

abbrev pub is_opened : StreamState → Bool
is_opened connecting = false
is_opened opened = true
is_opened closed = false

abbrev pub has_id : ℕ → List ℕ → Bool
has_id i [] = false
has_id i (j ∷ js) = if i == j then true else has_id i js

abbrev pub drop_id : ℕ → List ℕ → List ℕ
drop_id i [] = []
drop_id i (j ∷ js) = if i == j then drop_id i js else j ∷ drop_id i js

unfoldable pub clear_heartbeat : {T : Type 0} → Emitter T → Emitter T
clear_heartbeat e = elim e.heartbeat_timer [
  | none ↦ e
  | some t ↦ record e { heartbeat_timer = none; alarms = drop_id t e.alarms }
]

unfoldable pub dispatch_reconnecting : {T : Type 0} → Emitter T → Emitter T
unfolding clear_heartbeat
dispatch_reconnecting e =
    clear_heartbeat (if is_opened e.state then record e { state = connecting } else e)

module _ {T : Type 0} (heartbeat_timeout_ms : ℕ) (react : Notice → Emitter T → Emitter T) where
  unfoldable pub arm_heartbeat : Emitter T → Emitter T
  unfolding clear_heartbeat
  arm_heartbeat e =
      if heartbeat_timeout_ms == 0
      then e
      else (let e' = clear_heartbeat e in
          record e' {
            heartbeat_timer = some e'.next_alarm;
            alarms = e'.next_alarm ∷ e'.alarms;
            next_alarm = suc e'.next_alarm;
          })

  unfoldable pub dispatch_open : Emitter T → Emitter T
  unfolding arm_heartbeat
  dispatch_open e =
      if is_closed e.state
      then e
      else react open_notice (arm_heartbeat (record e { state = opened }))

  unfoldable pub dispatch_message : StreamMessage → Emitter T → Emitter T
  unfolding arm_heartbeat
  dispatch_message m e = react (message_notice m) (arm_heartbeat e)

  abbrev pub dispatch_error : Cause → Emitter T → Emitter T
  dispatch_error cause e = react (error_notice cause) e

  module _ (open_transport close_transport : Emitter T → Emitter T) where
    unfoldable pub connect : Emitter T → Emitter T
    connect e = if is_closed e.state then open_transport (record e { state = connecting }) else e

    unfoldable pub close : Emitter T → Emitter T
    unfolding clear_heartbeat
    close e =
        if is_closed e.state
        then e
        else react close_notice (close_transport (clear_heartbeat (record e { state = closed })))
