-- ===== src/EventCapture/Recorder.antt =====
-- packages/eventcapture/src/recorder.ts. The chain of promises is the list of tasks that wait and
-- the one under way; a turn takes the next task, or the one under way a step further: one event
-- consumed, or its end. A call between two awaits of a turn could come before the turn as well:
-- `record`, `flush` and `close` touch nothing else. Logs, spans and latencies are left out, and so
-- is the signal of `close`, which ends the caller's wait and not the drain.
pub mod Frames
pub mod Watching
pub mod Accounts
pub mod Settles
use platform_ts.EventCapture.RingBuffer.{RingBuffer, new_ring, push, shift}
use platform_ts.Prelude.{
  ℕ, suc, ◌+◌, ◌-◌, Bool, true, false, not, ◌||◌, Option, none, some, List, [], ◌∷◌, ◌++◌, leb,
  ◌==◌, if◌then◌else◌,
}

-- The sink and the hooks over a world they share. `none` and `false` mean that the call threw.
pub record Hooks (E R W : Type 0) : Type 0 where
  pub write : R → W → W × Bool
  pub sink_flush : W → W × Bool
  pub sink_close : W → W × Bool
  -- The event itself as a record, unless it is undefined or null.
  pub itself : E → Option R
  pub transform : Option (E → W → W × Option (Option R))
  pub observe : Option (E → W → W × Bool)
  -- What the hook emitted, and whether it returned.
  pub on_flush : Option (Bool → W → W × (List R × Bool))
  pub overflow : Option (W → W × Option ℕ)

-- What runs on the chain: the drain that `record` schedules, `flush`, a tick and `close`.
pub data Task : Type 0 where
  drains flushes ticks closes : Task

pub record Recorder (E W : Type 0) : Type 0 where
  pub buffer : RingBuffer E
  pub raw : Bool
  pub dropped : ℕ
  pub reported_dropped : ℕ
  pub drain_scheduled : Bool
  pub closed : Bool
  pub chain : List Task
  pub active : Option Task
  pub world : W
  -- The instruments.
  pub written : ℕ
  pub dropped_counter : ℕ
  pub overflow_counter : ℕ
  pub sink_errors : ℕ
  pub hook_errors : ℕ

unfoldable pub new_recorder : {E W : Type 0} → ℕ → Bool → W → Recorder E W
new_recorder size raw w = record {
  buffer = new_ring size;
  raw = raw;
  dropped = 0;
  reported_dropped = 0;
  drain_scheduled = false;
  closed = false;
  chain = [];
  active = none;
  world = w;
  written = 0;
  dropped_counter = 0;
  overflow_counter = 0;
  sink_errors = 0;
  hook_errors = 0;
}

module _ {E W : Type 0} where
  abbrev pub enqueue : Task → Recorder E W → Recorder E W
  enqueue t r = record r { chain = r.chain ++ t ∷ [] }

  abbrev pub schedule : Recorder E W → Recorder E W
  schedule r = if r.drain_scheduled then r else record (enqueue drains r) { drain_scheduled = true }

  unfoldable pub record_event : E → Recorder E W → Recorder E W
  unfolding push
  record_event e r =
      let (buffer, stored) = push e r.buffer in
      if r.closed || not stored
      then record r { dropped = suc r.dropped }
      else schedule (record r { buffer = buffer })

  abbrev pub flush : Recorder E W → Recorder E W
  flush r = enqueue flushes r

  -- The interval's timer, which `close` clears.
  abbrev pub tick : Recorder E W → Recorder E W
  tick r = if r.closed then r else enqueue ticks r

  -- A later call awaits the first one.
  abbrev pub close : Recorder E W → Recorder E W
  close r = if r.closed then r else enqueue closes (record r { closed = true })

module _ {E R W : Type 0} (h : Hooks E R W) where
  unfoldable pub write_record : R → Recorder E W → Recorder E W
  write_record x r =
      let (w, fine) = h.write x r.world in
      if fine
      then record r { world = w; written = suc r.written }
      else record r { world = w; sink_errors = suc r.sink_errors }

  unfoldable pub write_all : List R → Recorder E W → Recorder E W
  unfolding write_record
  write_all [] r = r
  write_all (x ∷ xs) r = write_all xs (write_record x r)

  abbrev pub write_some : Option R → Recorder E W → Recorder E W
  write_some none r = r
  write_some (some x) r = write_record x r

  unfoldable pub write_event : E → Recorder E W → Recorder E W
  unfolding write_record
  write_event e r = elim h.transform [
    | none ↦ write_some (h.itself e) r
    | some f ↦
        let (w, projected) = f e r.world in
        elim projected [
          | none ↦ record r { world = w; hook_errors = suc r.hook_errors }
          | some x ↦ write_some x (record r { world = w })
        ]
  ]

  unfoldable pub observe_event : E → Recorder E W → Recorder E W
  observe_event e r = elim h.observe [
    | none ↦ r
    | some f ↦
        let (w, fine) = f e r.world in
        if fine
        then record r { world = w }
        else record r { world = w; hook_errors = suc r.hook_errors }
  ]

  unfoldable pub consume : E → Recorder E W → Recorder E W
  unfolding write_event observe_event
  consume e r = observe_event e (if r.raw then write_event e r else r)

  unfoldable pub report_dropped : Recorder E W → Recorder E W
  report_dropped r = if leb r.dropped r.reported_dropped then r else record r {
    reported_dropped = r.dropped;
    dropped_counter = r.dropped_counter + (r.dropped - r.reported_dropped);
  }

  unfoldable pub report_overflow : Recorder E W → Recorder E W
  report_overflow r = elim h.overflow [
    | none ↦ r
    | some f ↦
        let (w, taken) = f r.world in
        elim taken [
          | none ↦ record r { world = w; hook_errors = suc r.hook_errors }
          | some n ↦ record r { world = w; overflow_counter = r.overflow_counter + n }
        ]
  ]

  unfoldable pub run_hook : Bool → Recorder E W → Recorder E W
  unfolding write_all
  run_hook final r = elim h.on_flush [
    | none ↦ r
    | some f ↦
        let (w, emitted) = f final r.world in
        write_all emitted.0 (
          if emitted.1
          then record r { world = w }
          else record r { world = w; hook_errors = suc r.hook_errors })
  ]

  abbrev pub sink_call : (W → W × Bool) → Recorder E W → Recorder E W
  sink_call f r =
      let (w, fine) = f r.world in
      if fine
      then record r { world = w }
      else record r { world = w; sink_errors = suc r.sink_errors }

  unfoldable pub run_flush : Bool → Recorder E W → Recorder E W
  unfolding run_hook report_dropped report_overflow
  run_flush final r = sink_call h.sink_flush (report_overflow (report_dropped (run_hook final r)))

  -- What a task does once there is nothing left to drain.
  unfoldable pub finish : Task → Recorder E W → Recorder E W
  unfolding run_flush
  finish drains r = r
  finish flushes r = run_flush false r
  finish ticks r = run_flush false r
  finish closes r = sink_call h.sink_close (run_flush true r)

  -- A tick does not drain.
  abbrev pub start : Task → Recorder E W → Recorder E W
  start drains r = record r { active = some drains; drain_scheduled = false }
  start ticks r = finish ticks r
  start t r = record r { active = some t }

  unfoldable pub go_on : Task → Recorder E W → Recorder E W
  unfolding shift consume finish
  go_on t r =
      let (rest, oldest) = shift r.buffer in
      if r.buffer.count == 0 then finish t (record r { active = none }) else elim oldest [
        | some e ↦ consume e (record r { buffer = rest })
        -- No slot of the queue is absent.
        | none ↦ record r { buffer = rest }
      ]

  unfoldable pub turn : Recorder E W → Recorder E W
  unfolding go_on
  turn r = elim r.active [
    | some t ↦ go_on t r
    | none ↦ elim r.chain [ [] ↦ r | t ∷ ts ↦ start t (record r { chain = ts }) ]
  ]

pub data Call (E : Type 0) : Type 0 where
  records : E → Call E
  flushes ticks closes turns : Call E

module _ {E R W : Type 0} (h : Hooks E R W) where
  unfoldable pub step : Call E → Recorder E W → Recorder E W
  unfolding record_event turn
  step (records e) r = record_event e r
  step flushes r = flush r
  step ticks r = tick r
  step closes r = close r
  step turns r = turn h r

  unfoldable pub run : List (Call E) → Recorder E W → Recorder E W
  unfolding step
  run [] r = r
  run (c ∷ cs) r = run cs (step c r)
