-- ===== src/EventCapture/Recorder/Frames.antt =====
-- What the sink and the hooks cannot touch: the buffer, the chain and the flags.
use platform_ts.EventCapture.RingBuffer.{RingBuffer, shift}
use platform_ts.EventCapture.Recorder.{
  Hooks, Task, drains, flushes, ticks, closes, Recorder, write_record, write_all, write_event,
  observe_event, consume, report_dropped, report_overflow, run_hook, run_flush, finish, turn, go_on,
}
use platform_ts.Prelude.{
  ℕ, suc, ◌<◌, ◌≡◌, refl, ◌∙◌, inl, inr, Bool, true, false, Option, none, some, List, [], ◌∷◌,
  arith, if◌then◌else◌, Option-cases,
}

abbrev pub control :
    {E W : Type 0} → Recorder E W → RingBuffer E × (ℕ × (Bool × (Bool × (List Task × Option Task))))
control r = (r.buffer, (r.dropped, (r.drain_scheduled, (r.closed, (r.chain, r.active)))))

module _ {E R W : Type 0} (h : Hooks E R W) where
  write_record-control : (x : R) (r : Recorder E W) → control (write_record h x r) ≡ control r
  unfolding write_record
  write_record-control x r = ground arith

  write_all-control : (xs : List R) (r : Recorder E W) → control (write_all h xs r) ≡ control r
  unfolding write_all
  write_all-control [] r = refl
  write_all-control (x ∷ xs) r =
      write_all-control xs (write_record h x r) ∙ write_record-control x r

  write_event-control : (e : E) (r : Recorder E W) → control (write_event h e r) ≡ control r
  unfolding write_event write_record
  write_event-control e r = ground arith

  observe_event-control : (e : E) (r : Recorder E W) → control (observe_event h e r) ≡ control r
  unfolding observe_event
  observe_event-control e r = ground arith

  pub consume-control : (e : E) (r : Recorder E W) → control (consume h e r) ≡ control r
  unfolding consume
  consume-control e r =
      observe_event-control e (if r.raw then write_event h e r else r)
      ∙ ground (arith, write_event-control e r)

  run_hook-control : (final : Bool) (r : Recorder E W) → control (run_hook h final r) ≡ control r
  unfolding run_hook
  run_hook-control final r = elim (Option-cases h.on_flush) [
    | inl off ↦ rw off refl
    | inr (f, on) ↦ rw on (
        let w = f final r.world in
        write_all-control w.1.0 (
          if w.1.1
          then record r { world = w.0 }
          else record r { world = w.0; hook_errors = suc r.hook_errors })
        ∙ ground arith)
  ]

  pub run_flush-control :
      (final : Bool) (r : Recorder E W) → control (run_flush h final r) ≡ control r
  unfolding run_flush report_dropped report_overflow
  run_flush-control final r = ground (arith, run_hook-control final r)

  pub finish-control : (t : Task) (r : Recorder E W) → control (finish h t r) ≡ control r
  unfolding finish
  finish-control drains r = refl
  finish-control flushes r = run_flush-control false r
  finish-control ticks r = run_flush-control false r
  finish-control closes r = ground (arith, run_flush-control true r)

  -- The turns, by what is under way and what waits.
  pub turn-finish :
      (t : Task) (r : Recorder E W)
      → r.active ≡ some t
      → r.buffer.count ≡ 0
      → turn h r ≡ finish h t (record r { active = none })
  unfolding turn go_on
  turn-finish t r busy empty = ground (arith, busy, empty)

  pub turn-consume :
      (t : Task) (r : Recorder E W)
      → r.active ≡ some t
      → 0 < r.buffer.count
      → control (turn h r) ≡ control (record r { buffer = (shift r.buffer).0 })
  unfolding turn go_on
  turn-consume t r busy more = elim (Option-cases (shift r.buffer).1) [
    | inl absent ↦ ground (arith, busy, absent)
    | inr (e, taken) ↦
        ground (arith, busy, taken, consume-control e (record r { buffer = (shift r.buffer).0 }))
  ]
