-- ===== src/EventCapture/Recorder/Watching.antt =====
-- An observe hook that keeps what it sees, and how far the rest of a turn leaves that alone.
use platform_ts.EventCapture.Recorder.{
  write_some, Hooks, Task, Recorder, write_record, write_all, write_event, observe_event, consume,
  report_dropped, report_overflow, run_hook, run_flush, finish,
}
use platform_ts.EventCapture.Recorder.{
  drains as task_drains, flushes as task_flushes, ticks as task_ticks, closes as task_closes,
}
use platform_ts.Prelude.{
  ℕ, suc, ◌≡◌, refl, ◌∙◌, inl, inr, Bool, true, false, Option, none, some, List, [], ◌∷◌, ◌++◌,
  arith, if◌then◌else◌, Option-cases,
}

module _ {E R W : Type 0} (h : Hooks E R W) (seen : W → List E) where
  -- The observe hook keeps a list of what it has seen, and nothing else changes it.
  pub record Watches : Type 0 where
    pub observes : E → W → W × Bool
    pub is_hook : h.observe ≡ some observes
    pub adds : (e : E) (w : W) → seen (observes e w).0 ≡ seen w ++ e ∷ []
    pub write_keeps : (x : R) (w : W) → seen (h.write x w).0 ≡ seen w
    pub flush_keeps : (w : W) → seen (h.sink_flush w).0 ≡ seen w
    pub close_keeps : (w : W) → seen (h.sink_close w).0 ≡ seen w
    pub transform_keeps :
        (f : E → W → W × Option (Option R))
        → h.transform ≡ some f
        → (e : E) (w : W) → seen (f e w).0 ≡ seen w
    pub hook_keeps :
        (f : Bool → W → W × (List R × Bool))
        → h.on_flush ≡ some f
        → (final : Bool) (w : W) → seen (f final w).0 ≡ seen w
    pub overflow_keeps :
        (f : W → W × Option ℕ) → h.overflow ≡ some f → (w : W) → seen (f w).0 ≡ seen w

  module _ (v : Watches) where
    write_record-seen : (x : R) (r : Recorder E W) → seen (write_record h x r).world ≡ seen r.world
    unfolding write_record
    write_record-seen x r = ground (arith, v.write_keeps x r.world)

    write_all-seen : (xs : List R) (r : Recorder E W) → seen (write_all h xs r).world ≡ seen r.world
    unfolding write_all
    write_all-seen [] r = refl
    write_all-seen (x ∷ xs) r = write_all-seen xs (write_record h x r) ∙ write_record-seen x r

    write_some-seen :
        (o : Option R) (r : Recorder E W) → seen (write_some h o r).world ≡ seen r.world
    write_some-seen none r = refl
    write_some-seen (some x) r = write_record-seen x r

    write_event-seen : (e : E) (r : Recorder E W) → seen (write_event h e r).world ≡ seen r.world
    unfolding write_event write_record
    write_event-seen e r = elim (Option-cases h.transform) [
      | inl off ↦ ground (arith, off, write_some-seen (h.itself e) r)
      | inr (f, on) ↦
          let w = f e r.world in
          let kept = v.transform_keeps f on e r.world in
          elim (Option-cases w.1) [
            | inl threw ↦ ground (arith, on, threw, kept)
            | inr (x, got) ↦
                ground (arith, on, got, kept, write_some-seen x (record r { world = w.0 }))
          ]
    ]

    pub consume-seen :
        (e : E) (r : Recorder E W) → seen (consume h e r).world ≡ seen r.world ++ e ∷ []
    unfolding consume observe_event
    consume-seen e r =
        let after = if r.raw then write_event h e r else r in
        ground (arith, v.is_hook, write_event-seen e r, v.adds e after.world)

    run_hook-seen :
        (final : Bool) (r : Recorder E W) → seen (run_hook h final r).world ≡ seen r.world
    unfolding run_hook
    run_hook-seen final r = elim (Option-cases h.on_flush) [
      | inl off ↦ rw off refl
      | inr (f, on) ↦ rw on (
          let w = f final r.world in
          write_all-seen w.1.0 (
            if w.1.1
            then record r { world = w.0 }
            else record r { world = w.0; hook_errors = suc r.hook_errors })
          ∙ ground (arith, v.hook_keeps f on final r.world))
    ]

    report_overflow-seen : (r : Recorder E W) → seen (report_overflow h r).world ≡ seen r.world
    unfolding report_overflow
    report_overflow-seen r = elim (Option-cases h.overflow) [
      | inl off ↦ ground (arith, off)
      | inr (f, on) ↦ ground (arith, on, v.overflow_keeps f on r.world)
    ]

    run_flush-seen :
        (final : Bool) (r : Recorder E W) → seen (run_flush h final r).world ≡ seen r.world
    unfolding run_flush report_dropped
    run_flush-seen final r =
        let hooked = run_hook h final r in
        let reported = report_dropped h hooked in
        let over = report_overflow h reported in
        ground
          (arith, v.flush_keeps over.world, report_overflow-seen reported, run_hook-seen final r)

    pub finish-seen : (t : Task) (r : Recorder E W) → seen (finish h t r).world ≡ seen r.world
    unfolding finish
    finish-seen task_drains r = refl
    finish-seen task_flushes r = run_flush-seen false r
    finish-seen task_ticks r = run_flush-seen false r
    finish-seen task_closes r =
        ground (arith, v.close_keeps (run_flush h true r).world, run_flush-seen true r)
