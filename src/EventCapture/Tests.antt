-- ===== src/EventCapture/Tests.antt =====
-- A buffer that wraps around and a recorder that drops an event, and the theorems at them.
use platform_ts.EventCapture.RingBuffer.{
  RingBuffer, Holds, push, shift, push-Holds, shift-Holds, capacity,
}
use platform_ts.EventCapture.Recorder.{
  step, record_event, turn, go_on, consume, write_event, observe_event, write_record, Hooks,
  Recorder, Call, records, turns, new_recorder, run,
}
use platform_ts.EventCapture.Recorder
use platform_ts.EventCapture.Recorder.Settles.{work, run-settles, only_turns}
use platform_ts.EventCapture.Recorder.Watching.{Watches}
use platform_ts.EventCapture.Recorder.Accounts.{Drops, run-accounts}
use platform_ts.EventCapture.Aggregator.{Aggregator, observe, window, flush, is_due}
use platform_ts.EventCapture.Aggregator.Flushes.{
  counts_at, is_counted, observe-counts_at, IsBounded, observe-IsBounded, Ascends, total,
  flush_takes_due,
}
use platform_ts.Prelude.{
  ℕ, suc, ◌+◌, ◌≤◌, ◌≡◌, refl, inr, ite, true, false, not, ◌&&◌, Option, none, some, List, [], ◌∷◌,
  ◌++◌, arith, string_discrete, ◌==◌, if◌then◌else◌, All,
}

abbrev wrapped : RingBuffer ℕ
wrapped = record { items = some 5 ∷ none ∷ some 4 ∷ []; head = 2; count = 2 }

wrapped-Holds : Holds wrapped (4 ∷ 5 ∷ [])
wrapped-Holds = record {
  counts = refl;
  fits = omega arith;
  starts = λ h. omega arith;
  slots = (refl, (refl, tt));
}

push-Holds_example :
    let (b, stored) = push 6 wrapped in
    (capacity b ≡ 3) × (stored ≡ true) × Holds b (4 ∷ 5 ∷ 6 ∷ [])
push-Holds_example = push-Holds 6 wrapped (4 ∷ 5 ∷ []) wrapped-Holds

shift-Holds_example :
    let (b, taken) = shift wrapped in (capacity b ≡ 3) × (taken ≡ some 4) × Holds b (5 ∷ [])
shift-Holds_example = shift-Holds wrapped (4 ∷ 5 ∷ []) wrapped-Holds

-- The world is what the hook has seen; every write fails.
abbrev watching : Hooks ℕ ℕ (List ℕ)
watching = record {
  write = λ x w. (w, false);
  sink_flush = λ w. (w, true);
  sink_close = λ w. (w, true);
  itself = λ e. some e;
  transform = none;
  observe = some (λ e w. (w ++ e ∷ [], true));
  on_flush = none;
  overflow = none;
}

watching-Watches : Watches watching (λ w. w)
watching-Watches = record {
  observes = λ e w. (w ++ e ∷ [], true);
  is_hook = refl;
  adds = λ e w. refl;
  write_keeps = λ x w. refl;
  flush_keeps = λ w. refl;
  close_keeps = λ w. refl;
  transform_keeps = λ f e. absurd (cc e);
  hook_keeps = λ f e. cc;
  overflow_keeps = λ f e. cc;
}

abbrev calls : List (Call ℕ)
calls = records 1 ∷ records 2 ∷ records 3 ∷ turns ∷ turns ∷ Recorder.closes ∷ []

run-accounts_example :
    let r = run watching calls (new_recorder 2 true []) in
    (queue : List ℕ) × Holds r.buffer queue × Drops r.dropped (1 ∷ 2 ∷ 3 ∷ []) (r.world ++ queue)
run-accounts_example = run-accounts watching (λ w. w) watching-Watches 2 true [] calls refl

enough : work (run watching calls (new_recorder 2 true [])) ≤ 9
unfolding run step record_event turn go_on push shift consume write_event observe_event write_record
    new_recorder
enough = omega arith

run-settles_example :
    let r = run watching (only_turns watching 9) (run watching calls (new_recorder 2 true [])) in
    (r.buffer.count ≡ 0) × (r.chain ≡ []) × (r.active ≡ none)
run-settles_example = run-settles watching 2 9 true [] calls enough

-- Two windows of one minute, with room for two cells.
abbrev minutes : Aggregator ℕ
minutes = record {
  cells =
      record { start = 60000; size_ms = 60000; key = "a"; counts = 4 }
      ∷ record { start = 0; size_ms = 60000; key = "b"; counts = 3 }
      ∷ [];
  bucket_ms = 60000;
  max_keys = 2;
  key_order = none;
  overflow = 0;
}

abbrev plus_one : Option ℕ → ℕ
plus_one none = 1
plus_one (some n) = suc n

observe-counts_at_example :
    let a = observe "b" 59999 plus_one minutes in
    let start = window 60000 59999 in
    (counts_at 0 "b" a.cells ≡ (
      if is_counted "b" 59999 minutes && ((start == 0) && ite (string_discrete "b" "b") true false)
      then some (plus_one (counts_at start "b" minutes.cells))
      else counts_at 0 "b" minutes.cells))
    × (a.overflow ≡ (if is_counted "b" 59999 minutes then 0 else 1))
observe-counts_at_example = observe-counts_at "b" 59999 plus_one minutes 0 "b"

observe-IsBounded_example : IsBounded (observe "c" 5 plus_one minutes)
observe-IsBounded_example = observe-IsBounded "c" 5 plus_one minutes (inr (omega arith))

flush_takes_due_example :
    let (a, out) = flush 60000 false minutes in
    Ascends out
    × All (λ b. is_due 60000 false minutes b ≡ true) out
    × All (λ b. not (is_due 60000 false minutes b) ≡ true) a.cells
    × (total (λ b. b.counts) out + total (λ b. b.counts) a.cells ≡ 7)
flush_takes_due_example = flush_takes_due (λ b. b.counts) 60000 false minutes
