-- ===== src/EventCapture/Recorder/Accounts.antt =====
-- What becomes of every recorded event.
use platform_ts.EventCapture.RingBuffer.{Holds, push, shift, push-Holds, shift-Holds, capacity}
use platform_ts.EventCapture.Recorder.{
  write_some, start, Hooks, Task, Recorder, Call, records, turns, write_record, write_all,
  write_event, observe_event, consume, report_dropped, report_overflow, run_hook, run_flush, finish,
  go_on, turn, step, run, new_recorder, record_event,
}
use platform_ts.EventCapture.Recorder.{
  drains as task_drains, flushes as task_flushes, ticks as task_ticks, closes as task_closes,
}
use platform_ts.EventCapture.Recorder
use platform_ts.EventCapture.Recorder.Frames.{consume-control, finish-control, turn-finish}
use mathlib.Core.List.{append_assoc, append-nil}
use platform_ts.EventCapture.Recorder.Settles.{turn-rest}
use platform_ts.EventCapture.Recorder.Watching.{Watches, consume-seen, finish-seen}
use platform_ts.Prelude.{
  ℕ, suc, ◌<◌, ◌≡◌, refl, sym, ap, subst, inl, inr, Bool, true, false, not, ◌||◌, none, some, List,
  [], ◌∷◌, ◌++◌, arith, dec_lt, ltb, if◌then◌else◌, Bool-cases, Option-cases, length, List-cases,
}

-- The second list is the first one less as many entries as the number says, in the same order.
pub data Drops {E : Type 0} : ℕ → List E → List E → Type 0 where
  nothing : Drops 0 [] []
  keeps : {n : ℕ} {xs ys : List E} (x : E) → Drops n xs ys → Drops n (xs ++ x ∷ []) (ys ++ x ∷ [])
  loses : {n : ℕ} {xs ys : List E} (x : E) → Drops n xs ys → Drops (suc n) (xs ++ x ∷ []) ys

module _ {E R W : Type 0} (h : Hooks E R W) (seen : W → List E) (v : Watches h seen) where
  -- The events that were observed and those still in the buffer are the recorded ones.
  record IsAccounted (xs : List E) (r : Recorder E W) : Type 0 where
    queue : List E
    holds : Holds r.buffer queue
    drops : Drops r.dropped xs (seen r.world ++ queue)

  IsAccounted-keep :
      (xs : List E) (r s : Recorder E W)
      → r.buffer ≡ s.buffer
      → r.dropped ≡ s.dropped
      → seen r.world ≡ seen s.world
      → IsAccounted xs r
      → IsAccounted xs s
  IsAccounted-keep xs r s b d w a = record {
    queue = a.queue;
    holds = subst (λ b. Holds b a.queue) b a.holds;
    drops =
        subst (λ n. Drops n xs (seen s.world ++ a.queue)) d
          (subst (λ l. Drops r.dropped xs (l ++ a.queue)) w a.drops);
  }

  record_event-lost :
      (e : E) (r : Recorder E W)
      → (r.closed || not (push e r.buffer).1) ≡ true
      → record_event e r ≡ record r { dropped = suc r.dropped }
  unfolding record_event
  record_event-lost e r k = ground (arith, k)

  record_event-kept :
      (e : E) (r : Recorder E W)
      → (r.closed || not (push e r.buffer).1) ≡ false
      → ((record_event e r).buffer ≡ (push e r.buffer).0)
        × ((record_event e r).dropped ≡ r.dropped)
        × ((record_event e r).world ≡ r.world)
  unfolding record_event
  record_event-kept e r k = ground (arith, k)

  record_event-IsAccounted :
      (e : E) (xs : List E) (r : Recorder E W)
      → IsAccounted xs r
      → IsAccounted (xs ++ e ∷ []) (record_event e r)
  record_event-IsAccounted e xs r a = elim (Bool-cases (r.closed || not (push e r.buffer).1)) [
    | inl lost ↦
        rw (record_event-lost e r lost)
          (record { queue = a.queue; holds = a.holds; drops = loses e a.drops })
    | inr kept ↦
        let pushed = push-Holds e r.buffer a.queue a.holds in
        let same = record_event-kept e r kept in
        let room : ltb (length a.queue) (capacity r.buffer) ≡ true =
          ground (arith, kept, pushed.1) in
        record {
          queue = a.queue ++ e ∷ [];
          holds =
              subst (λ b. Holds b (a.queue ++ e ∷ [])) (sym same.0)
                (subst (λ b. Holds (push e r.buffer).0 (if b then a.queue ++ e ∷ [] else a.queue))
                  room pushed.2);
          drops =
              rw (same.1, same.2, sym (append_assoc (seen r.world) a.queue (e ∷ [])))
                (keeps e a.drops);
        }
  ]

  consume-turn :
      (t : Task) (e : E) (r : Recorder E W)
      → r.active ≡ some t
      → 0 < r.buffer.count
      → (shift r.buffer).1 ≡ some e
      → turn h r ≡ consume h e (record r { buffer = (shift r.buffer).0 })
  unfolding turn go_on
  consume-turn t e r busy more taken = ground (arith, busy, taken)

  consume-IsAccounted :
      (t : Task) (xs : List E) (r : Recorder E W)
      → r.active ≡ some t
      → 0 < r.buffer.count
      → IsAccounted xs r
      → IsAccounted xs (turn h r)
  consume-IsAccounted t xs r busy more a = elim (List-cases a.queue) [
    | inl empty ↦ absurd (omega (arith, a.holds.counts, ap length empty))
    | inr (e, rest, is_cons) ↦
        let holds = subst (λ q. Holds r.buffer q) is_cons a.holds in
        let shifted = shift-Holds r.buffer (e ∷ rest) holds in
        let left = record r { buffer = (shift r.buffer).0 } in
        let same = consume-control h e left in
        rw (consume-turn t e r busy more shifted.1) (record {
          queue = rest;
          holds = subst (λ b. Holds b rest) (sym (ap (λ c. c.0) same)) shifted.2;
          drops =
              rw
                (
                  ap (λ c. c.1.0) same,
                  consume-seen h seen v e left,
                  append_assoc (seen r.world) (e ∷ []) rest,
                )
                (subst (λ q. Drops r.dropped xs (seen r.world ++ q)) is_cons a.drops);
        })
  ]

  finish-IsAccounted :
      (t : Task) (xs : List E) (r : Recorder E W) → IsAccounted xs r → IsAccounted xs (finish h t r)
  finish-IsAccounted t xs r a =
      let same = finish-control h t r in
      IsAccounted-keep xs r (finish h t r) (sym (ap (λ c. c.0) same)) (sym (ap (λ c. c.1.0) same))
        (sym (finish-seen h seen v t r)) a

  start-IsAccounted :
      (t : Task) (xs : List E) (r : Recorder E W) → IsAccounted xs r → IsAccounted xs (start h t r)
  start-IsAccounted task_drains xs r a =
      IsAccounted-keep xs r (start h task_drains r) refl refl refl a
  start-IsAccounted task_flushes xs r a =
      IsAccounted-keep xs r (start h task_flushes r) refl refl refl a
  start-IsAccounted task_ticks xs r a = finish-IsAccounted task_ticks xs r a
  start-IsAccounted task_closes xs r a =
      IsAccounted-keep xs r (start h task_closes r) refl refl refl a

  start-turn :
      (t : Task) (ts : List Task) (r : Recorder E W)
      → r.active ≡ none
      → r.chain ≡ t ∷ ts
      → turn h r ≡ start h t (record r { chain = ts })
  unfolding turn
  start-turn t ts r idle e = ground (arith, idle, e)

  turn-IsAccounted : (xs : List E) (r : Recorder E W) → IsAccounted xs r → IsAccounted xs (turn h r)
  turn-IsAccounted xs r a = elim (Option-cases r.active) [
    | inr (t, busy) ↦ elim (dec_lt 0 r.buffer.count) [
      | yes more ↦ consume-IsAccounted t xs r busy more a
      | no empty ↦
          let left = record r { active = none } in
          rw (turn-finish h t r busy (omega arith))
            (finish-IsAccounted t xs left (IsAccounted-keep xs r left refl refl refl a))
    ]
    | inl idle ↦ elim (List-cases r.chain) [
      | inl rest ↦ rw (turn-rest h r idle rest) a
      | inr (t, ts, e) ↦
          let left = record r { chain = ts } in
          rw (start-turn t ts r idle e)
            (start-IsAccounted t xs left (IsAccounted-keep xs r left refl refl refl a))
    ]
  ]

  abbrev pub events : List (Call E) → List E
  events [] = []
  events (records e ∷ cs) = e ∷ events cs
  events (_ ∷ cs) = events cs

  enqueued :
      (t : Task) (xs : List E) (r : Recorder E W)
      → IsAccounted xs r
      → IsAccounted xs (record r { chain = r.chain ++ t ∷ [] })
  enqueued t xs r a =
      IsAccounted-keep xs r (record r { chain = r.chain ++ t ∷ [] }) refl refl refl a

  tick-IsAccounted :
      (xs : List E) (r : Recorder E W) → IsAccounted xs r → IsAccounted xs (Recorder.tick r)
  tick-IsAccounted xs r a =
      let t = Recorder.tick r in
      IsAccounted-keep xs r t (ground arith) (ground arith) (ground arith) a

  close-IsAccounted :
      (xs : List E) (r : Recorder E W) → IsAccounted xs r → IsAccounted xs (Recorder.close r)
  close-IsAccounted xs r a =
      let t = Recorder.close r in
      IsAccounted-keep xs r t (ground arith) (ground arith) (ground arith) a

  run-IsAccounted :
      (cs : List (Call E)) (xs : List E) (r : Recorder E W)
      → IsAccounted xs r
      → IsAccounted (xs ++ events cs) (run h cs r)
  unfolding run step
  run-IsAccounted [] xs r a = subst (λ l. IsAccounted l r) (sym (append-nil xs)) a
  run-IsAccounted (records e ∷ cs) xs r a =
      subst (λ l. IsAccounted l (run h cs (record_event e r)))
        (append_assoc xs (e ∷ []) (events cs))
        (run-IsAccounted cs (xs ++ e ∷ []) (record_event e r) (record_event-IsAccounted e xs r a))
  run-IsAccounted (Recorder.flushes ∷ cs) xs r a =
      run-IsAccounted cs xs (Recorder.flush r) (enqueued task_flushes xs r a)
  run-IsAccounted (Recorder.ticks ∷ cs) xs r a =
      run-IsAccounted cs xs (Recorder.tick r) (tick-IsAccounted xs r a)
  run-IsAccounted (Recorder.closes ∷ cs) xs r a =
      run-IsAccounted cs xs (Recorder.close r) (close-IsAccounted xs r a)
  run-IsAccounted (turns ∷ cs) xs r a = run-IsAccounted cs xs (turn h r) (turn-IsAccounted xs r a)

  new_recorder-IsAccounted :
      (size : ℕ) (raw : Bool) (w : W) → seen w ≡ [] → IsAccounted [] (new_recorder size raw w)
  unfolding new_recorder
  new_recorder-IsAccounted size raw w fresh = record {
    queue = [];
    holds = record { counts = refl; fits = omega arith; starts = λ h. h; slots = tt };
    drops = rw fresh nothing;
  }

  -- Whatever calls a new recorder has served, the events that it has observed, and after them those
  -- in its buffer, are the recorded ones in their order, less as many as it says it dropped, if its
  -- observe hook keeps what it sees and the sink and the other hooks leave that alone.
  pub run-accounts :
      (size : ℕ) (raw : Bool) (w : W) (cs : List (Call E))
      → seen w ≡ []
      → let r = run h cs (new_recorder size raw w) in
        (queue : List E) × Holds r.buffer queue
        × Drops r.dropped (events cs) (seen r.world ++ queue)
  run-accounts size raw w cs fresh =
      let a =
        run-IsAccounted cs [] (new_recorder size raw w)
          (new_recorder-IsAccounted size raw w fresh) in
      (a.queue, a.holds, a.drops)
