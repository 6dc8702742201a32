-- ===== src/EventCapture/Recorder/Settles.antt =====
-- The tasks that buffered events wait for, and the turns that are left.
use platform_ts.EventCapture.RingBuffer.{RingBuffer, push, shift}
use platform_ts.EventCapture.Recorder.{
  Hooks, Task, drains, flushes, ticks, closes, Recorder, Call, records, turns, consume, finish,
  go_on, turn, step, run, new_recorder, record_event,
}
use platform_ts.EventCapture.Recorder
use platform_ts.EventCapture.Recorder.Frames.{
  control, turn-finish, turn-consume, turn-finish, turn-consume, finish-control,
}
use platform_ts.Prelude.{
  ℕ, zero, suc, ◌+◌, ◌-◌, ◌*◌, ◌≤◌, ◌<◌, ◌≡◌, refl, ap, ◌∙◌, inl, inr, Bool, true, false, ◌||◌,
  Option, none, some, List, [], ◌∷◌, ◌++◌, arith, dec_lt, Option-cases, length, List-cases,
}

abbrev pub is_drain : Task → Bool
is_drain drains = true
is_drain _ = false

-- Whether a task will empty the buffer before it ends.
abbrev pub takes_events : Task → Bool
takes_events ticks = false
takes_events _ = true

abbrev pub any_task : (Task → Bool) → List Task → Bool
any_task p [] = false
any_task p (t ∷ ts) = p t || any_task p ts

any_task-append :
    (p : Task → Bool) (ts us : List Task) → any_task p (ts ++ us) ≡ (any_task p ts || any_task p us)
any_task-append p [] us = refl
any_task-append p (t ∷ ts) us = ground (arith, any_task-append p ts us)

drain-takes : (ts : List Task) → any_task is_drain ts ≡ true → any_task takes_events ts ≡ true
drain-takes [] h = cc
drain-takes (drains ∷ ts) h = refl
drain-takes (flushes ∷ ts) h = refl
drain-takes (ticks ∷ ts) h = drain-takes ts h
drain-takes (closes ∷ ts) h = refl

abbrev pub active_takes : Option Task → Bool
active_takes none = false
active_takes (some t) = takes_events t

-- An event in the buffer waits for a task on the chain or under way that takes it, and a drain
-- that is said to be scheduled is on the chain.
pub record IsServed {E W : Type 0} (r : Recorder E W) : Type 0 where
  pub waits : 0 < r.buffer.count → (active_takes r.active || any_task takes_events r.chain) ≡ true
  pub scheduled : r.drain_scheduled ≡ true → any_task is_drain r.chain ≡ true

-- The turns that are left.
abbrev pub work : {E W : Type 0} → Recorder E W → ℕ
work r = r.buffer.count + (2 * length r.chain + elim r.active [ none ↦ 0 | some t ↦ 1 ])

IsServed-control :
    {E W : Type 0} (r s : Recorder E W) → control s ≡ control r → IsServed r → IsServed s
IsServed-control r s e v = ground (arith, e, v.waits, v.scheduled)

work-control : {E W : Type 0} (r s : Recorder E W) → control s ≡ control r → work s ≡ work r
work-control r s e = ground (arith, e)

shift-count : {T : Type 0} (b : RingBuffer T) → (shift b).0.count ≡ b.count - 1
unfolding shift
shift-count b = ground arith

module _ {E R W : Type 0} (h : Hooks E R W) where
  pub turn-rest : (r : Recorder E W) → r.active ≡ none → r.chain ≡ [] → turn h r ≡ r
  unfolding turn
  turn-rest r idle rest = ground (arith, idle, rest)

  start-ticks :
      (ts : List Task) (r : Recorder E W)
      → r.active ≡ none
      → r.chain ≡ ticks ∷ ts
      → turn h r ≡ finish h ticks (record r { chain = ts })
  unfolding turn
  start-ticks ts r idle e = ground (arith, idle, e)

  -- A turn with nothing under way takes the next task.
  start-turn :
      (t : Task) (ts : List Task) (r : Recorder E W)
      → r.active ≡ none
      → r.chain ≡ t ∷ ts
      → IsServed r
      → IsServed (turn h r) × (suc (work (turn h r)) ≤ work r)
  unfolding turn
  start-turn drains ts r idle e v = ground (arith, v.waits, v.scheduled)
  start-turn flushes ts r idle e v = ground (arith, v.waits, v.scheduled)
  start-turn ticks ts r idle e v =
      let left = record r { chain = ts } in
      let same : control (turn h r) ≡ control left =
        ap control (start-ticks ts r idle e) ∙ finish-control h ticks left in
      let served : IsServed left = ground (arith, v.waits, v.scheduled) in
      (
        IsServed-control left (turn h r) same served,
        omega (arith, work-control left (turn h r) same, ap length e),
      )
  start-turn closes ts r idle e v = ground (arith, v.waits, v.scheduled)

  turn-step : (r : Recorder E W) → IsServed r → IsServed (turn h r) × (work (turn h r) ≤ work r - 1)
  turn-step r v = elim (Option-cases r.active) [
    | inr (t, busy) ↦ elim (dec_lt 0 r.buffer.count) [
      | yes more ↦
          let left = record r { buffer = (shift r.buffer).0 } in
          let same = turn-consume h t r busy more in
          let fewer : (shift r.buffer).0.count ≡ r.buffer.count - 1 = shift-count r.buffer in
          let served : IsServed left = ground (arith, v.waits, v.scheduled, fewer) in
          (
            IsServed-control left (turn h r) same served,
            omega (arith, work-control left (turn h r) same, fewer),
          )
      | no empty ↦
          let left = record r { active = none } in
          let same : control (turn h r) ≡ control left =
            ap control (turn-finish h t r busy (omega arith)) ∙ finish-control h t left in
          let served : IsServed left = ground (arith, v.scheduled) in
          let fewer : suc (work left) ≡ work r = ground (arith, busy) in
          (
            IsServed-control left (turn h r) same served,
            omega (arith, work-control left (turn h r) same, fewer),
          )
    ]
    | inl idle ↦ elim (List-cases r.chain) [
      | inl rest ↦
          let empty : r.buffer.count ≡ 0 = ground (arith, idle, rest, v.waits) in
          rw (turn-rest r idle rest) (v, ground (arith, idle, rest, empty))
      | inr (t, ts, e) ↦ let next = start-turn t ts r idle e v in (next.0, omega (arith, next.1))
    ]
  ]

  turn-IsServed : (r : Recorder E W) → IsServed r → IsServed (turn h r)
  turn-IsServed r v = (turn-step r v).0

  step-IsServed : (c : Call E) (r : Recorder E W) → IsServed r → IsServed (step h c r)
  unfolding step record_event push
  step-IsServed (records e) r v = ground (
    arith,
    v.waits,
    v.scheduled,
    any_task-append takes_events r.chain (drains ∷ []),
    any_task-append is_drain r.chain (drains ∷ []),
    drain-takes r.chain,
  )
  step-IsServed Recorder.flushes r v = ground (
    arith,
    v.waits,
    v.scheduled,
    any_task-append takes_events r.chain (flushes ∷ []),
    any_task-append is_drain r.chain (flushes ∷ []),
  )
  step-IsServed Recorder.ticks r v = ground (
    arith,
    v.waits,
    v.scheduled,
    any_task-append takes_events r.chain (ticks ∷ []),
    any_task-append is_drain r.chain (ticks ∷ []),
  )
  step-IsServed Recorder.closes r v = ground (
    arith,
    v.waits,
    v.scheduled,
    any_task-append takes_events r.chain (closes ∷ []),
    any_task-append is_drain r.chain (closes ∷ []),
  )
  step-IsServed turns r v = turn-IsServed r v

  pub run-IsServed : (cs : List (Call E)) (r : Recorder E W) → IsServed r → IsServed (run h cs r)
  unfolding run
  run-IsServed [] r v = v
  run-IsServed (c ∷ cs) r v = run-IsServed cs (step h c r) (step-IsServed c r v)

  abbrev pub only_turns : ℕ → List (Call E)
  only_turns zero = []
  only_turns (suc n) = turns ∷ only_turns n

  settle : (n : ℕ) (r : Recorder E W) → IsServed r → work r ≤ n → work (run h (only_turns n) r) ≡ 0
  unfolding run step
  settle zero r v k = omega arith
  settle (suc n) r v k =
      let next = turn-step r v in settle n (turn h r) next.0 (omega (arith, next.1))

  -- After any calls on a new recorder, its chain comes to rest with an empty buffer once it has had
  -- a turn for each buffered event, two for each task that waits and one for the task under way,
  -- whatever the sink and the hooks do. No accepted event is stranded.
  pub run-settles :
      (size n : ℕ) (raw : Bool) (w : W) (cs : List (Call E))
      → work (run h cs (new_recorder size raw w)) ≤ n
      → let r = run h (only_turns n) (run h cs (new_recorder size raw w)) in
        (r.buffer.count ≡ 0) × (r.chain ≡ []) × (r.active ≡ none)
  unfolding new_recorder
  run-settles size n raw w cs k =
      let fresh : IsServed (new_recorder size raw w) = ground arith in
      let rest : work (run h (only_turns n) (run h cs (new_recorder size raw w))) ≡ 0 =
        settle n (run h cs (new_recorder size raw w))
          (run-IsServed cs (new_recorder size raw w) fresh) k in
      ground (arith, rest)
