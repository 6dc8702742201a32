-- ===== src/EventCapture/RingBuffer.antt =====
-- packages/eventcapture/src/ring-buffer.ts, and the queue that it stands for. An absent slot is
-- `none`.
use native.Mathlib.Nat.{mod-eq_of_lt, mod-eq-sub-mod, mod-lt, mod-add-mod, add-mod_right}
use platform_ts.Prelude.{
  ℕ, zero, suc, ◌+◌, ◌-◌, ◌%◌, ◌≤◌, ◌<◌, ◌≡◌, refl, sym, ap, subst, ◌∙◌, ◌≢◌, Bool, true, false,
  Option, none, some, List, [], ◌∷◌, ◌++◌, arith, dec_lt, ltb, leb, ◌==◌, if◌then◌else◌, lt→ltb,
  length, get_elem?, set, length-append, length-set,
}

pub record RingBuffer {ℓ} (T : Type ℓ) : Type ℓ where
  pub items : List (Option T)
  pub head : ℕ
  pub count : ℕ

abbrev absent {ℓ} : {T : Type ℓ} → ℕ → List (Option T)
absent zero = []
absent (suc n) = none ∷ absent n

-- A capacity below zero, which becomes zero, is one of zero here.
abbrev pub new_ring {ℓ} : {T : Type ℓ} → ℕ → RingBuffer T
new_ring capacity = record { items = absent capacity; head = 0; count = 0 }

module _ {ℓ} {T : Type ℓ} where
  abbrev pub capacity : RingBuffer T → ℕ
  capacity b = length b.items

  unfoldable pub push : T → RingBuffer T → RingBuffer T × Bool
  push x b = if leb (length b.items) b.count then (b, false) else (
    record b {
      items = set b.items ((b.head + b.count) % length b.items) (some x);
      count = suc b.count;
    },
    true,
  )

  -- A read of a slot; beyond the array it is absent.
  abbrev slot : List (Option T) → ℕ → Option T
  slot items i = elim (get_elem? items i) [ none ↦ none | some v ↦ v ]

  unfoldable pub shift : RingBuffer T → RingBuffer T × Option T
  shift b = if b.count == 0 then (b, none) else (
    record {
      items = set b.items b.head none;
      head = (b.head + 1) % length b.items;
      count = b.count - 1;
    },
    slot b.items b.head,
  )

  -- The slots from `pos` on hold the entries of the queue, in order, around the end of the array.
  abbrev Slots : List (Option T) → ℕ → ℕ → List T → Type ℓ
  Slots items n pos [] = Unit
  Slots items n pos (x ∷ q) = (slot items pos ≡ some x) × Slots items n ((pos + 1) % n) q

  -- The buffer stands for a queue, the oldest entry first.
  pub record Holds (b : RingBuffer T) (q : List T) : Type ℓ where
    pub counts : b.count ≡ length q
    pub fits : b.count ≤ length b.items
    pub starts : (0 < length b.items) → b.head < length b.items
    pub slots : Slots b.items (length b.items) b.head q

  slot-set :
      (items : List (Option T)) (i : ℕ) (v : Option T)
      → i < length items
      → slot (set items i v) i ≡ v
  slot-set [] i v h = absurd (omega arith)
  slot-set (x ∷ items) zero v h = refl
  slot-set (x ∷ items) (suc i) v h = slot-set items i v (omega arith)

  slot-set_other :
      (items : List (Option T)) (i k : ℕ) (v : Option T)
      → i ≢ k
      → slot (set items i v) k ≡ slot items k
  slot-set_other [] i k v h = refl
  slot-set_other (x ∷ items) zero zero v h = absurd (h refl)
  slot-set_other (x ∷ items) zero (suc k) v h = refl
  slot-set_other (x ∷ items) (suc i) zero v h = refl
  slot-set_other (x ∷ items) (suc i) (suc k) v h = slot-set_other items i k v (λ e. h (ap suc e))

-- A position that goes around less than once.
around-ne : (n pos d : ℕ) → pos < n → 0 < d → d < n → (pos + d) % n ≢ pos
around-ne n pos d h p k = elim (dec_lt (pos + d) n) [
  | yes low ↦ λ e. omega (arith, e, mod-eq_of_lt low)
  | no high ↦ λ e. omega (
    arith,
    e,
    mod-eq-sub-mod {n = pos + d} {m = n} (omega arith),
    mod-eq_of_lt {n = pos + d - n} {m = n} (omega arith),
  )
]

next_around : (n pos d : ℕ) → (pos + suc d) % n ≡ ((pos + 1) % n + d) % n
next_around n pos d = ap (λ k. k % n) (omega arith) ∙ sym (mod-add-mod (pos + 1) n d)

module _ {ℓ} {T : Type ℓ} where
  Slots-set :
      (items : List (Option T)) (n pos d t : ℕ) (v : Option T) (q : List T)
      → pos < n
      → length q ≤ d
      → d < n
      → t ≡ (pos + d) % n
      → Slots items n pos q
      → Slots (set items t v) n pos q
  Slots-set items n pos d t v [] h k l e s = tt
  Slots-set items n pos zero t v (x ∷ q) h k l e s = absurd (omega arith)
  Slots-set items n pos (suc d) t v (x ∷ q) h k l e s = (
    slot-set_other items t pos v (λ same. around-ne n pos (suc d) h (omega arith) l (sym e ∙ same))
        ∙ s.0,
    Slots-set items n ((pos + 1) % n) d t v q (mod-lt (pos + 1) (omega arith)) (omega arith)
        (omega arith) (e ∙ next_around n pos d) s.1,
  )

  Slots-snoc :
      (items : List (Option T)) (n pos : ℕ) (x : T) (q : List T)
      → pos < n
      → Slots items n pos q
      → slot items ((pos + length q) % n) ≡ some x
      → Slots items n pos (q ++ x ∷ [])
  Slots-snoc items n pos x [] h s e =
      (ap (slot items) (sym (mod-eq_of_lt h) ∙ ap (λ k. k % n) (omega arith)) ∙ e, tt)
  Slots-snoc items n pos x (y ∷ q) h s e = (
    s.0,
    Slots-snoc items n ((pos + 1) % n) x q (mod-lt (pos + 1) (omega arith)) s.1
        (ap (slot items) (sym (next_around n pos (length q))) ∙ e),
  )

  push-room :
      (x : T) (b : RingBuffer T)
      → b.count < length b.items
      → push x b ≡ (
        record b {
          items = set b.items ((b.head + b.count) % length b.items) (some x);
          count = suc b.count;
        },
        true,
      )
  unfolding push
  push-room x b h = ground arith

  push-full : (x : T) (b : RingBuffer T) → length b.items ≤ b.count → push x b ≡ (b, false)
  unfolding push
  push-full x b h = ground arith

  -- A push onto a full buffer is refused and changes nothing, and any other puts its entry at the
  -- end of the queue.
  pub push-Holds :
      (x : T) (b : RingBuffer T) (q : List T)
      → Holds b q
      → let (b', stored) = push x b in
        (capacity b' ≡ capacity b)
        × (stored ≡ ltb (length q) (capacity b))
        × Holds b' (if ltb (length q) (capacity b) then q ++ x ∷ [] else q)
  push-Holds x b q v = elim (dec_lt (length q) (length b.items)) [
    | yes room ↦
        let start = v.starts (omega arith) in
        let t = (b.head + length q) % length b.items in
        let same : (b.head + b.count) % length b.items ≡ t =
          ap (λ k. (b.head + k) % length b.items) v.counts in
        let inside = mod-lt (b.head + length q) {m = length b.items} (omega arith) in
        let size = length-set b.items t (some x) in
        let kept =
          Slots-set b.items (length b.items) b.head (length q) t (some x) q start (omega arith) room
            refl v.slots in
        let added =
          Slots-snoc (set b.items t (some x)) (length b.items) b.head x q start kept
            (slot-set b.items t (some x) inside) in
        rw (push-room x b (omega (arith, v.counts))) (
          rw (lt→ltb (length q) (length b.items) room) (
            rw same (
              size,
              refl,
              record {
                counts = omega (arith, v.counts, length-append q (x ∷ []));
                fits = omega (arith, v.counts, size);
                starts = λ h. omega (arith, size, start);
                slots =
                    subst (λ n. Slots (set b.items t (some x)) n b.head (q ++ x ∷ [])) (sym size)
                      added;
              },
            )))
    | no full ↦
        let over : ltb (length q) (length b.items) ≡ false = ground arith in
        rw (push-full x b (omega (arith, v.counts))) (rw over (refl, refl, v))
  ]

  -- The oldest entry, and the others.
  abbrev pub oldest : List T → Option T
  oldest [] = none
  oldest (x ∷ q) = some x

  abbrev pub others : List T → List T
  others [] = []
  others (x ∷ q) = q

  -- A shift takes the oldest entry off the queue, and nothing off an empty one.
  pub shift-Holds :
      (b : RingBuffer T) (q : List T)
      → Holds b q
      → let (b', taken) = shift b in
        (capacity b' ≡ capacity b) × (taken ≡ oldest q) × Holds b' (others q)
  unfolding shift
  shift-Holds b [] v = ground (arith, v.counts, v)
  shift-Holds b (x ∷ q) v =
      let n = length b.items in
      let some_room : 0 < n = omega (arith, v.counts, v.fits) in
      let start = v.starts some_room in
      let size = length-set b.items b.head none in
      let back : b.head ≡ ((b.head + 1) % n + (n - 1)) % n =
        sym (mod-eq_of_lt start)
        ∙ sym (add-mod_right b.head n)
        ∙ ap (λ k. k % n) (omega arith)
        ∙ next_around n b.head (n - 1) in
      let kept =
        Slots-set b.items n ((b.head + 1) % n) (n - 1) b.head none q (mod-lt (b.head + 1) some_room)
          (omega (arith, v.counts, v.fits)) (omega arith) back v.slots.1 in
      ground (arith, v.counts, v.fits, size)
