-- ===== src/Idempotency/Interleaving/Safety.antt =====
-- What holds of the callers of one key however their steps interleave.
use platform_ts.Prelude.{
  ℕ, ◌+◌, ◌≤◌, ◌≡◌, refl, sym, ◌∙◌, true, ◌||◌, Option, none, some, arith, if◌then◌else◌,
}
use platform_ts.Idempotency.Interleaving.{
  Step, Reach, System, writing, has_lock, read_hit, Stored, initial, has_claim, claim_of, read_miss,
  result_of, Pc, next, has_worked, here, acquires, gives_up, reread_hit, reread_miss, claims,
  leaves_claimed, leaves_existing, works, fails, works_unrecorded, runs_out, still_ours_to_commit,
  loses_commit, stores, still_ours_to_release, loses_release, deletes,
}

-- How often the work has had its effect, as the store and the owner of the claim show it.
abbrev effects_shown : Option Stored → (ℕ → Pc) → ℕ
effects_shown none pcs = 0
effects_shown (some r) pcs = if r.completed || has_worked (pcs r.claim_id) then 1 else 0

record Inv (s : System) : Type 0 where
  owner : (p : ℕ) → has_claim (s.pcs p) ≡ true → s.store ≡ some (claim_of p)
  holder : (p : ℕ) → has_lock (s.pcs p) ≡ true → s.lock ≡ some p
  writer : (p : ℕ) → s.pcs p ≡ writing → s.store ≡ none
  once : s.effects ≡ effects_shown s.store s.pcs + s.unrecorded + s.expiries

initial-Inv : Inv initial
initial-Inv = record { owner = λ p h. cc; holder = λ p h. cc; writer = λ p h. cc; once = refl }

-- The parts of the invariant, each kept by every step. `q` is the caller that the part is about.

owner_kept :
    {s t : System}
    → Inv s
    → Step s t
    → (q : ℕ) → has_claim (t.pcs q) ≡ true
    → t.store ≡ some (claim_of q)
owner_kept v (read_hit p r h e) q =
    ground (arith, v.owner q, v.owner p, v.holder q, v.holder p, v.writer p, h)
owner_kept v (read_miss p h e) q =
    ground (arith, v.owner q, v.owner p, v.holder q, v.holder p, v.writer p, h)
owner_kept v (acquires p h e) q =
    ground (arith, v.owner q, v.owner p, v.holder q, v.holder p, v.writer p, h)
owner_kept v (gives_up p q' h e) q =
    ground (arith, v.owner q, v.owner p, v.holder q, v.holder p, v.writer p, h)
owner_kept v (reread_hit p r h e) q =
    ground (arith, v.owner q, v.owner p, v.holder q, v.holder p, v.writer p, h)
owner_kept v (reread_miss p h e) q =
    ground (arith, v.owner q, v.owner p, v.holder q, v.holder p, v.writer p, h)
owner_kept v (claims p h) q =
    ground (arith, v.owner q, v.owner p, v.holder q, v.holder p, v.writer p, h)
owner_kept v (leaves_claimed p h) q =
    ground (arith, v.owner q, v.owner p, v.holder q, v.holder p, v.writer p, h)
owner_kept v (leaves_existing p h) q =
    ground (arith, v.owner q, v.owner p, v.holder q, v.holder p, v.writer p, h)
owner_kept v (works p h) q =
    ground (arith, v.owner q, v.owner p, v.holder q, v.holder p, v.writer p, h)
owner_kept v (fails p h) q =
    ground (arith, v.owner q, v.owner p, v.holder q, v.holder p, v.writer p, h)
owner_kept v (works_unrecorded p h) q =
    ground (arith, v.owner q, v.owner p, v.holder q, v.holder p, v.writer p, h)
owner_kept v (still_ours_to_commit p r h e same) q =
    ground (arith, v.owner q, v.owner p, v.holder q, v.holder p, v.writer p, h)
owner_kept v (loses_commit p h lost) q =
    ground (arith, v.owner q, v.owner p, v.holder q, v.holder p, v.writer p, h)
owner_kept v (stores p h) q =
    ground (arith, v.owner q, v.owner p, v.holder q, v.holder p, v.writer p, h)
owner_kept v (still_ours_to_release p r h e same) q =
    ground (arith, v.owner q, v.owner p, v.holder q, v.holder p, v.writer p, h)
owner_kept v (loses_release p h lost) q =
    ground (arith, v.owner q, v.owner p, v.holder q, v.holder p, v.writer p, h)
owner_kept v (deletes p h) q =
    ground (arith, v.owner q, v.owner p, v.holder q, v.holder p, v.writer p, h)
owner_kept v (runs_out r e done_it) q = ground (arith, v.owner q, e, done_it)

holder_kept :
    {s t : System} → Inv s → Step s t → (q : ℕ) → has_lock (t.pcs q) ≡ true → t.lock ≡ some q
holder_kept v (read_hit p r h e) q = ground (arith, v.holder q, v.holder p, h)
holder_kept v (read_miss p h e) q = ground (arith, v.holder q, v.holder p, h)
holder_kept v (acquires p h e) q = ground (arith, v.holder q, v.holder p, h)
holder_kept v (gives_up p q' h e) q = ground (arith, v.holder q, v.holder p, h)
holder_kept v (reread_hit p r h e) q = ground (arith, v.holder q, v.holder p, h)
holder_kept v (reread_miss p h e) q = ground (arith, v.holder q, v.holder p, h)
holder_kept v (claims p h) q = ground (arith, v.holder q, v.holder p, h)
holder_kept v (leaves_claimed p h) q = ground (arith, v.holder q, v.holder p, h)
holder_kept v (leaves_existing p h) q = ground (arith, v.holder q, v.holder p, h)
holder_kept v (works p h) q = ground (arith, v.holder q, v.holder p, h)
holder_kept v (fails p h) q = ground (arith, v.holder q, v.holder p, h)
holder_kept v (works_unrecorded p h) q = ground (arith, v.holder q, v.holder p, h)
holder_kept v (still_ours_to_commit p r h e same) q = ground (arith, v.holder q, v.holder p, h)
holder_kept v (loses_commit p h lost) q = ground (arith, v.holder q, v.holder p, h)
holder_kept v (stores p h) q = ground (arith, v.holder q, v.holder p, h)
holder_kept v (still_ours_to_release p r h e same) q = ground (arith, v.holder q, v.holder p, h)
holder_kept v (loses_release p h lost) q = ground (arith, v.holder q, v.holder p, h)
holder_kept v (deletes p h) q = ground (arith, v.holder q, v.holder p, h)
holder_kept v (runs_out r e done_it) q = v.holder q

writer_kept : {s t : System} → Inv s → Step s t → (q : ℕ) → t.pcs q ≡ writing → t.store ≡ none
writer_kept v (read_hit p r h e) q =
    ground (arith, v.writer q, v.holder q, v.holder p, v.owner p, h)
writer_kept v (read_miss p h e) q = ground (arith, v.writer q, v.holder q, v.holder p, v.owner p, h)
writer_kept v (acquires p h e) q = ground (arith, v.writer q, v.holder q, v.holder p, v.owner p, h)
writer_kept v (gives_up p q' h e) q =
    ground (arith, v.writer q, v.holder q, v.holder p, v.owner p, h)
writer_kept v (reread_hit p r h e) q =
    ground (arith, v.writer q, v.holder q, v.holder p, v.owner p, h)
writer_kept v (reread_miss p h e) q =
    ground (arith, v.writer q, v.holder q, v.holder p, v.owner p, h)
writer_kept v (claims p h) q = ground (arith, v.writer q, v.holder q, v.holder p, v.owner p, h)
writer_kept v (leaves_claimed p h) q =
    ground (arith, v.writer q, v.holder q, v.holder p, v.owner p, h)
writer_kept v (leaves_existing p h) q =
    ground (arith, v.writer q, v.holder q, v.holder p, v.owner p, h)
writer_kept v (works p h) q = ground (arith, v.writer q, v.holder q, v.holder p, v.owner p, h)
writer_kept v (fails p h) q = ground (arith, v.writer q, v.holder q, v.holder p, v.owner p, h)
writer_kept v (works_unrecorded p h) q =
    ground (arith, v.writer q, v.holder q, v.holder p, v.owner p, h)
writer_kept v (still_ours_to_commit p r h e same) q =
    ground (arith, v.writer q, v.holder q, v.holder p, v.owner p, h)
writer_kept v (loses_commit p h lost) q =
    ground (arith, v.writer q, v.holder q, v.holder p, v.owner p, h)
writer_kept v (stores p h) q = ground (arith, v.writer q, v.holder q, v.holder p, v.owner p, h)
writer_kept v (still_ours_to_release p r h e same) q =
    ground (arith, v.writer q, v.holder q, v.holder p, v.owner p, h)
writer_kept v (loses_release p h lost) q =
    ground (arith, v.writer q, v.holder q, v.holder p, v.owner p, h)
writer_kept v (deletes p h) q = ground (arith, v.writer q, v.holder q, v.holder p, v.owner p, h)
writer_kept v (runs_out r e done_it) q = λ h. refl

once_kept :
    {s t : System}
    → Inv s
    → Step s t
    → t.effects ≡ effects_shown t.store t.pcs + t.unrecorded + t.expiries
once_kept v (read_hit p r h e) = ground (arith, v.once, v.owner p, v.writer p, h)
once_kept v (read_miss p h e) = ground (arith, v.once, v.owner p, v.writer p, h)
once_kept v (acquires p h e) = ground (arith, v.once, v.owner p, v.writer p, h)
once_kept v (gives_up p q' h e) = ground (arith, v.once, v.owner p, v.writer p, h)
once_kept v (reread_hit p r h e) = ground (arith, v.once, v.owner p, v.writer p, h)
once_kept v (reread_miss p h e) = ground (arith, v.once, v.owner p, v.writer p, h)
once_kept v (claims p h) = ground (arith, v.once, v.owner p, v.writer p, h)
once_kept v (leaves_claimed p h) = ground (arith, v.once, v.owner p, v.writer p, h)
once_kept v (leaves_existing p h) = ground (arith, v.once, v.owner p, v.writer p, h)
once_kept v (works p h) = ground (arith, v.once, v.owner p, v.writer p, h)
once_kept v (fails p h) = ground (arith, v.once, v.owner p, v.writer p, h)
once_kept v (works_unrecorded p h) = ground (arith, v.once, v.owner p, v.writer p, h)
once_kept v (still_ours_to_commit p r h e same) = ground (arith, v.once, v.owner p, v.writer p, h)
once_kept v (loses_commit p h lost) =
    ground (arith, v.once, v.owner p, v.writer p, h, lost (claim_of p) (v.owner p (rw h)) refl)
once_kept v (stores p h) = ground (arith, v.once, v.owner p, v.writer p, h)
once_kept v (still_ours_to_release p r h e same) = ground (arith, v.once, v.owner p, v.writer p, h)
once_kept v (loses_release p h lost) =
    ground (arith, v.once, v.owner p, v.writer p, h, lost (claim_of p) (v.owner p (rw h)) refl)
once_kept v (deletes p h) = ground (arith, v.once, v.owner p, v.writer p, h)
once_kept v (runs_out r e done_it) = ground (arith, v.once, e, done_it)

Step-Inv : {s t : System} → Inv s → Step s t → Inv t
Step-Inv v st = record {
  owner = owner_kept v st;
  holder = holder_kept v st;
  writer = writer_kept v st;
  once = once_kept v st;
}

Reach-Inv : {s : System} → Reach initial s → Inv s
Reach-Inv here = initial-Inv
Reach-Inv (next r st) = Step-Inv (Reach-Inv r) st

effects_bound : (o : Option Stored) (pcs : ℕ → Pc) → effects_shown o pcs ≤ 1
effects_bound none pcs = omega arith
effects_bound (some r) pcs = ground arith

-- However the steps of the callers interleave, the work has its effect at most once for the key, and
-- once more for each time that it had it and then threw or gave a value that is not recordable, and
-- for each time that a completed record ran out; work that throws before its effect costs nothing. No
-- claim and no lease runs out, and the store and the locker answer.
pub effects_once : {s : System} → Reach initial s → s.effects ≤ 1 + s.unrecorded + s.expiries
effects_once {s} r = omega (arith, (Reach-Inv r).once, effects_bound s.store s.pcs)

-- Under the same conditions no two callers ever hold the claim at a time, so the work never runs
-- twice at once; and while one holds it, no result is stored.
pub claims_exclude :
    {s : System} (p q : ℕ)
    → Reach initial s
    → has_claim (s.pcs p) ≡ true
    → has_claim (s.pcs q) ≡ true
    → (p ≡ q) × (s.store ≡ some (claim_of p))
claims_exclude p q r h k =
    let v = Reach-Inv r in (ground (arith, v.owner p h, v.owner q k), v.owner p h)

-- A result that a step finds stored stays as it is, and the work does not have its effect in that
-- step, or the step is that the completed record runs out.
result_kept :
    {s t : System} (p : ℕ)
    → Inv s
    → s.store ≡ some (result_of p)
    → Step s t
    → t.expiries ≡ s.expiries
    → (t.store ≡ some (result_of p)) × (t.effects ≡ s.effects)
result_kept p v found (read_hit p' r h e) k =
    (ground (arith, found, v.owner p', v.writer p', h), ground (arith, found, v.owner p', h))
result_kept p v found (read_miss p' h e) k =
    (ground (arith, found, v.owner p', v.writer p', h), ground (arith, found, v.owner p', h))
result_kept p v found (acquires p' h e) k =
    (ground (arith, found, v.owner p', v.writer p', h), ground (arith, found, v.owner p', h))
result_kept p v found (gives_up p' q' h e) k =
    (ground (arith, found, v.owner p', v.writer p', h), ground (arith, found, v.owner p', h))
result_kept p v found (reread_hit p' r h e) k =
    (ground (arith, found, v.owner p', v.writer p', h), ground (arith, found, v.owner p', h))
result_kept p v found (reread_miss p' h e) k =
    (ground (arith, found, v.owner p', v.writer p', h), ground (arith, found, v.owner p', h))
result_kept p v found (claims p' h) k =
    (ground (arith, found, v.owner p', v.writer p', h), ground (arith, found, v.owner p', h))
result_kept p v found (leaves_claimed p' h) k =
    (ground (arith, found, v.owner p', v.writer p', h), ground (arith, found, v.owner p', h))
result_kept p v found (leaves_existing p' h) k =
    (ground (arith, found, v.owner p', v.writer p', h), ground (arith, found, v.owner p', h))
result_kept p v found (works p' h) k =
    (ground (arith, found, v.owner p', v.writer p', h), ground (arith, found, v.owner p', h))
result_kept p v found (fails p' h) k =
    (ground (arith, found, v.owner p', v.writer p', h), ground (arith, found, v.owner p', h))
result_kept p v found (works_unrecorded p' h) k =
    (ground (arith, found, v.owner p', v.writer p', h), ground (arith, found, v.owner p', h))
result_kept p v found (still_ours_to_commit p' r h e same) k =
    (ground (arith, found, v.owner p', v.writer p', h), ground (arith, found, v.owner p', h))
result_kept p v found (loses_commit p' h lost) k =
    (ground (arith, found, v.owner p', v.writer p', h), ground (arith, found, v.owner p', h))
result_kept p v found (stores p' h) k =
    (ground (arith, found, v.owner p', v.writer p', h), ground (arith, found, v.owner p', h))
result_kept p v found (still_ours_to_release p' r h e same) k =
    (ground (arith, found, v.owner p', v.writer p', h), ground (arith, found, v.owner p', h))
result_kept p v found (loses_release p' h lost) k =
    (ground (arith, found, v.owner p', v.writer p', h), ground (arith, found, v.owner p', h))
result_kept p v found (deletes p' h) k =
    (ground (arith, found, v.owner p', v.writer p', h), ground (arith, found, v.owner p', h))
result_kept p v found (runs_out r e done_it) k = absurd (omega (arith, k))

expiries_grow : {s t : System} → Step s t → s.expiries ≤ t.expiries
expiries_grow (read_hit p' r h e) = omega arith
expiries_grow (read_miss p' h e) = omega arith
expiries_grow (acquires p' h e) = omega arith
expiries_grow (gives_up p' q' h e) = omega arith
expiries_grow (reread_hit p' r h e) = omega arith
expiries_grow (reread_miss p' h e) = omega arith
expiries_grow (claims p' h) = omega arith
expiries_grow (leaves_claimed p' h) = omega arith
expiries_grow (leaves_existing p' h) = omega arith
expiries_grow (works p' h) = omega arith
expiries_grow (fails p' h) = omega arith
expiries_grow (works_unrecorded p' h) = omega arith
expiries_grow (still_ours_to_commit p' r h e same) = omega arith
expiries_grow (loses_commit p' h lost) = omega arith
expiries_grow (stores p' h) = omega arith
expiries_grow (still_ours_to_release p' r h e same) = omega arith
expiries_grow (loses_release p' h lost) = omega arith
expiries_grow (deletes p' h) = omega arith
expiries_grow (runs_out r e done_it) = omega arith

expiries-Reach : {s t : System} → Reach s t → s.expiries ≤ t.expiries
expiries-Reach here = omega arith
expiries-Reach (next r st) = omega (arith, expiries-Reach r, expiries_grow st)

Reach-trans : {s t u : System} → Reach s t → Reach t u → Reach s u
Reach-trans r here = r
Reach-trans r (next q st) = next (Reach-trans r q) st

-- Until its record runs out, a stored result stays as it is, however the callers go on, and the work
-- does not have its effect again.
pub result_stays :
    {s t : System} (p : ℕ)
    → Reach initial s
    → s.store ≡ some (result_of p)
    → Reach s t
    → t.expiries ≡ s.expiries
    → (t.store ≡ some (result_of p)) × (t.effects ≡ s.effects)
result_stays p reach found here same = (found, refl)
result_stays p reach found (next {t} {u} r st) same =
    let before : t.expiries ≡ _ = omega (arith, same, expiries-Reach r, expiries_grow st) in
    let ih = result_stays p reach found r before in
    let kept = result_kept p (Reach-Inv (Reach-trans reach r)) ih.0 st (same ∙ sym before) in
    (kept.0, kept.1 ∙ ih.1)
