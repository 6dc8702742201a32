-- ===== src/Idempotency/Interleaving.antt =====
-- packages/idempotency/src/manager.node.ts run by any number of callers with one key and one
-- fingerprint: each step is what one caller does between two `await`s. The store and the locker
-- answer, and no claim and no lease runs out; a completed record may. A caller's number is its claim
-- id. A caller that polls a held lock makes no step.
pub mod Safety
mod Tests
use platform_ts.Prelude.{
  ℕ, suc, ◌≡◌, ◌≢◌, ite, Bool, true, false, not, Option, none, some, ℕ_discrete,
}

-- Where a caller is.
pub data Pc : Type 0 where
  -- `run` before its read, and waiting for the lock.
  start locking : Pc
  -- Under the lock: before the re-read, before the write of the claim, and before the release of
  -- the lock with a claim or without one.
  holding writing leaving_claimed leaving_existing : Pc
  -- Outside the lock with a claim: at work, before the check and the write of `#commit`, before
  -- the check and the removal of `#release`.
  working committing storing aborting deleting : Pc
  done : Pc

pub record Stored : Type 0 where
  pub claim_id : ℕ
  pub completed : Bool

pub record System : Type 0 where
  pub store : Option Stored
  pub lock : Option ℕ
  pub pcs : ℕ → Pc
  -- How often the work has had its effect, how often it then threw or gave a value that is not to be
  -- recorded, and how often a completed record has run out.
  pub effects : ℕ
  pub unrecorded : ℕ
  pub expiries : ℕ

abbrev pub claim_of : ℕ → Stored
claim_of p = record { claim_id = p; completed = false }

abbrev pub result_of : ℕ → Stored
result_of p = record { claim_id = p; completed = true }

abbrev pub move : ℕ → Pc → (ℕ → Pc) → ℕ → Pc
move p pc pcs q = ite (ℕ_discrete q p) pc (pcs q)

abbrev pub at : ℕ → Pc → System → System
at p pc s = record s { pcs = move p pc s.pcs }

pub data Step (s : System) : System → Type 0 where
  read_hit : (p : ℕ) (r : Stored) → s.pcs p ≡ start → s.store ≡ some r → Step s (at p done s)
  read_miss : (p : ℕ) → s.pcs p ≡ start → s.store ≡ none → Step s (at p locking s)
  acquires :
      (p : ℕ)
      → s.pcs p ≡ locking
      → s.lock ≡ none
      → Step s (record s { lock = some p; pcs = move p holding s.pcs })
  gives_up : (p q : ℕ) → s.pcs p ≡ locking → s.lock ≡ some q → Step s (at p done s)
  reread_hit :
      (p : ℕ) (r : Stored) → s.pcs p ≡ holding → s.store ≡ some r → Step s (at p leaving_existing s)
  reread_miss : (p : ℕ) → s.pcs p ≡ holding → s.store ≡ none → Step s (at p writing s)
  claims :
      (p : ℕ)
      → s.pcs p ≡ writing
      → Step s (record s { store = some (claim_of p); pcs = move p leaving_claimed s.pcs })
  leaves_claimed :
      (p : ℕ)
      → s.pcs p ≡ leaving_claimed
      → Step s (record s { lock = none; pcs = move p working s.pcs })
  leaves_existing :
      (p : ℕ)
      → s.pcs p ≡ leaving_existing
      → Step s (record s { lock = none; pcs = move p done s.pcs })
  works :
      (p : ℕ)
      → s.pcs p ≡ working
      → Step s (record s { effects = suc s.effects; pcs = move p committing s.pcs })
  fails : (p : ℕ) → s.pcs p ≡ working → Step s (at p aborting s)
  -- The work has its effect, and then throws or gives a value that is not recordable.
  works_unrecorded :
      (p : ℕ)
      → s.pcs p ≡ working
      → Step s (record s {
        effects = suc s.effects;
        unrecorded = suc s.unrecorded;
        pcs = move p aborting s.pcs;
      })
  still_ours_to_commit :
      (p : ℕ) (r : Stored)
      → s.pcs p ≡ committing
      → s.store ≡ some r
      → r.claim_id ≡ p
      → Step s (at p storing s)
  loses_commit :
      (p : ℕ)
      → s.pcs p ≡ committing
      → ((r : Stored) → s.store ≡ some r → r.claim_id ≢ p)
      → Step s (at p done s)
  stores :
      (p : ℕ)
      → s.pcs p ≡ storing
      → Step s (record s { store = some (result_of p); pcs = move p done s.pcs })
  still_ours_to_release :
      (p : ℕ) (r : Stored)
      → s.pcs p ≡ aborting
      → s.store ≡ some r
      → r.claim_id ≡ p
      → Step s (at p deleting s)
  loses_release :
      (p : ℕ)
      → s.pcs p ≡ aborting
      → ((r : Stored) → s.store ≡ some r → r.claim_id ≢ p)
      → Step s (at p done s)
  deletes :
      (p : ℕ) → s.pcs p ≡ deleting → Step s (record s { store = none; pcs = move p done s.pcs })
  -- The completed record's TTL is over.
  runs_out :
      (r : Stored)
      → s.store ≡ some r
      → r.completed ≡ true
      → Step s (record s { store = none; expiries = suc s.expiries })

pub data Reach (s : System) : System → Type 0 where
  here : Reach s s
  next : {t u : System} → Reach s t → Step t u → Reach s u

-- Nobody has done anything yet.
abbrev pub initial : System
initial = record {
  store = none;
  lock = none;
  pcs = λ p. start;
  effects = 0;
  unrecorded = 0;
  expiries = 0;
}

-- The callers that have a claim.
abbrev pub has_claim : Pc → Bool
has_claim leaving_claimed = true
has_claim working = true
has_claim committing = true
has_claim storing = true
has_claim aborting = true
has_claim deleting = true
has_claim _ = false

abbrev pub has_lock : Pc → Bool
has_lock holding = true
has_lock writing = true
has_lock leaving_claimed = true
has_lock leaving_existing = true
has_lock _ = false

-- The work has had its effect and its result is not stored yet.
abbrev pub has_worked : Pc → Bool
has_worked committing = true
has_worked storing = true
has_worked _ = false
