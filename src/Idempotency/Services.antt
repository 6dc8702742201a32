-- ===== src/Idempotency/Services.antt =====
-- What the manager is given at run time (manager.node.ts, IdempotencyDeps): the record store, the
-- locker, the clock, the delay, the claim ids and the work, over a world that they share; and the
-- monad of the manager's methods, with its instruments. `none` means that the call threw.
use platform_ts.Idempotency.Records.{IdempotencyRecord, Failure, Outcome, hung, fault}
use platform_ts.Prelude.{ℕ, String, Bool, Option, none, some, List}

pub record Services (T : Type 0) : Type 1 where
  pub World : Type 0
  -- What `acquire` hands out.
  pub Handle : Type 0
  pub store_get : String → World → World × Option (Option (IdempotencyRecord T))
  pub store_set : String → IdempotencyRecord T → ℕ → World → World × Option (Unit {0})
  pub store_delete : String → World → World × Option (Unit {0})
  pub lock_acquire : String → ℕ → World → World × Option (Option Handle)
  pub lock_release : Handle → World → World × Option Bool
  pub now : World → World × ℕ
  pub sleep : ℕ → World → World
  pub new_claim_id : World → World × String
  pub work : World → World × Option T
  pub recordable : T → Bool

pub record Session (W : Type 0) : Type 0 where
  pub world : W
  pub requests : List Outcome
  pub store_errors : ℕ
  pub stale_records : ℕ
  pub claims_lost : ℕ
  pub record_failures : ℕ

pub data Result (A : Type 0) : Type 0 where
  ok : A → Result A
  err : Failure → Result A

abbrev pub Run : Type 0 → Type 0 → Type 0
Run W A = Session W → Session W × Result A

module _ {W : Type 0} where
  infixl 5 ◌>>=◌ ◌>>◌
  abbrev pub ◌>>=◌ : {A B : Type 0} → Run W A → (A → Run W B) → Run W B
  ◌>>=◌ m f z = let (z', r) = m z in elim r [ ok a ↦ f a z' | err e ↦ (z', err e) ]

  abbrev pub ◌>>◌ : {B : Type 0} → Run W (Unit {0}) → Run W B → Run W B
  m >> k = m >>= λ _. k

  abbrev pub pure : {A : Type 0} → A → Run W A
  pure a z = (z, ok a)

  abbrev pub throw : {A : Type 0} → Failure → Run W A
  throw e z = (z, err e)

  abbrev pub call : {A : Type 0} → (W → W × A) → Run W A
  call f z = let (w, a) = f z.world in (record z { world = w }, ok a)

  -- A call whose failure the caller does not handle.
  abbrev pub or_fault : {A : Type 0} → Option A → Run W A
  or_fault none = throw fault
  or_fault (some a) = pure a

  abbrev pub note : (Session W → Session W) → Run W (Unit {0})
  note f z = (f z, ok tt)

  -- `try { m } catch (err) { h(err) }`. Running on for ever is nothing that a handler sees.
  abbrev pub catch : {A : Type 0} → Run W A → (Failure → Run W A) → Run W A
  catch m h z =
      let (z', r) = m z in elim r [ ok a ↦ (z', ok a) | err hung ↦ (z', err hung) | err e ↦ h e z' ]

  -- `try { m } finally { after }`, where `after` handles its own failures.
  abbrev pub finally : {A : Type 0} → Run W A → (W → W) → Run W A
  finally m after z = let (z', r) = m z in (record z' { world = after z'.world }, r)
