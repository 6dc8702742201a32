-- ===== src/Idempotency/Interleaving/Tests.antt =====
-- Two callers of one key, and the theorems at their steps.
use platform_ts.Idempotency.Interleaving.{
  Reach, System, start, locking, holding, writing, leaving_claimed, working, committing, storing,
  done, at, move, claim_of, result_of, initial, read_miss, acquires, reread_miss, claims,
  leaves_claimed, works, still_ours_to_commit, stores, read_hit, here, next, aborting, deleting,
  works_unrecorded, still_ours_to_release, deletes,
}
use platform_ts.Idempotency.Interleaving.Safety.{effects_once, claims_exclude, result_stays}
use platform_ts.Prelude.{ℕ, ◌+◌, ◌≤◌, ◌≡◌, refl, none, some, ℕ_discrete}

abbrev before_claim : System
before_claim = record initial {
  lock = some 0;
  pcs = move 0 writing (move 0 holding (move 0 locking (λ p. start)));
}

abbrev with_claim : System
with_claim = record before_claim {
  store = some (claim_of 0);
  pcs = move 0 leaving_claimed before_claim.pcs;
}

with_claim-Reach : Reach initial with_claim
unfolding ℕ_discrete
with_claim-Reach =
    next
      (next (next (next here (read_miss 0 refl refl)) (acquires 0 refl refl))
        (reread_miss 0 refl refl))
      (claims 0 refl)

abbrev worked : System
worked = record with_claim {
  lock = none;
  effects = 1;
  pcs = move 0 committing (move 0 working with_claim.pcs);
}

worked-Reach : Reach initial worked
unfolding ℕ_discrete
worked-Reach = next (next with_claim-Reach (leaves_claimed 0 refl)) (works 0 refl)

abbrev stored : System
stored = record worked { store = some (result_of 0); pcs = move 0 done (move 0 storing worked.pcs) }

stored-Reach : Reach initial stored
unfolding ℕ_discrete
stored-Reach =
    next (next worked-Reach (still_ours_to_commit 0 (claim_of 0) refl refl refl)) (stores 0 refl)

effects_once_example : worked.effects ≤ 1 + 0 + 0
effects_once_example = effects_once worked-Reach

claims_exclude_example : (◌≡◌ {A = ℕ} 0 0) × (with_claim.store ≡ some (claim_of 0))
unfolding ℕ_discrete
claims_exclude_example = claims_exclude 0 0 with_claim-Reach refl refl

-- A second caller finds the result.
result_stays_example :
    ((at 1 done stored).store ≡ some (result_of 0)) × ((at 1 done stored).effects ≡ stored.effects)
unfolding ℕ_discrete
result_stays_example =
    result_stays 0 stored-Reach refl (next here (read_hit 1 (result_of 0) refl refl)) refl

-- Work that has its effect and then fails is run again by another caller.
abbrev released : System
released = record with_claim {
  lock = none;
  store = none;
  effects = 1;
  unrecorded = 1;
  pcs = move 0 done (move 0 deleting (move 0 aborting (move 0 working with_claim.pcs)));
}

released-Reach : Reach initial released
unfolding ℕ_discrete
released-Reach =
    next
      (next (next (next with_claim-Reach (leaves_claimed 0 refl)) (works_unrecorded 0 refl))
        (still_ours_to_release 0 (claim_of 0) refl refl refl))
      (deletes 0 refl)
