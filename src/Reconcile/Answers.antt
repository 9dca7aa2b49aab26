-- ===== src/Reconcile/Answers.antt =====
-- What the fields of a `Result` promise each other, which `exitCode` and `logResult` of
-- cmd/composelock rely on.
use compose_lock.Prelude.{◌≡◌, true, false, ◌&&◌, is_some, arith}
use compose_lock.Reconcile.{Result}

-- A run that reverted or is degraded reports an error, is not both, and has not skipped its commit; a
-- run that skipped has applied nothing.
pub record IsConsistent (r : Result) : Type 0 where
  pub degraded_fails : r.degraded ≡ true → is_some r.error ≡ true
  pub reverted_fails : r.reverted ≡ true → is_some r.error ≡ true
  pub exclusive : (r.reverted && r.degraded) ≡ false
  pub skipped_alone :
      r.skipped ≡ true → (r.applied ≡ false) × (r.reverted ≡ false) × (r.degraded ≡ false)

-- The result of a revert: consistent, failed, and silent on what the run fills in.
pub record IsReverted (r : Result) : Type 0 where
  pub fails : is_some r.error ≡ true
  pub exclusive : (r.reverted && r.degraded) ≡ false
  pub not_skipped : r.skipped ≡ false

-- The result of a run that has not ended.
pub record IsOpen (r : Result) : Type 0 where
  pub not_reverted : r.reverted ≡ false
  pub not_degraded : r.degraded ≡ false
  pub not_skipped : r.skipped ≡ false

-- Nor has it applied anything.
pub record IsFresh (r : Result) : Type 0 where
  pub not_reverted : r.reverted ≡ false
  pub not_degraded : r.degraded ≡ false
  pub not_skipped : r.skipped ≡ false
  pub not_applied : r.applied ≡ false

pub IsReverted-IsConsistent : (r : Result) → IsReverted r → IsConsistent r
IsReverted-IsConsistent r h = record {
  degraded_fails = λ d. h.fails;
  reverted_fails = λ d. h.fails;
  exclusive = h.exclusive;
  skipped_alone = λ s. ground (arith, h, s);
}

pub IsOpen-IsConsistent : (r : Result) → IsOpen r → IsConsistent r
IsOpen-IsConsistent r h = ground (arith, h)

pub IsFresh-IsConsistent : (r : Result) → IsFresh r → IsConsistent r
IsFresh-IsConsistent r h = ground (arith, h)
