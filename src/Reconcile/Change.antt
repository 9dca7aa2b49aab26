-- ===== src/Reconcile/Change.antt =====
-- The abstract view of the state file: the changes that a reconcile makes to a state, one constructor
-- for each, whatever git, Compose, Docker and the clock answer.
pub mod Bounds
pub mod Pause
use compose_lock.Prelude.{ℕ, ◌+◌, String, List}
use compose_lock.State.{
  State, LastResult, Deployment, success, failed_apply, mark_failed, record_deployment,
}
use compose_lock.Reconcile.Saving.{promoted}
use compose_lock.Reconcile.Revert.{degraded_state, interrupted_state, reverted_state}
use compose_lock.Reconcile.Apply.{pending_state}

pub data Change (s : State) : State → Type 0 where
  attempted :
      (result : LastResult) (at : ℕ) (commit : String)
      → Change s
          (record s { last_result = result; last_attempt_at = at; last_attempt_commit = commit })
  checked_out :
      (at : ℕ) (commit : String)
      → Change s (record s {
        last_checkout_commit = commit;
        last_attempt_commit = commit;
        last_attempt_at = at;
        last_result = success;
      })
  unblocked : Change s (record s { preflight_blocks = 0 })
  blocked : Change s (record s { preflight_blocks = s.preflight_blocks + 1 })
  counted : Change s (record s { pending_attempts = s.pending_attempts + 1 })
  given_up : (at : ℕ) (commit : String) → Change s (degraded_state s at commit)
  interrupted :
      (at : ℕ) (commit : String) (names : List String)
      → Change s (interrupted_state s at commit names)
  went_back : (at : ℕ) (commit target : String) → Change s (reverted_state s at commit target)
  begun :
      (at : ℕ) (commit : String) (names : List String) → Change s (pending_state s at commit names)
  blamed : (at : ℕ) (commit : String) → Change s (mark_failed s commit at)
  apply_failed : Change s (record s { last_result = failed_apply })
  target_checked_out : (target : String) → Change s (record s { last_checkout_commit = target })
  forced : (at : ℕ) → Change s (record s { pending_attempts = 0; pending_since = at })
  entered : (d : Deployment) → Change s (record_deployment s d)

-- `Q` outlives every change.
pub record Lasts {ℓ} (Q : State → Type ℓ) : Type ℓ where
  pub change : {s t : State} → Change s t → Q s → Q t

-- `Q` outlives a promotion as well.
pub record Evolves {ℓ} (Q : State → Type ℓ) : Type ℓ where
  pub lasts : Lasts Q
  pub promote :
      (s : State) (at : ℕ) (commit : String) (stacks : List String)
      → Q s
      → Q (promoted s at commit stacks)
