-- ===== src/Reconcile/Saving.antt =====
-- The writes of the state file: `recordOutcome` and `promoteHealthy` of reconcile.go,
-- `recordCheckout` and `clearPreflightBlocks` of apply.go, `countRecoveryAttempt` of recovery.go.
-- Each builds the next state from the shared one, and the shared one follows only if the save
-- answers with no error.
pub mod Keeping
use compose_lock.Prelude.{
  ℕ, ◌+◌, String, Bool, true, false, not, Option, none, some, List, [], ◌∷◌, beq, ◌==◌,
  if◌then◌else◌,
}
use compose_lock.Errors.{Err, wrap}
use compose_lock.State.{State, LastResult, success, forget_all_failed}
use compose_lock.World.{World, M, pure, ◌>>=◌, ◌>>◌, Env, modify_st, get_st, save_state, read_clock}

-- The state that `promoteHealthy` saves.
unfoldable pub promoted : State → ℕ → String → List String → State
promoted s now commit stacks = record (forget_all_failed s) {
  last_healthy_commit = commit;
  last_healthy_at = now;
  last_healthy_stacks = stacks;
  last_checkout_commit = commit;
  pending_commit = "";
  pending_since = 0;
  pending_attempts = 0;
  pending_stacks = [];
  pending_revert = false;
  preflight_blocks = 0;
  last_attempt_commit = commit;
  last_attempt_at = now;
  last_result = success;
}

module _ (env : Env) where
  -- The shared state follows a save that answers with no error.
  settle : State → Option Err → M (Option Err)
  settle next (some e) = pure (some e)
  settle next none = do modify_st (λ _. next); pure none

  -- `if err := deps.State.Save(&next); err != nil { … } else { *st = next }`
  unfoldable pub commit_state : State → M (Option Err)
  unfolding settle
  commit_state next = do failure ← save_state env next; settle next failure

  abbrev saving_state : Option Err → Option Err
  saving_state none = none
  saving_state (some e) = some (wrap "saving state" e)

  unfoldable pub record_outcome : LastResult → String → M (Unit {0})
  unfolding commit_state
  record_outcome result commit = do
    s ← get_st
    now ← read_clock env
    failure ← commit_state (record s {
      last_result = result;
      last_attempt_at = now;
      last_attempt_commit = if commit == "" then s.last_attempt_commit else commit;
    })
    pure tt

  unfoldable pub promote_healthy : String → List String → M (Option Err)
  unfolding commit_state promoted
  promote_healthy commit stacks = do
    now ← read_clock env
    s ← get_st
    failure ← commit_state (promoted s now commit stacks)
    pure (saving_state failure)

  unfoldable pub record_checkout : String → M (Option Err)
  unfolding commit_state
  record_checkout commit = do
    s ← get_st
    now ← read_clock env
    failure ← commit_state (record s {
      last_checkout_commit = commit;
      last_attempt_commit = commit;
      last_attempt_at = now;
      last_result = success;
    })
    pure (saving_state failure)

  unfoldable pub clear_preflight_blocks : M (Unit {0})
  unfolding commit_state
  clear_preflight_blocks = do
    s ← get_st
    if beq s.preflight_blocks 0
        then pure tt
        else (do failure ← commit_state (record s { preflight_blocks = 0 }); pure tt)

  unfoldable pub count_recovery_attempt : M (Option Err)
  unfolding commit_state
  count_recovery_attempt = do
    s ← get_st
    failure ← commit_state (record s { pending_attempts = s.pending_attempts + 1 })
    pure (saving_state failure)
