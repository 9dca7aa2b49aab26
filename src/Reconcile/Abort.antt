-- ===== src/Reconcile/Abort.antt =====
-- How an apply ends early (internal/reconcile/apply.go): before Compose is touched the checkout is
-- restored, and after that the apply is left pending or reverted.
pub mod Keeping
pub mod Answers
use compose_lock.Prelude.{
  ℕ, ◌+◌, String, ◌<>◌, Bool, true, false, Option, none, some, List, [], ◌∷◌, ◌==◌, if◌then◌else◌,
}
use compose_lock.Errors.{Err, wrap, is_infra_error, join_errors}
use compose_lock.State.{State, failed_apply, mark_failed}
use compose_lock.Compose.{Stack}
use compose_lock.Config.{Config}
use compose_lock.Git.{checkout_commit}
use compose_lock.World.{
  World, M, pure, ◌>>=◌, ◌>>◌, Env, modify_st, get_st, save_state, read_clock, is_cancelled,
}
use compose_lock.Reconcile.{Result, failure_report, short_commit}
use compose_lock.Reconcile.Saving.{record_outcome}
use compose_lock.Reconcile.Revert.{do_revert}

-- The notification of a run that failed.
abbrev pub with_notice : String → String → String → Err → Result → Result
with_notice title key branch e r = record r {
  notification = some (failure_report ("ComposeLock: " <> title) r.new_commit branch e);
  notification_key = key;
}

module _ (env : Env) (cfg : Config) where
  -- The context of the restore is not the run's: a cancelled run restores all the same.
  restore_checkout : String → M (Option Err)
  restore_checkout commit = if commit == "" then pure none else (do
    problem ← checkout_commit env commit
    pure (elim problem [
      | none ↦ none
      | some e ↦ some (wrap ("restoring checkout to " <> short_commit commit) e)
    ]))

  or_same : Err → Option Err → Err
  or_same e none = e
  or_same e (some x) = e

  -- The error of the abort, joined with that of the restore.
  abort_error : Err → Option Err → Err
  abort_error e restored = elim (join_errors (some e) restored) [ none ↦ e | some x ↦ x ]

  unfoldable pub abort_before_up : Result → String → Err → M Result
  unfolding restore_checkout abort_error
  abort_before_up result title e = do
    restored ← restore_checkout result.old_commit
    cancelled ← is_cancelled env
    let e' = abort_error e restored
    let result' = record result { error = some e' }
    if cancelled then pure result' else (do
      record_outcome env failed_apply result.new_commit
      pure (
          with_notice title ("abort:" <> (title <> (":" <> result.new_commit))) cfg.branch e'
            result'))

  -- `st.MarkFailed(commit, deps.Clock.Now())`
  unfoldable pub mark_failed_now : String → M (Unit {0})
  mark_failed_now commit = do now ← read_clock env; modify_st (λ s. mark_failed s commit now)

  unfoldable pub abort_apply : Result → String → Err → M Result
  unfolding abort_before_up mark_failed_now
  abort_apply result title e =
      if is_infra_error e
      then abort_before_up result title e
      else (do mark_failed_now result.new_commit; abort_before_up result title e)

  unfoldable pub apply_incomplete : Result → String → String → Err → M Result
  apply_incomplete result title key e = do
    cancelled ← is_cancelled env
    let result' = record result { error = some e }
    if cancelled then pure result' else (do
      record_outcome env failed_apply result.new_commit
      pure (with_notice title (key <> (":" <> result.new_commit)) cfg.branch e result'))

  unfoldable pub apply_interrupted : Result → String → Err → M Result
  apply_interrupted result project_name cause = do
    let e = wrap ("compose up of " <> (project_name <> " hit an infrastructure error")) cause
    record_outcome env failed_apply result.new_commit
    pure (
        with_notice "infrastructure error during apply, will retry" ("infra:" <> result.new_commit)
          cfg.branch e (record result { error = some e }))

  -- The state is changed in memory before the save, and stays changed if the save fails.
  unfoldable pub fail_and_revert : List Stack → Result → String → M Result
  unfolding mark_failed_now
  fail_and_revert stacks result reason = do
    mark_failed_now result.new_commit
    modify_st (λ s. record s { last_result = failed_apply })
    s ← get_st
    save_state env s
    r ← do_revert env cfg stacks result.new_commit reason
    pure (record result {
      reverted = r.reverted;
      degraded = r.degraded;
      rolled_back_to = r.rolled_back_to;
      error = r.error;
      notification = r.notification;
      notification_key = r.notification_key;
      health_watch = result.health_watch + r.health_watch;
    })
