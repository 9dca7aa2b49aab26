-- ===== src/Reconcile/Run.antt =====
-- `Reconcile` and `reconcileLocked` of internal/reconcile/reconcile.go: the guards of a run, its lock
-- and its history. The mutex that keeps two runs of one process apart, the counter of activities
-- and the commit context of the notification are left out.
pub mod Keeping
pub mod Answers
pub mod DryRun
pub mod Guards
pub mod LockedOut
pub mod Reached
pub mod Journal
pub mod WriteAhead
use compose_lock.Prelude.{
  ℕ, ◌+◌, String, ◌<>◌, len, slice, Bool, true, false, not, ◌&&◌, ◌||◌, Option, none, some, List,
  [], ◌∷◌, ltb, is_some, ◌==◌, if◌then◌else◌,
}
use compose_lock.Errors.{Err, plain, wrap, Try, ok, err, message}
use compose_lock.State.{
  State, LastResult, degraded, skipped_known_bad, Deployment, paused, pending, record_deployment,
  same_result,
}
use compose_lock.Config.{Config}
use compose_lock.Git.{GitResult, fetch_and_preview}
use compose_lock.World.{
  World, M, pure, gets, call, ◌>>=◌, ◌>>◌, Env, modify_st, get_st, load_state, save_state,
  read_clock, lock_tried, lock_released, pinged,
}
use compose_lock.Reconcile.{Options, Result, no_result, SkipReason, locked}
use compose_lock.Reconcile
use compose_lock.Reconcile.Recovery.{upstream, recover_from_crash}
use compose_lock.Reconcile.Normal.{run_normal}

abbrev max_history_error : ℕ
max_history_error = 200

-- The text without a cut character, and with dots where something was cut.
unfoldable pub truncate_error : String → String
truncate_error msg =
    if ltb max_history_error (len msg) then slice msg 0 max_history_error <> "..." else msg

unfoldable pub worth_recording : Result → Bool
worth_recording r = r.applied || (r.reverted || (r.degraded || is_some r.error))

error_text : Option Err → String
error_text none = ""
error_text (some e) = truncate_error (message e)

-- The entry of a run.
unfoldable pub entry_of : State → Result → Deployment
unfolding error_text
entry_of s r = record {
  at = s.last_attempt_at;
  commit = r.new_commit;
  result = s.last_result;
  rolled_back_to = r.rolled_back_to;
  error = error_text r.error;
  repeats = 0;
}

abbrev skip_paused : Result
skip_paused = record no_result { skipped = true; skip_reason = Reconcile.paused }

-- A run while paused reports what a fetch shows, and no error of it.
paused_result : Try GitResult → Result
paused_result (err e) = skip_paused
paused_result (ok g) = record skip_paused {
  changed = g.changed;
  old_commit = g.old_commit;
  new_commit = g.new_commit;
}

module _ (env : Env) (cfg : Config) where
  unfoldable pub record_history : Result → ℕ → M (Unit {0})
  record_history result run_start = if not (worth_recording result) then pure tt else (do
    loaded ← load_state env
    elim loaded [
      | err e ↦ pure tt
      | ok s ↦
          if ltb s.last_attempt_at run_start || same_result s.last_result skipped_known_bad
          then pure tt
          else (do save_state env (record_deployment s (entry_of s result)); pure tt)
    ])

  unfoldable pub paused_run : M Result
  unfolding paused_result
  paused_run = do fetched ← fetch_and_preview env 1 (upstream cfg); pure (paused_result fetched)

  err_degraded : Err
  err_degraded = plain "system is DEGRADED; use --force to retry"

  run_loaded : Options → M Result
  unfolding paused_run err_degraded
  run_loaded opts = do
    s ← get_st
    now ← read_clock env
    if paused s now
        then paused_run
        else if same_result s.last_result degraded && not opts.force
        then pure (record no_result {
          degraded = true;
          new_commit = s.last_attempt_commit;
          error = some err_degraded;
        })
        else if pending s
        then recover_from_crash env cfg opts
        else run_normal env cfg opts

  after_load : Options → Try State → M Result
  unfolding run_loaded
  after_load opts (err e) = pure (record no_result { error = some (wrap "loading state" e) })
  after_load opts (ok s) = do modify_st (λ _. s); run_loaded opts

  unfoldable pub reconcile_locked : Options → M Result
  unfolding after_load
  reconcile_locked opts = do loaded ← load_state env; after_load opts loaded

  -- The run under the lock.
  locked_run : Options → M Result
  unfolding reconcile_locked record_history
  locked_run opts = do
    run_start ← read_clock env
    result ← reconcile_locked opts
    if opts.dry_run then pure tt else record_history result run_start
    call lock_released (λ w. result)

  try_lock : M (Try Bool)
  try_lock = call lock_tried (λ w. env.try_lock w.history)

  run_if_held : Options → Try Bool → M Result
  unfolding locked_run
  run_if_held opts (err e) =
      pure (record no_result { error = some (wrap "acquiring state lock" e) })
  run_if_held opts (ok false) = pure (record no_result { skipped = true; skip_reason = locked })
  run_if_held opts (ok true) = locked_run opts

  run_or_skip : Options → M Result
  unfolding run_if_held try_lock
  run_or_skip opts = do held ← try_lock; run_if_held opts held

  is_locked_out : SkipReason → Bool
  is_locked_out Reconcile.locked = true
  is_locked_out _ = false

  unfoldable pub reconcile : Options → M Result
  unfolding run_or_skip is_locked_out
  reconcile opts = do
    result ← run_or_skip opts
    if not opts.dry_run && not (is_locked_out result.skip_reason)
        then call pinged (λ w. result)
        else pure result
