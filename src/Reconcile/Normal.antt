-- ===== src/Reconcile/Normal.antt =====
-- `runNormal` and `preflightBlocked` of internal/reconcile/apply.go: a run that finds nothing
-- interrupted.
pub mod Keeping
pub mod Answers
pub mod Guards
use compose_lock.Prelude.{
  ℕ, ◌+◌, String, ◌<>◌, Bool, true, false, not, ◌&&◌, ◌||◌, Option, none, some, List, [], ◌∷◌, show,
  leb, is_some, ◌==◌, if◌then◌else◌,
}
use compose_lock.Errors.{Err, plain, wrap, Try, ok, err}
use compose_lock.State.{
  State, failed_git, failed_preflight, skipped_known_bad, is_known_bad, expected_checkout,
}
use compose_lock.Compose.{Stack}
use compose_lock.Config.{Config}
use compose_lock.Config.Window.{DeployWindow, window, open_at}
use compose_lock.Git.{GitResult, fetch_and_preview, checkout_commit}
use compose_lock.World.{
  World, M, pure, ◌>>=◌, ◌>>◌, Env, modify_st, get_st, read_clock, is_cancelled,
}
use compose_lock.Reconcile.{
  Options, Result, no_result, failure_report, outside_window, preflight_unhealthy,
}
use compose_lock.Reconcile.Stacks.{stack_names, deployed_stacks}
use compose_lock.Reconcile.Live.{Live, stacks_allowing_empty, evaluate_live, relevant_change}
use compose_lock.Reconcile.Saving.{
  commit_state, record_outcome, record_checkout, clear_preflight_blocks,
}
use compose_lock.Reconcile.Revert.{preflight_recovery, degrade, do_revert}
use compose_lock.Reconcile.Abort.{abort_before_up}
use compose_lock.Reconcile.Apply.{apply_and_watch}
use compose_lock.Reconcile.Recovery.{upstream}

abbrev pub max_preflight_blocks : ℕ
max_preflight_blocks = 3

unfoldable pub checkout_drifted : State → String → Bool
checkout_drifted s head = not (head == "") && not (head == expected_checkout s)

-- What the run had found of the commits, on the result of the revert or of DEGRADED.
abbrev with_commits : Result → Result → Result
with_commits found r = record r {
  changed = found.changed;
  old_commit = found.old_commit;
  new_commit = found.new_commit;
  changed_files = found.changed_files;
}

-- The result of a run, as far as the fetch fills it in.
abbrev pub of_fetch : GitResult → Result
of_fetch r = record no_result {
  changed = r.changed;
  old_commit = r.old_commit;
  new_commit = r.new_commit;
  changed_files = r.changed_files;
}

module _ (env : Env) (cfg : Config) where
  recover_preflight : Result → List Stack → String → M Result
  recover_preflight result previous reason = do
    s ← get_st
    commit_state env (record s { preflight_blocks = s.preflight_blocks + 1 })
    r ←
        do_revert env cfg previous preflight_recovery
          ("pre-flight: live stack unhealthy: " <> reason)
    pure (with_commits result r)

  degrade_preflight : Result → List Stack → String → ℕ → String → M Result
  degrade_preflight result previous reason blocks target = do
    r ← degrade env cfg preflight_recovery target (stack_names previous) (
        plain (
          "pre-flight gate blocked "
          <> (show blocks
              <> (" consecutive runs (" <> (reason <> "): manual intervention required")))))
    pure (with_commits result r)

  unfoldable pub preflight_blocked : Options → Result → List Stack → String → M Result
  unfolding recover_preflight degrade_preflight
  preflight_blocked opts result previous reason = do
    if opts.force then modify_st (λ s. record s { preflight_blocks = 0 }) else pure tt
    s ← get_st
    if leb max_preflight_blocks s.preflight_blocks
        then degrade_preflight result previous reason s.preflight_blocks s.last_healthy_commit
        else recover_preflight result previous reason

  unfoldable pub advance_checkout : Result → M Result
  advance_checkout result = do
    problem ← checkout_commit env result.new_commit
    elim problem [
      | some e ↦ abort_before_up env cfg result "checkout failed" e
      | none ↦ do
        failure ← record_checkout env result.new_commit
        pure (elim failure [ none ↦ result | some e ↦ record result { error = some e } ])
    ]

  judge_gate : Options → Result → List Stack → Live → M Result
  unfolding preflight_blocked
  judge_gate opts result previous live =
      if opts.dry_run
      then pure (
          if live.is_healthy then result else record result {
            skipped = true;
            skip_reason = preflight_unhealthy;
            error = some (plain ("pre-flight gate would block this commit: " <> live.reason));
          })
      else if not live.is_healthy
      then preflight_blocked opts result previous live.reason
      else (do
        clear_preflight_blocks env
        s ← get_st
        apply_and_watch env cfg result (deployed_stacks s.last_healthy_stacks previous) []
            live.snapshots)

  gate_failed : Result → Err → M Result
  gate_failed result e = do
    cancelled ← is_cancelled env
    let e' = wrap "pre-flight snapshot" e
    let result' = record result { error = some e' }
    if cancelled then pure result' else (do
      record_outcome env failed_preflight result.new_commit
      pure (record result' {
        notification =
            some (
              failure_report "ComposeLock: pre-flight check failed" result.new_commit cfg.branch
                e');
        notification_key = "preflight:" <> result.new_commit;
      }))

  pass_gate : Options → Result → List Stack → M Result
  unfolding judge_gate gate_failed
  pass_gate opts result previous = do
    live ← evaluate_live env cfg previous
    elim live [ err e ↦ gate_failed result e | ok l ↦ judge_gate opts result previous l ]

  -- A discovery that fails at the present checkout falls back on the stacks that were healthy last.
  gate : Options → Result → M Result
  unfolding pass_gate
  gate opts result = do
    previous ← stacks_allowing_empty env cfg
    s ← get_st
    cancelled ← is_cancelled env
    elim previous [
      | ok ss ↦ pass_gate opts result ss
      | err e ↦
          if cancelled
          then pure (record result { error = some (wrap "discovering compose stacks" e) })
          else pass_gate opts result (deployed_stacks s.last_healthy_stacks [])
    ]

  weigh_change : Options → Result → M Result
  unfolding gate advance_checkout
  weigh_change opts result = do
    s ← get_st
    relevant ←
        if s.last_healthy_commit == ""
        then pure true
        else relevant_change env cfg result.changed_files
    if relevant then gate opts result else advance_checkout (record result { skipped = true })

  -- Past the guards: a checkout that has drifted is applied whole.
  proceed : Options → Result → M Result
  unfolding weigh_change gate
  proceed opts result =
      if not result.changed
      then gate opts (record result { changed = true; changed_files = [] })
      else weigh_change opts result

  window_closed : Result → ℕ → Bool
  window_closed result now = elim (window cfg.deploy_window) [
    | none ↦ false
    | some w ↦ result.changed && not (open_at w (env.minute_of_day now))
  ]

  has_window : Bool
  has_window = is_some (window cfg.deploy_window)

  -- The clock is read only where there is a window and a change to hold back.
  check_window : Options → Result → M Result
  unfolding proceed window_closed has_window
  check_window opts result =
      if has_window && result.changed
      then (do
        now ← read_clock env
        if window_closed result now
            then pure (record result { skipped = true; skip_reason = outside_window })
            else proceed opts result)
      else proceed opts result

  guard_commit : Options → Result → M Result
  unfolding check_window
  guard_commit opts result = do
    s ← get_st
    if not result.changed && not (checkout_drifted s result.old_commit)
        then pure result
        else if is_known_bad s result.new_commit && not opts.force
        then (do
          record_outcome env skipped_known_bad result.new_commit
          pure (record result { skipped = true }))
        else check_window opts result

  fetch_failed : Err → M Result
  fetch_failed e = do
    cancelled ← is_cancelled env
    let result = record no_result { error = some e }
    if cancelled then pure result else (do
      record_outcome env failed_git ""
      pure (record result {
        notification = some (failure_report "ComposeLock: git sync failed" "" cfg.branch e);
        notification_key = "git-sync";
      }))

  after_fetch : Options → Try GitResult → M Result
  unfolding guard_commit fetch_failed
  after_fetch opts (err e) = fetch_failed e
  after_fetch opts (ok r) = guard_commit opts (of_fetch r)

  unfoldable pub run_normal : Options → M Result
  unfolding after_fetch
  run_normal opts = do
    fetched ← fetch_and_preview env cfg.retry_attempts (upstream cfg)
    after_fetch opts fetched
