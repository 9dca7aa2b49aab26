-- ===== src/Reconcile/Recovery.antt =====
-- internal/reconcile/recovery.go: a run that finds an interrupted apply or revert.
pub mod Keeping
pub mod Answers
pub mod Limits
use compose_lock.Prelude.{
  ℕ, ◌+◌, ◌-◌, ◌*◌, String, ◌<>◌, Bool, true, false, not, ◌&&◌, ◌||◌, Option, none, some, List, [],
  ◌∷◌, show, ltb, leb, beq, ◌==◌, if◌then◌else◌,
}
use compose_lock.Errors.{Err, plain, wrap, Try, ok, err}
use compose_lock.State.{State, is_known_bad, revert_in_progress}
use compose_lock.Compose.{Stack}
use compose_lock.Config.{Config}
use compose_lock.Git.{GitResult, fetch_and_preview}
use compose_lock.World.{World, M, pure, gets, ◌>>=◌, ◌>>◌, Env, modify_st, get_st, read_clock}
use compose_lock.Reconcile.{Options, Result, no_result, short_commit}
use compose_lock.Reconcile.Stacks.{deployed_stacks, restrict_to_names}
use compose_lock.Reconcile.Live.{Live, stacks_allowing_empty, evaluate_live}
use compose_lock.Reconcile.Saving.{count_recovery_attempt}
use compose_lock.Reconcile.Watching.{second}
use compose_lock.Reconcile.Revert.{degrade, do_revert}
use compose_lock.Reconcile.Apply.{apply_and_watch}

abbrev pub max_recovery_attempts : ℕ
max_recovery_attempts = 3

-- Fifteen minutes.
abbrev recovery_attempt_grace : ℕ
recovery_attempt_grace = 900 * second

-- The upstream branch as git names it.
abbrev pub upstream : Config → String
upstream cfg = cfg.remote <> ("/" <> cfg.branch)

unfoldable pub recovery_budget : Config → ℕ
recovery_budget cfg =
    max_recovery_attempts * (cfg.health_watch_seconds * second + recovery_attempt_grace)

-- A clock that has gone back leaves a negative difference in the source and 0 here; neither is over
-- the budget. The run reads the clock also where nothing is pending since a time, and does not use it.
unfoldable pub recovery_expired : Config → State → ℕ → Bool
unfolding recovery_budget
recovery_expired cfg s now =
    if beq s.pending_since 0 then false else ltb (recovery_budget cfg) (now - s.pending_since)

-- A commit that the branch has moved on to, and that is applied in place of the pending one.
unfoldable pub superseding : Options → State → String → Try GitResult → Option String
superseding opts s pending (err e) = none
superseding opts s pending (ok r) =
    if r.new_commit == "" || r.new_commit == pending
    then none
    else if is_known_bad s r.new_commit && not opts.force
    then none
    else some r.new_commit

abbrev of_commit : String → Result
of_commit commit = record no_result { new_commit = commit }

failed_with : String → Err → Result
failed_with commit e = record (of_commit commit) { error = some e }

module _ (env : Env) (cfg : Config) (opts : Options) (commit : String) where
  superseding_commit : M (Option String)
  superseding_commit = do
    fetched ← fetch_and_preview env cfg.retry_attempts (upstream cfg)
    s ← get_st
    pure (superseding opts s commit fetched)

  -- A revert of the stacks that the interrupted run was touching.
  revert_pending : List Stack → String → M Result
  revert_pending discovered reason = do
    s ← get_st
    r ← do_revert env cfg (restrict_to_names discovered s.pending_stacks) commit reason
    pure (record r { new_commit = commit })

  apply_pending : List Stack → Live → Option String → M Result
  apply_pending discovered live (some newer) = do
    s ← get_st
    apply_and_watch env cfg
        (record no_result { changed = true; new_commit = newer; old_commit = commit })
        (deployed_stacks s.last_healthy_stacks discovered) [] live.snapshots
  apply_pending discovered live none = do
    s ← get_st
    apply_and_watch env cfg
        (record no_result { new_commit = commit; old_commit = s.last_healthy_commit })
        (deployed_stacks s.last_healthy_stacks discovered) s.pending_stacks live.snapshots

  judge_live : List Stack → Option String → Try Live → M Result
  unfolding revert_pending apply_pending failed_with
  judge_live discovered newer (err e) =
      pure (failed_with commit (wrap "crash recovery: live snapshot" e))
  judge_live discovered newer (ok live) = do
    problem ← count_recovery_attempt env
    elim problem [
      | some e ↦ pure (failed_with commit e)
      | none ↦
          if not live.is_healthy
          then revert_pending discovered ("crash recovery: live stack unhealthy: " <> live.reason)
          else apply_pending discovered live newer
    ]

  resume_revert : List Stack → M Result
  unfolding revert_pending failed_with
  resume_revert discovered = do
    problem ← count_recovery_attempt env
    elim problem [
      | some e ↦ pure (failed_with commit e)
      | none ↦
          revert_pending discovered ("crash recovery: resumed revert of " <> short_commit commit)
    ]

  recover_from : Option String → Try (List Stack) → M Result
  unfolding judge_live resume_revert failed_with
  recover_from newer (err e) = pure (failed_with commit (wrap "discovering compose stacks" e))
  recover_from newer (ok discovered) = do
    s ← get_st
    if revert_in_progress s
        then resume_revert discovered
        else (do live ← evaluate_live env cfg discovered; judge_live discovered newer live)

  discover_and_recover : Option String → M Result
  unfolding recover_from
  discover_and_recover newer = do
    discovered ← stacks_allowing_empty env cfg
    recover_from newer discovered

  -- The text of the source prints the budget as well.
  give_up : String → M Result
  give_up why = degrade env cfg commit "" [] (
      plain (
        "crash recovery for "
        <> (short_commit commit <> (why <> ": manual intervention required"))))

  -- The limits bind only where no newer commit takes the pending one's place.
  within_limits : Option String → M Result
  unfolding give_up discover_and_recover
  within_limits (some newer) = discover_and_recover (some newer)
  within_limits none = do
    s ← get_st
    if leb max_recovery_attempts s.pending_attempts
        then give_up (" failed " <> (show s.pending_attempts <> " times"))
        else (do
          now ← read_clock env
          if recovery_expired cfg s now
              then give_up " has been pending longer than the recovery budget"
              else discover_and_recover none)

  forced_reset : M (Unit {0})
  forced_reset =
      if opts.force
      then (do
        now ← read_clock env
        modify_st (λ s. record s { pending_attempts = 0; pending_since = now }))
      else pure tt

  recover_pending : M Result
  unfolding forced_reset superseding_commit within_limits
  recover_pending = do
    forced_reset
    s ← get_st
    newer ← if revert_in_progress s then pure none else superseding_commit
    within_limits newer

  unfoldable pub recover : M Result
  unfolding recover_pending
  recover = if opts.dry_run then pure (of_commit commit) else recover_pending

-- `recoverFromCrash`
unfoldable pub recover_from_crash : Env → Config → Options → M Result
unfolding recover
recover_from_crash env cfg opts = do s ← get_st; recover env cfg opts s.pending_commit
