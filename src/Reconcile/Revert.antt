-- ===== src/Reconcile/Revert.antt =====
-- internal/reconcile/revert.go: back to the last healthy commit, or DEGRADED. An empty
-- `failed_commit` is a recovery before the flight, which failed no commit.
pub mod Keeping
pub mod TornDown
pub mod Answers
use compose_lock.Prelude.{
  ℕ, ◌*◌, String, ◌<>◌, Bool, true, false, not, ◌||◌, Option, none, some, List, [], ◌∷◌, beq, ◌==◌,
  map, is_some, if◌then◌else◌,
}
use compose_lock.Errors.{Err, plain, wrap, both, Try, ok, err, is_infra_error}
use compose_lock.State.{State, LastResult, failed_apply, reverted, degraded, mark_failed}
use compose_lock.Health.{Outcome, unknown, healthy, unhealthy}
use compose_lock.Compose.{Stack, Project}
use compose_lock.Config.{Config}
use compose_lock.Git.{checkout_commit}
use compose_lock.World.{
  World, M, pure, ◌>>=◌, ◌>>◌, Env, modify_st, get_st, read_clock, is_cancelled,
}
use compose_lock.Reconcile.{
  Result, no_result, Report, failure_report, failure, recovered, short_commit,
}
use compose_lock.Reconcile.Stacks.{
  stack_names, intersect_by_project_name, vanished_stacks, report_stacks,
}
use compose_lock.Reconcile.Live.{stacks_allowing_empty}
use compose_lock.Reconcile.Saving.{commit_state}
use compose_lock.Reconcile.Watching.{Watched, watch_stacks, second}
use compose_lock.Reconcile.Projects.{
  Loaded, loaded, load_failed, env_failed, Raised, raised, up_failed, load_all, up_all,
  tear_down_stacks,
}

abbrev pub preflight_recovery : String
preflight_recovery = ""

unfoldable pub degraded_key : String → String → String
degraded_key failed_commit target =
    if failed_commit == preflight_recovery
    then "degraded:preflight:" <> target
    else "degraded:" <> failed_commit

unfoldable pub reported_commit : String → String → String
reported_commit failed_commit target =
    if failed_commit == preflight_recovery then target else failed_commit

-- The pending block of the state, emptied.
abbrev pub no_pending : State → State
no_pending s = record s {
  pending_commit = "";
  pending_since = 0;
  pending_attempts = 0;
  pending_stacks = [];
  pending_revert = false;
}

-- The state that `degrade` saves.
unfoldable pub degraded_state : State → ℕ → String → State
degraded_state s now failed_commit =
    let s' = record (no_pending s) { last_result = degraded; last_attempt_at = now } in
    if failed_commit == preflight_recovery
    then s'
    else record (mark_failed s' failed_commit now) { last_attempt_commit = failed_commit }

nonempty_or : List String → List String → List String
nonempty_or [] old = old
nonempty_or (n ∷ ns) old = n ∷ ns

-- The state that `revertInterrupted` saves.
unfoldable pub interrupted_state : State → ℕ → String → List String → State
unfolding nonempty_or
interrupted_state s now failed_commit names =
    let s' = record s {
      pending_revert = true;
      pending_commit = failed_commit;
      pending_stacks = nonempty_or names s.pending_stacks;
      pending_since = if beq s.pending_since 0 then now else s.pending_since;
    } in
    let s'' =
      if failed_commit == preflight_recovery
      then s'
      else record (mark_failed s' failed_commit now) { last_attempt_commit = failed_commit } in
    record s'' { last_attempt_at = now; last_result = failed_apply }

-- The state that a revert saves once its watch has passed.
unfoldable pub reverted_state : State → ℕ → String → String → State
reverted_state s now failed_commit target =
    let s' = record (no_pending s) { last_checkout_commit = target; last_attempt_at = now } in
    let s'' =
      if failed_commit == preflight_recovery
      then s'
      else record s' { last_attempt_commit = failed_commit; preflight_blocks = 0 } in
    record s'' { last_result = reverted }

with_save_error : String → Err → Option Err → Err
with_save_error what e none = e
with_save_error what e (some s) = both e (" (saving " <> (what <> " also failed: ")) s ")"

module _ (env : Env) (cfg : Config) where
  unfoldable pub degrade : String → String → List String → Err → M Result
  unfolding degraded_state with_save_error
  degrade failed_commit target stacks e = do
    now ← read_clock env
    s ← get_st
    problem ← commit_state env (degraded_state s now failed_commit)
    let e' = with_save_error "degraded state" e problem
    pure (record no_result {
      degraded = true;
      rolled_back_to = target;
      error = some e';
      notification =
          some
            (record (failure_report "ComposeLock: DEGRADED, manual intervention required"
              (reported_commit failed_commit target) cfg.branch e') {
                stacks = report_stacks cfg.compose_dir stacks;
              });
      notification_key = degraded_key failed_commit target;
    })

  interrupted_report : String → String → List Stack → Err → Result
  interrupted_report failed_commit target stacks e = record no_result {
    rolled_back_to = target;
    error = some e;
    notification =
        some
          (record (failure_report "ComposeLock: revert interrupted, will resume"
            (reported_commit failed_commit target) cfg.branch e) {
              stacks = report_stacks cfg.compose_dir (stack_names stacks);
            });
    notification_key = "revert-interrupted:" <> reported_commit failed_commit target;
  }

  unfoldable pub revert_interrupted : String → String → List Stack → Err → M Result
  unfolding interrupted_state with_save_error interrupted_report
  revert_interrupted failed_commit target stacks e = do
    now ← read_clock env
    s ← get_st
    problem ← commit_state env (interrupted_state s now failed_commit (stack_names stacks))
    let e' = with_save_error "interrupted revert state" e problem
    cancelled ← is_cancelled env
    if cancelled
        then pure (record no_result { rolled_back_to = target; error = some e' })
        else pure (interrupted_report failed_commit target stacks e')

  unfoldable pub revert_failed : String → String → List Stack → Err → M Result
  unfolding degrade revert_interrupted
  revert_failed failed_commit target stacks e = do
    cancelled ← is_cancelled env
    if cancelled || is_infra_error e
        then revert_interrupted failed_commit target stacks e
        else degrade failed_commit target (stack_names stacks) e

  reverted_report : String → String → String → List Stack → List String → Result
  reverted_report failed_commit target reason stacks services =
      let e = plain (reason <> (", reverted to " <> (short_commit target <> ": healthy again"))) in
      let preflight = failed_commit == preflight_recovery in
      record no_result {
        reverted = true;
        rolled_back_to = target;
        health_watch = cfg.health_watch_seconds * second;
        error = some e;
        notification = some (record {
          outcome = recovered;
          title =
              if preflight
              then "ComposeLock: restored last healthy commit"
              else "ComposeLock: reverted, healthy again";
          commit = reported_commit failed_commit target;
          branch = cfg.branch;
          services = services;
          updated = [];
          updated_known = false;
          restarted = [];
          stacks = report_stacks cfg.compose_dir (stack_names stacks);
          health_watch = cfg.health_watch_seconds * second;
          error = some e;
        });
        notification_key =
            if preflight then "preflight-recovered:" <> target else "reverted:" <> failed_commit;
      }

  -- The end of `doRevert`, once the target has passed its watch.
  finish_revert : String → String → String → List Stack → List String → M Result
  unfolding reverted_report reverted_state
  finish_revert failed_commit target reason stacks services = do
    s ← get_st
    now ← read_clock env
    problem ← commit_state env (reverted_state s now failed_commit target)
    elim problem [
      | some e ↦ pure (record no_result {
        reverted = true;
        rolled_back_to = target;
        health_watch = cfg.health_watch_seconds * second;
        error = some (wrap "saving state" e);
      })
      | none ↦ pure (reverted_report failed_commit target reason stacks services)
    ]

  watched_revert : String → String → String → List Stack → List String → Outcome → String → M Result
  unfolding finish_revert degrade
  watched_revert failed_commit target reason stacks services healthy why =
      finish_revert failed_commit target reason stacks services
  watched_revert failed_commit target reason stacks services _ why =
      degrade failed_commit target (stack_names stacks) (
        plain (
          "revert to "
          <> (short_commit target
              <> (" also failed health watch (" <> (why <> "): manual intervention required")))))

  judge_revert : String → String → String → List Stack → List String → Try Watched → M Result
  unfolding watched_revert revert_interrupted
  judge_revert failed_commit target reason stacks services (err e) =
      revert_interrupted failed_commit target stacks (wrap "health watch during revert" e)
  judge_revert failed_commit target reason stacks services (ok r) =
      watched_revert failed_commit target reason stacks services r.outcome r.reason

  watch_revert : String → String → String → List Stack → List (Stack × Project) → Raised → M Result
  unfolding judge_revert revert_failed
  watch_revert failed_commit target reason stacks projects (up_failed s e) =
      revert_failed failed_commit target stacks
        (wrap ("compose up during revert of " <> s.project_name) e)
  watch_revert failed_commit target reason stacks projects (raised services) = do
    verdict ← watch_stacks env cfg projects target
    judge_revert failed_commit target reason stacks services verdict

  unfoldable pub raise_revert : String → String → String → List Stack → Loaded → M Result
  unfolding watch_revert revert_failed
  raise_revert failed_commit target reason stacks (load_failed s e) =
      revert_failed failed_commit target stacks
        (wrap ("loading project " <> (s.project_name <> " for revert")) e)
  raise_revert failed_commit target reason stacks (env_failed s e) =
      revert_failed failed_commit target stacks
        (wrap ("env_file missing for revert of " <> s.project_name) e)
  raise_revert failed_commit target reason stacks (loaded projects) = do
    outcome ← up_all env [] projects
    watch_revert failed_commit target reason stacks projects outcome

  unfoldable pub revert_stacks : String → String → String → List Stack → List Stack → M Result
  unfolding raise_revert revert_failed
  revert_stacks failed_commit target reason stacks target_stacks = do
    problem ← tear_down_stacks env (vanished_stacks stacks target_stacks)
    elim problem [
      | some e ↦ revert_failed failed_commit target stacks e
      | none ↦ do
        projects ← load_all env (intersect_by_project_name target_stacks stacks)
        raise_revert failed_commit target reason (intersect_by_project_name target_stacks stacks)
            projects
    ]

  revert_to : String → String → String → List Stack → M Result
  unfolding revert_stacks revert_failed
  revert_to failed_commit target reason stacks = do
    problem ← checkout_commit env target
    elim problem [
      | some e ↦
          revert_failed failed_commit target stacks
            (wrap ("checking out rollback target " <> target) e)
      | none ↦ do
        modify_st (λ s. record s { last_checkout_commit = target })
        found ← stacks_allowing_empty env cfg
        elim found [
          | err e ↦
              revert_failed failed_commit target stacks
                (wrap "discovering compose stacks at rollback target" e)
          | ok target_stacks ↦ revert_stacks failed_commit target reason stacks target_stacks
        ]
    ]

  unfoldable pub do_revert : List Stack → String → String → M Result
  unfolding revert_to degrade
  do_revert stacks failed_commit reason = do
    s ← get_st
    if s.last_healthy_commit == ""
        then degrade failed_commit "" (stack_names stacks)
            (plain ("no rollback target available (" <> (reason <> ")")))
        else revert_to failed_commit s.last_healthy_commit reason stacks
