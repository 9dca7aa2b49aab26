-- ===== src/Reconcile/Apply.antt =====
-- `applyAndWatch` of internal/reconcile/apply.go
pub mod Keeping
pub mod Answers
use compose_lock.Prelude.{
  ℕ, ◌+◌, ◌*◌, String, ◌<>◌, Bool, true, false, not, ◌&&◌, ◌||◌, Option, none, some, List, [], ◌∷◌,
  beq, ◌==◌, map, if◌then◌else◌,
}
use compose_lock.Errors.{Err, plain, wrap, Try, ok, err, is_infra_error, message}
use compose_lock.State.{State}
use compose_lock.Health.{Snapshot, Outcome, unknown, healthy, unhealthy}
use compose_lock.Compose.{Stack, Project}
use compose_lock.Config.{Config}
use compose_lock.Git.{checkout_commit}
use compose_lock.World.{
  World, M, pure, ◌>>=◌, ◌>>◌, Env, modify_st, get_st, read_clock, is_cancelled, pull,
}
use compose_lock.Reconcile.{Result, Report, success, short_commit}
use compose_lock.Reconcile.Stacks.{stack_names, restrict_to_names, vanished_stacks, report_stacks}
use compose_lock.Reconcile.Live.{
  Changed, Updates, stacks_allowing_empty, filter_changed, updated_services,
}
use compose_lock.Reconcile.Saving.{commit_state, promote_healthy}
use compose_lock.Reconcile.Watching.{Watched, watch_stacks, second}
use compose_lock.Reconcile.Projects.{
  Loaded, loaded, load_failed, env_failed, Raised, raised, up_failed, load_all, up_all,
  tear_down_stacks,
}
use compose_lock.Reconcile.Abort.{
  abort_before_up, abort_apply, apply_incomplete, apply_interrupted, fail_and_revert,
}

-- The state that is saved before Compose is touched, so that a crash can be recovered from.
unfoldable pub pending_state : State → ℕ → String → List String → State
pending_state s now commit names =
    let s' =
      if not (s.pending_commit == commit)
      then record s { pending_attempts = 0; pending_since = now }
      else if beq s.pending_since 0
      then record s { pending_since = now }
      else s in
    record s' {
      pending_commit = commit;
      pending_stacks = names;
      last_checkout_commit = commit;
      last_attempt_commit = commit;
      last_attempt_at = now;
    }

with_error : Result → Option Err → Result
with_error r none = r
with_error r (some e) = record r { error = some e }

-- What the parts of an apply share: the snapshots before it, the stacks at the new checkout, and
-- those that the checkout before had and this one lacks.
pub record Plan : Type 0 where
  pub before : List (String × Snapshot)
  pub stacks : List Stack
  pub vanished : List Stack

module _ (env : Env) (cfg : Config) where
  pull_all : List (Stack × Project) → M (Option (Stack × Err))
  pull_all [] = pure none
  pull_all ((s, p) ∷ rest) = do
    problem ← pull env p
    elim problem [ some e ↦ pure (some (s, e)) | none ↦ pull_all rest ]

  success_result : Result → Plan → List Stack → Watched → Result
  success_result result plan changed w =
      let u = updated_services cfg plan.before w.baselines changed in
      record result {
        updated = u.updated;
        restarted = u.restarted;
        notification = some (record {
          outcome = success;
          title = "ComposeLock: deployed successfully";
          commit = result.new_commit;
          branch = cfg.branch;
          services = result.services;
          updated = u.updated;
          updated_known = u.known;
          restarted = u.restarted;
          stacks = report_stacks cfg.compose_dir result.stacks;
          health_watch = result.health_watch;
          error = none;
        });
      }

  -- The apply was watched and found healthy.
  finish_apply : Result → Plan → List Stack → Watched → M Result
  unfolding success_result
  finish_apply result plan changed w = do
    torn ← tear_down_stacks env plan.vanished
    elim torn [
      | some e ↦ apply_incomplete env cfg result "tearing down removed stacks failed" "teardown" e
      | none ↦ do
        problem ← promote_healthy env result.new_commit (stack_names plan.stacks)
        pure (elim problem [
          | some e ↦ record result { error = some e }
          | none ↦ success_result result plan changed w
        ])
    ]

  -- What the verdict on the new checkout leads to.
  watched_apply : Result → Plan → List Stack → Watched → Outcome → M Result
  unfolding finish_apply
  watched_apply result plan changed w healthy = finish_apply result plan changed w
  watched_apply result plan changed w _ = fail_and_revert env cfg changed result (
      "applied "
      <> (short_commit result.new_commit <> (" failed health watch (" <> (w.reason <> ")"))))

  judge_apply : Result → Plan → List Stack → Try Watched → M Result
  unfolding watched_apply
  judge_apply result plan changed (err e) =
      apply_incomplete env cfg result "health watch did not complete" "watch"
        (wrap "health watch" e)
  judge_apply result plan changed (ok w) =
      watched_apply (record result { health_watch = cfg.health_watch_seconds * second }) plan
        changed w w.outcome

  watch_apply : Result → Plan → List Stack → List (Stack × Project) → Raised → M Result
  unfolding judge_apply
  watch_apply result plan changed projects (up_failed s e) = do
    cancelled ← is_cancelled env
    if cancelled
        then pure (record result { error = some (wrap "compose up interrupted" e) })
        else if is_infra_error e
        then apply_interrupted env cfg result s.project_name e
        else fail_and_revert env cfg changed result (
            "applying "
            <> (short_commit result.new_commit
                <> (" (" <> (s.project_name <> (") failed: " <> message e)))))
  watch_apply result plan changed projects (raised services) = do
    verdict ← watch_stacks env cfg projects result.new_commit
    judge_apply
        (record result { applied = true; services = services; stacks = stack_names changed }) plan
        changed verdict

  -- From the save of the pending block on.
  raise_apply : Result → Plan → List Stack → List (Stack × Project) → M Result
  unfolding watch_apply
  raise_apply result plan changed projects = do
    now ← read_clock env
    s ← get_st
    problem ← commit_state env (pending_state s now result.new_commit (stack_names changed))
    elim problem [
      | some e ↦ abort_before_up env cfg result "saving state failed" (wrap "saving state" e)
      | none ↦ do outcome ← up_all env [] projects; watch_apply result plan changed projects outcome
    ]

  pull_apply : Result → Plan → List Stack → Loaded → M Result
  unfolding raise_apply pull_all
  pull_apply result plan changed (load_failed s e) =
      abort_apply env cfg result "loading compose project failed"
        (wrap ("loading project " <> s.project_name) e)
  pull_apply result plan changed (env_failed s e) = abort_apply env cfg result "env_file missing" e
  pull_apply result plan changed (loaded projects) = do
    problem ← pull_all projects
    elim problem [
      | some (s, e) ↦
          abort_apply env cfg result "pulling images failed"
            (wrap ("pulling images for " <> s.project_name) e)
      | none ↦ raise_apply result plan changed projects
    ]

  -- No stack changed.
  apply_nothing : Result → Plan → Bool → M Result
  unfolding with_error
  apply_nothing result plan undetermined = do
    torn ← tear_down_stacks env plan.vanished
    elim torn [
      | some e ↦ apply_incomplete env cfg result "tearing down removed stacks failed" "teardown" e
      | none ↦ if undetermined then pure (record result { skipped = true }) else (do
        problem ← promote_healthy env result.new_commit (stack_names plan.stacks)
        pure (with_error (record result { skipped = true }) problem))
    ]

  apply_listed : Result → Plan → Bool → List Stack → M Result
  unfolding pull_apply apply_nothing
  apply_listed result plan undetermined [] = apply_nothing result plan undetermined
  apply_listed result plan undetermined (s ∷ ss) = do
    projects ← load_all env (s ∷ ss)
    pull_apply result plan (s ∷ ss) projects

  apply_changed : Result → Plan → Changed → M Result
  unfolding apply_listed
  apply_changed result plan c = apply_listed result plan c.undetermined c.changed

  abbrev all_of : List Stack → Changed
  all_of ss = record { changed = ss; undetermined = false }

  -- Which stacks to apply: all before the first healthy deployment, those that a changed file
  -- touches, or those that the interrupted run was touching. A nil slice of files is empty.
  stacks_touched : List Stack → List Stack → List String → List String → M Changed
  stacks_touched previous stacks pending [] = pure (all_of (restrict_to_names stacks pending))
  stacks_touched previous stacks pending (f ∷ fs) = filter_changed env cfg stacks previous (f ∷ fs)

  choose_stacks : State → Result → List Stack → List Stack → List String → M Changed
  unfolding stacks_touched
  choose_stacks s result previous stacks pending =
      if s.last_healthy_commit == ""
      then pure (all_of stacks)
      else stacks_touched previous stacks pending result.changed_files

  apply_at :
      Result → List Stack → List String → List (String × Snapshot) → Try (List Stack) → M Result
  unfolding apply_changed choose_stacks
  apply_at result previous pending before (err e) =
      abort_apply env cfg result "discovering compose stacks failed" e
  apply_at result previous pending before (ok stacks) = do
    s ← get_st
    changed ← choose_stacks s result previous stacks pending
    apply_changed result
        (record { before = before; stacks = stacks; vanished = vanished_stacks previous stacks })
        changed

  unfoldable pub apply_and_watch :
      Result → List Stack → List String → List (String × Snapshot) → M Result
  unfolding apply_at
  apply_and_watch result previous pending before = do
    problem ← checkout_commit env result.new_commit
    elim problem [
      | some e ↦ abort_before_up env cfg result "checkout failed" e
      | none ↦ do
        stacks ← stacks_allowing_empty env cfg
        apply_at result previous pending before stacks
    ]
