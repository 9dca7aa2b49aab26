-- ===== src/Reconcile/Live.antt =====
-- What a reconcile reads of the repository and of the running stacks: `StacksFor`,
-- `stacksAllowingEmpty`, `filterChanged`, `evaluateLive` and `updatedServices` of reconcile.go, and
-- `relevantChange` of apply.go.
pub mod Keeping
use compose_lock.Prelude.{
  ℕ, String, ◌<>◌, Bool, true, false, not, ◌&&◌, ◌||◌, Option, none, some, List, [], ◌∷◌, ◌++◌,
  ◌==◌, sort, compact, lookup, insert, if◌then◌else◌, beq,
}
use compose_lock.Errors.{Err, wrap, Try, ok, err}
use compose_lock.Health.{Snapshot, evaluate_preflight}
use compose_lock.Health.Changes.{changed_services, restarted_services}
use compose_lock.Paths.{FilePath, parse, resolve_under_repo, contains_path}
use compose_lock.Compose.{Stack, Project, Fs}
use compose_lock.Compose.Yaml.{Documents}
use compose_lock.Compose.Discover.{Discovery, stacks, no_stacks, broken, discover}
use compose_lock.Compose.Inputs.{Found, project_inputs}
use compose_lock.Config.{Config}
use compose_lock.World.{World, M, pure, gets, ◌>>=◌, ◌>>◌, Env, load_project, take_snapshot}
use compose_lock.Reconcile.Stacks.{stack_names}
use compose_lock.Reconcile.Attribution.{
  dependency_changed, compose_file_changed, compose_dir_relevant, touched_stack_dirs,
}

-- `liveState`
pub record Live : Type 0 where
  pub snapshots : List (String × Snapshot)
  pub is_healthy : Bool
  pub reason : String

-- The stacks that changed, and whether one of them could not be weighed.
pub record Changed : Type 0 where
  pub changed : List Stack
  pub undetermined : Bool

-- `updatedServices`
pub record Updates : Type 0 where
  pub updated : List String
  pub restarted : List String
  pub known : Bool

abbrev no_updates : Updates
no_updates = record { updated = []; restarted = []; known = false }

readable : Try Documents → Option Documents
readable (ok docs) = some docs
readable (err e) = none

allow_empty : Discovery → Try (List Stack)
allow_empty (stacks ss) = ok ss
allow_empty (no_stacks e) = ok []
allow_empty (broken e) = err e

-- Whether the inputs of a project that was loaded are touched: `none` where it could not be loaded.
inputs_match : Option FilePath → FilePath → Fs → List String → Try Project → Option Bool
unfolding readable
inputs_match cwd repo_path fs files (err e) = none
inputs_match cwd repo_path fs files (ok project) =
    let found = project_inputs (λ p. readable (fs.read_yaml p)) project in
    some (if not found.complete then true else dependency_changed cwd repo_path found.paths files)

or_true : Option Bool → Bool
or_true none = true
or_true (some b) = b

weighed : Stack → Option Bool → Changed → Changed
weighed s none rest = record rest { undetermined = true }
weighed s (some true) rest = record rest { changed = s ∷ rest.changed }
weighed s (some false) rest = rest

module _ (env : Env) (cfg : Config) where
  read_fs : M Fs
  unfolding gets
  read_fs = gets (λ w. env.fs w.history)

  resolved : String → FilePath
  resolved p = resolve_under_repo env.cwd cfg.repo_path (parse p)

  unfoldable pub stacks_for : M Discovery
  unfolding read_fs resolved
  stacks_for = do
    fs ← read_fs
    if not (cfg.compose_dir == "")
        then pure (discover fs (resolved cfg.compose_dir) cfg.project_name)
        else pure (
            stacks (
              record {
                project_name = cfg.project_name;
                dir = none;
                files = resolved cfg.compose_file ∷ [];
              }
              ∷ []))

  unfoldable pub stacks_allowing_empty : M (Try (List Stack))
  unfolding stacks_for allow_empty
  stacks_allowing_empty = do found ← stacks_for; pure (allow_empty found)

  -- `stackInputsMatch`: `none` is not determined.
  stack_inputs_match : List String → Stack → M (Option Bool)
  unfolding read_fs inputs_match
  stack_inputs_match files s = do
    project ← load_project env s.files s.project_name
    fs ← read_fs
    pure (inputs_match env.cwd cfg.repo_path fs files project)

  is_touched : List FilePath → Stack → Bool
  is_touched touched s = elim s.dir [
    | none ↦ true
    | some d ↦ contains_path touched (resolve_under_repo env.cwd cfg.repo_path d)
  ]

  filter_loop : List FilePath → List String → List Stack → M Changed
  unfolding is_touched stack_inputs_match weighed
  filter_loop touched files [] = pure (record { changed = []; undetermined = false })
  filter_loop touched files (s ∷ ss) =
      if is_touched touched s
      then (do rest ← filter_loop touched files ss; pure (weighed s (some true) rest))
      else (do
        matched ← stack_inputs_match files s
        rest ← filter_loop touched files ss
        pure (weighed s matched rest))

  unfoldable pub filter_changed : List Stack → List Stack → List String → M Changed
  unfolding filter_loop
  filter_changed current previous files =
      filter_loop (touched_stack_dirs env.cwd cfg.repo_path (current ++ previous) files) files
        current

  project_inputs_relevant : List FilePath → String → List String → M Bool
  unfolding read_fs inputs_match or_true
  project_inputs_relevant paths name files = do
    project ← load_project env paths name
    fs ← read_fs
    pure (or_true (inputs_match env.cwd cfg.repo_path fs files project))

  any_relevant : List Stack → List String → M Bool
  unfolding project_inputs_relevant
  any_relevant [] files = pure false
  any_relevant (s ∷ ss) files = do
    relevant ← project_inputs_relevant s.files s.project_name files
    if relevant then pure true else any_relevant ss files

  compose_dir_inputs_relevant : List String → M Bool
  unfolding stacks_allowing_empty any_relevant
  compose_dir_inputs_relevant files = do
    found ← stacks_allowing_empty
    elim found [ err e ↦ pure true | ok ss ↦ any_relevant ss files ]

  unfoldable pub relevant_change : List String → M Bool
  unfolding compose_dir_inputs_relevant project_inputs_relevant resolved
  relevant_change files =
      if not (cfg.compose_dir == "")
      then (if compose_dir_relevant env.cwd cfg.repo_path (resolved cfg.compose_dir) files
          then pure true
          else compose_dir_inputs_relevant files)
      else if compose_file_changed env.cwd cfg.repo_path cfg.compose_file files
      then pure true
      else project_inputs_relevant (resolved cfg.compose_file ∷ []) cfg.project_name files

  live_loop : List (String × Snapshot) → List String → M (Try Live)
  live_loop seen [] = pure (ok (record { snapshots = seen; is_healthy = true; reason = "" }))
  live_loop seen (n ∷ ns) = do
    answer ← take_snapshot env n
    elim answer [
      | err e ↦ pure (err (wrap ("snapshot of " <> n) e))
      | ok snap ↦
          let verdict = evaluate_preflight snap in
          if verdict.is_healthy
          then live_loop (insert n snap seen) ns
          else pure (
              ok (record {
                snapshots = insert n snap seen;
                is_healthy = false;
                reason = n <> (": " <> verdict.reason);
              }))
    ]

  or_project : List String → List String
  or_project [] = cfg.project_name ∷ []
  or_project (n ∷ ns) = n ∷ ns

  unfoldable pub evaluate_live : List Stack → M (Try Live)
  unfolding live_loop or_project
  evaluate_live ss = live_loop [] (or_project (stack_names ss))

no_containers : Snapshot
no_containers = record { containers = [] }

before_of : List (String × Snapshot) → String → Snapshot
unfolding no_containers
before_of before n = elim (lookup n before) [ none ↦ no_containers | some snap ↦ snap ]

-- `none` where a stack has no snapshot after the apply.
collect_updates : List (String × Snapshot) → List (String × Snapshot) → List Stack → Option Updates
unfolding before_of
collect_updates before after [] = some (record { updated = []; restarted = []; known = true })
collect_updates before after (s ∷ ss) =
    let rest = collect_updates before after ss in
    elim (lookup s.project_name after) [
      | none ↦ none
      | some post ↦ elim rest [
        | none ↦ none
        | some u ↦ some (record u {
          updated = changed_services (before_of before s.project_name) post ++ u.updated;
          restarted = restarted_services (before_of before s.project_name) post ++ u.restarted;
        })
      ]
    ]

unfoldable pub updated_services :
    Config → List (String × Snapshot) → List (String × Snapshot) → List Stack → Updates
unfolding collect_updates
updated_services cfg before after ss =
    if beq cfg.health_watch_seconds 0 then no_updates else elim (collect_updates before after ss) [
      | none ↦ no_updates
      | some u ↦ record u {
        updated = compact (sort u.updated);
        restarted = compact (sort u.restarted);
      }
    ]
