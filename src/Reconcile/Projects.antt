-- ===== src/Reconcile/Projects.antt =====
-- The loops over stacks that an apply and a revert share: load every project and check its env
-- files, bring every project up, and `tearDownStacks` of reconcile.go.
pub mod Keeping
pub mod Downs
use compose_lock.Prelude.{String, ◌<>◌, Bool, Option, none, some, List, [], ◌∷◌, ◌++◌, join, map}
use compose_lock.Errors.{Err, plain, wrap, both, Try, ok, err, join_errors}
use compose_lock.Compose.{Stack, Project}
use compose_lock.Compose.EnvFiles.{check_env_files}
use compose_lock.World.{
  World, M, pure, gets, ◌>>=◌, ◌>>◌, Env, load_project, compose_up, compose_down,
}
use compose_lock.Reconcile.Stacks.{service_names}

-- What the loop that loads the projects comes to.
pub data Loaded : Type 0 where
  loaded : List (Stack × Project) → Loaded
  load_failed env_failed : Stack → Err → Loaded

-- What the loop of `Up` comes to: the services of all projects, or the first stack that failed.
pub data Raised : Type 0 where
  raised : List String → Raised
  up_failed : Stack → Err → Raised

with_first : Stack → Project → Loaded → Loaded
with_first s p (loaded rest) = loaded ((s, p) ∷ rest)
with_first s p (load_failed t e) = load_failed t e
with_first s p (env_failed t e) = env_failed t e

list_or_none : List String → String
list_or_none [] = "none"
list_or_none (n ∷ ns) = join ", " (n ∷ ns)

-- What the teardown of several stacks has gathered.
record Teardown : Type 0 where
  failure : Option Err
  removed : List String
  remaining : List String

teardown_error : Teardown → Option Err
unfolding list_or_none
teardown_error t = elim t.failure [
  | none ↦ none
  | some e ↦ join_errors (some e) (
      some (
        plain (
          "torn down: "
          <> (list_or_none t.removed <> ("; still running: " <> list_or_none t.remaining)))))
]

torn : String → Option Err → Teardown → Teardown
torn name none t = record t { removed = t.removed ++ name ∷ [] }
torn name (some e) t = record t {
  failure = join_errors t.failure (some (wrap ("tearing down " <> name) e));
  remaining = t.remaining ++ name ∷ [];
}

module _ (env : Env) where
  -- The env files of a project were checked.
  after_check : Stack → M Loaded → Option Err → M Loaded
  after_check s next (some e) = pure (env_failed s e)
  after_check s next none = next

  after_load : Stack → (Project → M Loaded) → Try Project → M Loaded
  unfolding after_check
  after_load s next (err e) = pure (load_failed s e)
  after_load s next (ok p) = do
    fs ← gets (λ w. env.fs w.history)
    after_check s (next p) (check_env_files fs.stat p)

  unfoldable pub load_all : List Stack → M Loaded
  unfolding after_load with_first
  load_all [] = pure (loaded [])
  load_all (s ∷ ss) = do
    project ← load_project env s.files s.project_name
    after_load s (λ p. do rest ← load_all ss; pure (with_first s p rest)) project

  unfoldable pub up_all : List String → List (Stack × Project) → M Raised
  up_all services [] = pure (raised services)
  up_all services ((s, p) ∷ rest) = do
    failure ← compose_up env p
    elim failure [
      | some e ↦ pure (up_failed s e)
      | none ↦ up_all (services ++ service_names p) rest
    ]

  teardown_loop : Teardown → List Stack → M (Option Err)
  unfolding teardown_error torn
  teardown_loop t [] = pure (teardown_error t)
  teardown_loop t (s ∷ ss) = do
    failure ← compose_down env s.project_name
    teardown_loop (torn s.project_name failure t) ss

  -- The source tears several stacks down at once; here they go down in the order of the list, each
  -- with an answer that may depend on those before it.
  unfoldable pub tear_down_stacks : List Stack → M (Option Err)
  unfolding teardown_loop
  tear_down_stacks = teardown_loop (record { failure = none; removed = []; remaining = [] })
