-- ===== src/Reconcile/Attribution.antt =====
-- Which stacks a commit touches (internal/reconcile/reconcile.go and apply.go): the pure part, on
-- paths. A changed file belongs to the stack whose directory lies deepest above it.
use compose_lock.Prelude.{
  String, Bool, true, false, ◌&&◌, ◌||◌, Option, none, some, List, [], ◌∷◌, ◌++◌, ltb,
  if◌then◌else◌,
}
use compose_lock.Paths.{
  FilePath, parse, path_under, resolve_under_repo, path_length, same_path, contains_path,
}
use compose_lock.Compose.{Stack}

module _ (cwd : Option FilePath) (repo_path : FilePath) where
  abbrev resolve : FilePath → FilePath
  resolve = resolve_under_repo cwd repo_path

  -- Whether a path is one of the inputs or lies under one of them.
  covered : List FilePath → FilePath → Bool
  covered [] abs = false
  covered (i ∷ is') abs = (same_path abs i || path_under i abs) || covered is' abs

  unfoldable pub dependency_changed : List FilePath → List String → Bool
  unfolding covered
  dependency_changed inputs [] = false
  dependency_changed inputs (f ∷ fs) =
      covered inputs (resolve (parse f)) || dependency_changed inputs fs

  unfoldable pub compose_file_changed : String → List String → Bool
  compose_file_changed file [] = false
  compose_file_changed file (f ∷ fs) =
      same_path (resolve (parse file)) (resolve (parse f)) || compose_file_changed file fs

  unfoldable pub compose_dir_relevant : FilePath → List String → Bool
  compose_dir_relevant dir [] = false
  compose_dir_relevant dir (f ∷ fs) =
      path_under dir (resolve (parse f)) || compose_dir_relevant dir fs

  -- The directories of the stacks, resolved, each once.
  unfoldable pub stack_dirs : List FilePath → List Stack → List FilePath
  stack_dirs dirs [] = dirs
  stack_dirs dirs (s ∷ ss) =
      stack_dirs
        (elim s.dir [
          | none ↦ dirs
          | some d ↦ if contains_path dirs (resolve d) then dirs else dirs ++ resolve d ∷ []
        ])
        ss

  longer : FilePath → Option FilePath → Bool
  longer dir none = true
  longer dir (some best) = ltb (path_length best) (path_length dir)

  deepest : FilePath → List FilePath → Option FilePath → Option FilePath
  unfolding longer
  deepest abs [] best = best
  deepest abs (d ∷ ds) best =
      deepest abs ds (if path_under d abs && longer d best then some d else best)

  unfoldable pub touched_dirs : List FilePath → List String → List FilePath
  unfolding deepest
  touched_dirs dirs [] = []
  touched_dirs dirs (f ∷ fs) =
      let rest = touched_dirs dirs fs in
      elim (deepest (resolve (parse f)) dirs none) [ none ↦ rest | some d ↦ d ∷ rest ]

  unfoldable pub touched_stack_dirs : List Stack → List String → List FilePath
  unfolding touched_dirs stack_dirs
  touched_stack_dirs stacks files = touched_dirs (stack_dirs [] stacks) files
