-- ===== src/Reconcile/Live/Keeping.antt =====
-- What the reading of stacks and their inputs leaves alone.
use compose_lock.Prelude.{String, true, List, [], ◌∷◌}
use compose_lock.Paths.{FilePath}
use compose_lock.Health.{Snapshot}
use compose_lock.Compose.{Stack}
use compose_lock.Config.{Config}
use compose_lock.World.{World, Env}
use compose_lock.World.Rules.{Keeps, Keeps-bind, Keeps-pure, Keeps-if}
use compose_lock.World.Keeping.{Looks, looking_rules}
use compose_lock.Reconcile.Live.{
  read_fs, stacks_for, stacks_allowing_empty, stack_inputs_match, filter_loop, filter_changed,
  project_inputs_relevant, any_relevant, compose_dir_inputs_relevant, relevant_change, live_loop,
  evaluate_live, is_touched,
}

module _ {ℓ} {P : World → Type ℓ} (env : Env) (cfg : Config) (h : Looks P) where
  pub Keeps-stacks_for : Keeps P (stacks_for env cfg)
  unfolding stacks_for read_fs
  Keeps-stacks_for = search looking_rules depth 9

  pub Keeps-stacks_allowing_empty : Keeps P (stacks_allowing_empty env cfg)
  unfolding stacks_allowing_empty
  Keeps-stacks_allowing_empty = search (looking_rules, Keeps-stacks_for)

  Keeps-stack_inputs_match :
      (files : List String) (s : Stack) → Keeps P (stack_inputs_match env cfg files s)
  unfolding stack_inputs_match read_fs
  Keeps-stack_inputs_match files s = search looking_rules depth 9

  Keeps-filter_loop :
      (touched : List FilePath) (files : List String) (ss : List Stack)
      → Keeps P (filter_loop env cfg touched files ss)
  unfolding filter_loop
  Keeps-filter_loop touched files [] = search looking_rules
  Keeps-filter_loop touched files (s ∷ ss) =
      let rest = Keeps-filter_loop touched files ss in
      Keeps-if (is_touched env cfg touched s) _ _ (Keeps-bind _ _ rest (λ c. search looking_rules))
        (Keeps-bind _ _ (search Keeps-stack_inputs_match)
          (λ m. Keeps-bind _ _ rest (λ c. search looking_rules)))

  pub Keeps-filter_changed :
      (current previous : List Stack) (files : List String)
      → Keeps P (filter_changed env cfg current previous files)
  unfolding filter_changed
  Keeps-filter_changed current previous files = search Keeps-filter_loop

  Keeps-project_inputs_relevant :
      (paths : List FilePath) (name : String) (files : List String)
      → Keeps P (project_inputs_relevant env cfg paths name files)
  unfolding project_inputs_relevant read_fs
  Keeps-project_inputs_relevant paths name files = search looking_rules depth 9

  Keeps-any_relevant :
      (ss : List Stack) (files : List String) → Keeps P (any_relevant env cfg ss files)
  unfolding any_relevant
  Keeps-any_relevant [] files = search looking_rules
  Keeps-any_relevant (s ∷ ss) files =
      let rest = Keeps-any_relevant ss files in
      Keeps-bind _ _ (search Keeps-project_inputs_relevant)
        (λ b. Keeps-if b _ _ (Keeps-pure true) rest)

  Keeps-compose_dir_inputs_relevant :
      (files : List String) → Keeps P (compose_dir_inputs_relevant env cfg files)
  unfolding compose_dir_inputs_relevant
  Keeps-compose_dir_inputs_relevant files =
      search (looking_rules, Keeps-stacks_allowing_empty, Keeps-any_relevant) depth 9

  pub Keeps-relevant_change : (files : List String) → Keeps P (relevant_change env cfg files)
  unfolding relevant_change
  Keeps-relevant_change files =
      search (looking_rules, Keeps-compose_dir_inputs_relevant, Keeps-project_inputs_relevant) depth
        9

  Keeps-live_loop :
      (seen : List (String × Snapshot)) (ns : List String) → Keeps P (live_loop env cfg seen ns)
  unfolding live_loop
  Keeps-live_loop seen [] = search looking_rules
  Keeps-live_loop seen (n ∷ ns) =
      let rest : (seen' : List (String × Snapshot)) → Keeps P (live_loop env cfg seen' ns) =
        λ seen'. Keeps-live_loop seen' ns in
      search (looking_rules, rest) depth 9

  pub Keeps-evaluate_live : (ss : List Stack) → Keeps P (evaluate_live env cfg ss)
  unfolding evaluate_live
  Keeps-evaluate_live ss = search Keeps-live_loop
