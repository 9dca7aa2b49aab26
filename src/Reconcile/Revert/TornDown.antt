-- ===== src/Reconcile/Revert/TornDown.antt =====
-- Which stacks a revert tears down (internal/reconcile/revert.go).
use compose_lock.Prelude.{
  ◌≡◌, refl, ◌∙◌, arith, Bool, String, not, ◌&&◌, ◌||◌, List, [], ◌∷◌, eq_iff, contains,
}
use compose_lock.Compose.{Stack}
use compose_lock.Config.{Config}
use compose_lock.World.{World, Env}
use compose_lock.World.Rules.{Leads, Keeps-bind, Leads-through_option}
use compose_lock.World.Acting.{Saves}
use compose_lock.Reconcile.Change.{Lasts}
use compose_lock.Reconcile.Stacks.{stack_names, drop_named, vanished_stacks}
use compose_lock.Reconcile.Projects.{tear_down_stacks}
use compose_lock.Reconcile.Projects.Downs.{downs, downs-look, downs-tear_down_stacks}
use compose_lock.Reconcile.Projects.Keeping.{Keeps-load_all}
use compose_lock.Reconcile.Revert.{revert_stacks}
use compose_lock.Reconcile.Revert.Keeping.{Keeps-revert_failed, Keeps-raise_revert}

contains-drop_named :
    (names : List String) (ss : List Stack) (n : String)
    → contains (stack_names (drop_named names ss)) n
      ≡ (contains (stack_names ss) n && not (contains names n))
unfolding drop_named stack_names contains
contains-drop_named names [] n = ground arith
contains-drop_named names (s ∷ ss) n =
    ground (arith, contains-drop_named names ss n, eq_iff s.project_name n)

module _ (n : String) where
  -- Whether the project `n` was torn down.
  IsTorn : Bool → World → Type 0
  IsTorn b w = contains (downs w.history) n ≡ b

  IsTorn-saves : (b : Bool) → Saves {0} (λ _. Unit) (IsTorn b)
  unfolding IsTorn downs
  IsTorn-saves b = record {
    looks = record { look = λ e w q p. rw (downs-look e w.history q) p };
    memory = λ w p. tt;
    stored = λ w p. tt;
    put = λ s w q p. p;
    save_new = λ s w q p. p;
    save_lost = λ s w p. p;
  }

  any_lasts : Lasts {0} (λ _. Unit)
  any_lasts = record { change = λ k h. tt }

  module _ (env : Env) (cfg : Config) where
    Leads-tear_down :
        (b : Bool) (ss : List Stack)
        → Leads (IsTorn b) (tear_down_stacks env ss) (IsTorn (b || contains (stack_names ss) n))
    unfolding IsTorn
    Leads-tear_down b ss = record { at = λ w p. downs-tear_down_stacks env n ss w ∙ rw p refl }

    Leads-revert_stacks :
        (b : Bool) (failed target reason : String) (stacks found : List Stack)
        → Leads
            (IsTorn b)
            (revert_stacks env cfg failed target reason stacks found)
            (IsTorn (b || contains (stack_names (vanished_stacks stacks found)) n))
    unfolding revert_stacks IsTorn downs
    Leads-revert_stacks b failed target reason stacks found =
        let b' = b || contains (stack_names (vanished_stacks stacks found)) n in
        Leads-through_option _ _ (Leads-tear_down b (vanished_stacks stacks found))
          (Keeps-bind _ _ (Keeps-load_all env (IsTorn-saves b').looks _) (
            Keeps-raise_revert env cfg (IsTorn-saves b') any_lasts (λ m w p. p) (λ c o w p. p)
              failed target reason _))
          (λ e. Keeps-revert_failed env cfg (IsTorn-saves b') any_lasts failed target stacks e)

-- Whatever the world answers, a revert from stacks that failed to what is found at the commit that it
-- goes back to tears down exactly the failed stacks whose name is not found there, and nothing else.
pub downs-revert_stacks :
    (env : Env) (cfg : Config) (failed target reason : String) (stacks found : List Stack)
    (w : World) (n : String)
    → contains (downs (revert_stacks env cfg failed target reason stacks found w).1.history) n ≡ (
        contains (downs w.history) n
        || (contains (stack_names stacks) n && not (contains (stack_names found) n)))
unfolding IsTorn vanished_stacks
downs-revert_stacks env cfg failed target reason stacks found w n =
    (Leads-revert_stacks n env cfg (contains (downs w.history) n) failed target reason stacks
        found).at
      w refl
    ∙ rw (contains-drop_named (stack_names found) stacks n) refl
