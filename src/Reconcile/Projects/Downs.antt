-- ===== src/Reconcile/Projects/Downs.antt =====
-- The projects that a loop over stacks tears down (internal/reconcile/reconcile.go).
use compose_lock.Prelude.{◌≡◌, refl, ◌∙◌, arith, true, String, ◌||◌, List, [], ◌∷◌, contains}
use compose_lock.Compose.{Stack}
use compose_lock.World.{
  World, Env, Event, History, up, down, pulled, git, state_saved, state_loaded, clock_read, slept,
  project_loaded, snapshot_taken, lock_tried, lock_released, pinged, watched, call, compose_down,
  ◌>>=◌, pure,
}
use compose_lock.World.Keeping.{is_look}
use compose_lock.Reconcile.Stacks.{stack_names}
use compose_lock.Reconcile.Projects.{Teardown, torn, teardown_loop, tear_down_stacks}

-- The projects that were torn down, the latest first.
unfoldable pub downs : History → List String
downs [] = []
downs (down n ∷ es) = n ∷ downs es
downs (e ∷ es) = downs es

pub downs-look : (e : Event) (es : History) → is_look e ≡ true → downs (e ∷ es) ≡ downs es
unfolding downs is_look
downs-look (git c) es q = refl
downs-look state_loaded es q = refl
downs-look clock_read es q = refl
downs-look slept es q = refl
downs-look (project_loaded n) es q = refl
downs-look (snapshot_taken n) es q = refl
downs-look lock_tried es q = refl
downs-look lock_released es q = refl
downs-look pinged es q = refl
downs-look (state_saved s) es q = refl
downs-look (pulled n) es q = refl
downs-look (up n t s) es q = refl
downs-look (down n) es q = ground (arith, q)
downs-look (watched c o) es q = refl

module _ (env : Env) (n : String) where
  torn_by_loop :
      (t : Teardown) (ss : List Stack) (w : World)
      → contains (downs (teardown_loop env t ss w).1.history) n
        ≡ (contains (downs w.history) n || contains (stack_names ss) n)
  unfolding teardown_loop compose_down call ◌>>=◌ pure downs stack_names contains
  torn_by_loop t [] w = ground arith
  torn_by_loop t (s ∷ ss) w =
      let failure = env.down w.history s.project_name in
      torn_by_loop (torn s.project_name failure t) ss
        (record w { history = down s.project_name ∷ w.history })
      ∙ ground arith

  pub downs-tear_down_stacks :
      (ss : List Stack) (w : World)
      → contains (downs (tear_down_stacks env ss w).1.history) n
        ≡ (contains (downs w.history) n || contains (stack_names ss) n)
  unfolding tear_down_stacks
  downs-tear_down_stacks ss w = torn_by_loop _ ss w
