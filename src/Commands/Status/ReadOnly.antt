-- ===== src/Commands/Status/ReadOnly.antt =====
-- What `status` leaves alone.
use compose_lock.Prelude.{ℕ, refl, String, Bool, true, false, Option, none, some, List, [], ◌∷◌}
use compose_lock.Errors.{Try, ok, err}
use compose_lock.State.{State}
use compose_lock.Compose.{Stack}
use compose_lock.Compose.Discover.{Discovery, stacks, no_stacks, broken}
use compose_lock.Config.{Config}
use compose_lock.World.{World, Env, lock_tried, lock_released}
use compose_lock.World.Rules.{Keeps, Keeps-bind, Keeps-pure}
use compose_lock.World.Keeping.{Looks, is_look, Keeps-call, Keeps-load_state, Keeps-take_snapshot}
use compose_lock.World.Calls.{IsIdle, IsIdle-looks}
use compose_lock.Reconcile.Live.Keeping.{Keeps-stacks_for}
use compose_lock.Commands.Showing.{Screen}
use compose_lock.Commands.Status.{
  Seen, Today, print_stack_containers, print_stacks, see_state, see, under_lock, with_state_lock,
  stacks_screen, state_screen, loaded_screen, status_of_lock, cmd_status,
}

module _ {ℓ} {P : World → Type ℓ} (env : Env) (cfg : Config) (show_time : ℕ → String)
    (show_state : State → Try String) (today : Today) (h : Looks P) where
  Keeps-print_stacks :
      (ss : List Stack) → Keeps P (print_stacks env cfg show_time show_state today ss)
  unfolding print_stacks print_stack_containers
  Keeps-print_stacks [] = Keeps-pure _
  Keeps-print_stacks (s ∷ ss) =
      Keeps-bind _ _
        (Keeps-bind _ _ (Keeps-take_snapshot env h s.project_name) (λ snap. Keeps-pure _))
        (λ one. Keeps-bind _ _ (Keeps-print_stacks ss) (λ rest. Keeps-pure _))

  Keeps-see_state : (r : Try State) → Keeps P (see_state env cfg show_time show_state today r)
  unfolding see_state
  Keeps-see_state (err e) = Keeps-pure _
  Keeps-see_state (ok s) = Keeps-bind _ _ (Keeps-stacks_for env cfg h) (λ found. Keeps-pure _)

  Keeps-see : Keeps P (see env cfg show_time show_state today)
  unfolding see
  Keeps-see = Keeps-bind _ _ (Keeps-load_state env h) Keeps-see_state

  Keeps-under_lock : (r : Try Bool) → Keeps P (under_lock env cfg show_time show_state today r)
  unfolding under_lock is_look
  Keeps-under_lock (err e) = Keeps-pure _
  Keeps-under_lock (ok true) =
      Keeps-bind _ _ Keeps-see (λ seen. Keeps-call env h lock_released _ refl)
  Keeps-under_lock (ok false) = Keeps-bind _ _ Keeps-see (λ seen. Keeps-pure _)

  Keeps-stacks_screen :
      (found : Option Discovery) → Keeps P (stacks_screen env cfg show_time show_state today found)
  unfolding stacks_screen
  Keeps-stacks_screen none = Keeps-pure _
  Keeps-stacks_screen (some (stacks found)) = Keeps-print_stacks found
  Keeps-stacks_screen (some (no_stacks e)) = Keeps-pure _
  Keeps-stacks_screen (some (broken e)) = Keeps-pure _

  Keeps-state_screen :
      (before : Screen) (found : Option Discovery) (text : Try String)
      → Keeps P (state_screen env cfg show_time show_state today before found text)
  unfolding state_screen
  Keeps-state_screen before found (err e) = Keeps-pure _
  Keeps-state_screen before found (ok text) =
      Keeps-bind _ _ (Keeps-stacks_screen found) (λ rest. Keeps-pure _)

  Keeps-loaded_screen :
      (before : Screen) (found : Option Discovery) (r : Try State)
      → Keeps P (loaded_screen env cfg show_time show_state today before found r)
  unfolding loaded_screen
  Keeps-loaded_screen before found (err e) = Keeps-pure _
  Keeps-loaded_screen before found (ok s) = Keeps-state_screen _ found (show_state s)

  Keeps-status_of_lock :
      (path : String) (r : Try (Screen × Seen))
      → Keeps P (status_of_lock env cfg show_time show_state today path r)
  unfolding status_of_lock
  Keeps-status_of_lock path (err e) = Keeps-pure _
  Keeps-status_of_lock path (ok (note, seen)) = Keeps-loaded_screen _ seen.found seen.loaded

  Keeps-cmd_status : (path : String) → Keeps P (cmd_status env cfg show_time show_state today path)
  unfolding cmd_status with_state_lock is_look
  Keeps-cmd_status path =
      Keeps-bind _ _ (Keeps-bind _ _ (Keeps-call env h lock_tried _ refl) Keeps-under_lock)
        (Keeps-status_of_lock path)

-- `status` leaves the state file, the state in memory and the checkout as they are, and calls nothing of
-- Compose that changes what runs, whatever the world answers.
pub cmd_status-IsIdle :
    (env : Env) (cfg : Config) (show_time : ℕ → String) (show_state : State → Try String)
    (today : Today) (path : String) (w : World)
    → IsIdle w (cmd_status env cfg show_time show_state today path w).1
cmd_status-IsIdle env cfg show_time show_state today path w =
    (Keeps-cmd_status env cfg show_time show_state today (IsIdle-looks w) path).at w
      (record { same_disk = refl; same_memory = refl; same_tree = refl; same_calls = refl })
