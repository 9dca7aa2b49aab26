-- ===== src/Commands/Status.antt =====
-- The commands `status` and `init` and the window timer of cmd/composelock/commands.go. The text of a
-- state as JSON is a parameter.
pub mod ReadOnly
use compose_lock.Prelude.{
  ℕ, ◌+◌, String, ◌<>◌, Bool, true, false, not, ◌&&◌, Option, none, some, List, [], ◌∷◌, beq,
  if◌then◌else◌,
}
use compose_lock.Errors.{Err, plain, wrap, Try, ok, err, message}
use compose_lock.State.{State}
use compose_lock.Compose.{Stack}
use compose_lock.Compose.Discover.{Discovery, stacks, no_stacks, broken}
use compose_lock.Config.{Config}
use compose_lock.Config.Window.{window, until_opening}
use compose_lock.Config.Settings.{Settings}
use compose_lock.Config.Settings.Loading.{Existing, present, absent, unknown}
use compose_lock.World.{
  World, M, pure, call, ◌>>=◌, ◌>>◌, Env, load_state, take_snapshot, lock_tried, lock_released,
}
use compose_lock.Reconcile.Live.{stacks_for}
use compose_lock.Commands.Showing.{
  Screen, says, complains, and_then, nothing, print_pause_and_history, print_deploy_window,
  container_screen,
}

-- What was read under the lock.
record Seen : Type 0 where
  loaded : Try State
  found : Option Discovery

-- The clock of `status` is the system's own.
pub record Today : Type 0 where
  pub now : ℕ
  pub minute_of_day : ℕ
  pub in_day : ℕ

module _ (env : Env) (cfg : Config) (show_time : ℕ → String) (show_state : State → Try String)
    (today : Today) where
  print_stack_containers : String → M (ℕ × Screen)
  unfolding container_screen
  print_stack_containers name = do snap ← take_snapshot env name; pure (container_screen name snap)

  worse : ℕ × Screen → ℕ × Screen → ℕ × Screen
  worse (a, x) (b, y) = (if beq b 0 then a else b, and_then x y)

  -- The last code that is not 0 counts.
  print_stacks : List Stack → M (ℕ × Screen)
  unfolding print_stack_containers worse
  print_stacks [] = pure (0, nothing)
  print_stacks (s ∷ ss) = do
    one ← print_stack_containers s.project_name
    rest ← print_stacks ss
    pure (worse one rest)

  see_state : Try State → M Seen
  see_state (err e) = pure (record { loaded = err e; found = none })
  see_state (ok s) = do
    found ← stacks_for env cfg
    pure (record { loaded = ok s; found = some found })

  see : M Seen
  unfolding see_state
  see = do loaded ← load_state env; see_state loaded

  under_lock : Try Bool → M (Try (Screen × Seen))
  unfolding see
  under_lock (err e) = pure (err (wrap "acquiring state lock" e))
  under_lock (ok true) = do seen ← see; call lock_released (λ w. ok (nothing, seen))
  under_lock (ok false) = do
    seen ← see
    pure (
        ok (
          says ("note: a reconcile is in progress, state and containers may not agree" ∷ []),
          seen,
        ))

  -- `withStateLock` around what `status` reads.
  with_state_lock : M (Try (Screen × Seen))
  unfolding under_lock
  with_state_lock = do held ← call lock_tried (λ w. env.try_lock w.history); under_lock held

  stacks_screen : Option Discovery → M (ℕ × Screen)
  unfolding print_stacks
  stacks_screen none = pure (0, nothing)
  stacks_screen (some (stacks found)) = print_stacks found
  stacks_screen (some (no_stacks e)) =
      pure (1, complains ("discovering compose stacks: " <> message e))
  stacks_screen (some (broken e)) =
      pure (1, complains ("discovering compose stacks: " <> message e))

  state_screen : Screen → Option Discovery → Try String → M (ℕ × Screen)
  unfolding stacks_screen
  state_screen before found (err e) =
      pure (1, and_then before (complains ("encoding state: " <> message e)))
  state_screen before found (ok text) = do
    rest ← stacks_screen found
    pure (rest.0, and_then (and_then before (says (("state:\n" <> text) ∷ []))) rest.1)

  loaded_screen : Screen → Option Discovery → Try State → M (ℕ × Screen)
  unfolding state_screen
  loaded_screen before found (err e) =
      pure (2, and_then before (complains ("reading state: " <> message e)))
  loaded_screen before found (ok s) =
      state_screen
        (and_then before (
          and_then (print_deploy_window show_time cfg today.now today.minute_of_day today.in_day)
            (print_pause_and_history show_time s today.now)))
        found (show_state s)

  status_of_lock : String → Try (Screen × Seen) → M (ℕ × Screen)
  unfolding loaded_screen
  status_of_lock path (err e) =
      pure (2, and_then (says (("config: " <> path) ∷ [])) (complains (message e)))
  status_of_lock path (ok (note, seen)) =
      loaded_screen (and_then (says (("config: " <> path) ∷ [])) note) seen.found seen.loaded

  unfoldable pub cmd_status : String → M (ℕ × Screen)
  unfolding with_state_lock status_of_lock
  cmd_status path = do seen ← with_state_lock; status_of_lock path seen

-- `windowTimer`: when its timer goes off, if it has one.
abbrev pub WindowTimer : Type 0
WindowTimer = Option ℕ

-- `schedule`: a new timer takes the place of the old.
unfoldable pub schedule : Config → ℕ → ℕ → WindowTimer → WindowTimer
schedule cfg now in_day timer = elim (window cfg.deploy_window) [
  | none ↦ timer
  | some w ↦ some (now + until_opening w in_day)
]

unfoldable pub stop : WindowTimer → WindowTimer
stop timer = none

-- `cmdInit`, of what `Init` answers, of the `os.Stat` of the state file and of its `Save`.
ended_save : Screen → String → Option Err → ℕ × Screen
ended_save before path none = (0, and_then before (says (("wrote " <> path) ∷ [])))
ended_save before path (some e) = (2, and_then before (complains (message e)))

with_state_file : Screen → String → Bool → Existing → Option Err → ℕ × Screen
unfolding ended_save
with_state_file before path force present saved = if force then ended_save before path saved else (
  2,
  and_then before
      (complains ("state file " <> (path <> " already exists (use --force to overwrite)"))),
)
with_state_file before path force absent saved = ended_save before path saved
with_state_file before path force (unknown e) saved = (2, and_then before (complains (message e)))

unfoldable pub cmd_init :
    String → Bool → Bool → Try (String × Settings) → Existing → Option Err → ℕ × Screen
unfolding with_state_file
cmd_init path force with_state (err e) existing saved = (2, complains (message e))
cmd_init path force with_state (ok (text, c)) existing saved =
    let wrote = says (("wrote " <> path) ∷ []) in
    if with_state then with_state_file wrote c.state_file force existing saved else (0, wrote)
