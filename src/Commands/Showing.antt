-- ===== src/Commands/Showing.antt =====
-- What `status` prints, of cmd/composelock/commands.go. Lines are values; the texts of times are a
-- parameter.
use compose_lock.Prelude.{
  ℕ, zero, suc, ◌+◌, ◌-◌, String, ◌<>◌, len, slice, show, not, none, some, List, [], ◌∷◌, ◌++◌, ltb,
  beq, ◌==◌, map, if◌then◌else◌,
}
use compose_lock.Errors.{Try, ok, err, message}
use compose_lock.State.{
  State, Deployment, LastResult, unset, success, failed_git, failed_preflight, skipped_known_bad,
  failed_apply, reverted, degraded, paused,
}
use compose_lock.Health.{ContainerStatus, Snapshot, evaluate_live}
use compose_lock.Config.{Config}
use compose_lock.Config.Window.{DeployWindow, window, open_at, show_window, until_opening}
use compose_lock.Commands.Pausing.{pause_description}

unfoldable pub short_id : String → String
short_id commit = if ltb (len commit) 7 then commit else slice commit 0 7

unfoldable pub or_none : String → String
or_none s = if s == "" then "-" else s

result_text : LastResult → String
result_text unset = ""
result_text success = "success"
result_text failed_git = "failed_git"
result_text failed_preflight = "failed_preflight"
result_text skipped_known_bad = "skipped_known_bad"
result_text failed_apply = "failed_apply"
result_text reverted = "reverted"
result_text degraded = "degraded"

spaces : ℕ → String
spaces zero = ""
spaces (suc n) = " " <> spaces n

-- `%-17s`
padded : String → String
unfolding spaces
padded s = s <> spaces (17 - len s)

backward : List Deployment → List Deployment
backward [] = []
backward (d ∷ ds) = backward ds ++ d ∷ []

-- What a command prints on its two outputs.
pub record Screen : Type 0 where
  pub out : List String
  pub errors : List String

unfoldable pub says : List String → Screen
says lines = record { out = lines; errors = [] }

unfoldable pub complains : String → Screen
complains line = record { out = []; errors = line ∷ [] }

-- One line after the other.
unfoldable pub and_then : Screen → Screen → Screen
and_then a b = record { out = a.out ++ b.out; errors = a.errors ++ b.errors }

abbrev pub nothing : Screen
nothing = record { out = []; errors = [] }

-- `show_time` is the text of a local time.
module _ (show_time : ℕ → String) where
  unfoldable pub deployment_line : Deployment → String
  unfolding result_text padded short_id or_none
  deployment_line d =
      "  "
      <> (show_time d.at
          <> ("  "
              <> (padded (result_text d.result)
                  <> (" "
                      <> (or_none (short_id d.commit)
                          <> ((if d.rolled_back_to == ""
                                then ""
                                else " -> " <> short_id d.rolled_back_to)
                              <> ((if beq d.repeats 0
                                    then ""
                                    else " (x" <> (show (d.repeats + 1) <> ")"))
                                  <> (if d.error == "" then "" else "  " <> d.error))))))))

  history_lines : List Deployment → List String
  unfolding backward
  history_lines [] = []
  history_lines (d ∷ ds) =
      "recent deployments (newest first):" ∷ map deployment_line (backward (d ∷ ds))

  unfoldable pub print_pause_and_history : State → ℕ → Screen
  unfolding history_lines
  print_pause_and_history s now = says (
      (if paused s now
        then ("paused: " <> pause_description show_time s.paused_until s.pause_reason) ∷ []
        else [])
      ++ history_lines s.history)

  -- The clock reads `now`, which is `in_day` nanoseconds after midnight.
  window_line : ℕ → ℕ → ℕ → DeployWindow → String
  window_line now minute_of_day in_day w =
      "deploy window: "
      <> (show_window w
          <> (if open_at w minute_of_day
              then " (open)"
              else " (closed, opens " <> (show_time (now + until_opening w in_day) <> ")")))

  unfoldable pub print_deploy_window : Config → ℕ → ℕ → ℕ → Screen
  unfolding window_line
  print_deploy_window cfg now minute_of_day in_day = elim (window cfg.deploy_window) [
    | none ↦ nothing
    | some w ↦ says (window_line now minute_of_day in_day w ∷ [])
  ]

container_line : ContainerStatus → String
container_line c =
    "  "
    <> (c.service
        <> (" ("
            <> (c.id
                <> ("): state="
                    <> (c.state
                        <> (" health=" <> (c.health <> (" restarts=" <> show c.restart_count))))))))

unfoldable pub verdict_of : Snapshot → String
verdict_of snap =
    let v = evaluate_live snap in
    if not v.is_healthy
    then "UNHEALTHY: " <> v.reason
    else elim snap.containers [ [] ↦ "NO CONTAINERS" | c ∷ cs ↦ "HEALTHY" ]

unfoldable pub container_screen : String → Try Snapshot → ℕ × Screen
unfolding container_line
container_screen name (err e) = (1, complains ("live health snapshot: " <> message e))
container_screen name (ok snap) = (
  0,
  says (
      ("live containers (" <> (name <> ("): " <> verdict_of snap)))
      ∷ map container_line snap.containers),
)
