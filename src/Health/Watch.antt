-- ===== src/Health/Watch.antt =====
-- `Watch` of internal/health/health.go: the polls of one project after an apply. What the watch
-- reads of the world is a list of polls: what the snapshot answered after the poll's sleep, and the
-- time that the clock shows when the loop tests its deadline again. Where the list ends, the sleep
-- was cancelled: no watch sees more than a finite number of polls.
pub mod Clean
pub mod Total
mod Tests
use compose_lock.Prelude.{
  ℕ, ◌+◌, ◌-◌, String, ◌<>◌, len, slice, Bool, true, false, not, ◌&&◌, ◌||◌, Option, none, some,
  List, [], ◌∷◌, ◌++◌, ltb, leb, beq, ◌==◌, contains, show, sort, lookup, insert, erase, keys,
  get_or, is_some, if◌then◌else◌,
}
use compose_lock.Errors.{Err, ext, wrap, canceled, Try, ok, err}
use compose_lock.Health.{
  ContainerStatus, Snapshot, completed, probe_passes, Outcome, healthy, unhealthy, evaluate,
}

pub record Options : Type 0 where
  pub project_name : String
  pub commit : String
  pub watch_duration : ℕ
  pub poll_interval : ℕ
  pub unhealthy_streak_limit : ℕ
  pub restart_tolerance : ℕ
  pub expect_containers : Bool

-- The `Result` of this package.
pub record WatchResult : Type 0 where
  pub outcome : Outcome
  pub reason : String
  pub failures : List String
  pub baseline : Snapshot

pub record Poll : Type 0 where
  pub snapshot : Try Snapshot
  pub now : ℕ

abbrev pub empty_snapshot : Snapshot
empty_snapshot = record { containers = [] }

-- `Result{Outcome: Unhealthy, Reason: reason, Failures: []string{reason}, Baseline: baseline}`
abbrev pub failure : Snapshot → String → WatchResult
failure baseline reason = record {
  outcome = unhealthy;
  reason = reason;
  failures = reason ∷ [];
  baseline = baseline;
}

abbrev pub success : Snapshot → WatchResult
success baseline = record { outcome = healthy; reason = ""; failures = []; baseline = baseline }

-- The subtraction of the source may go below 0, where this one stops; both are used only in tests
-- for being greater than a number that is not negative.
unfoldable pub restart_delta : List (String × ℕ) → ContainerStatus → ℕ
restart_delta baseline c = elim (lookup c.id baseline) [
  | none ↦ c.restart_count
  | some base ↦ c.restart_count - base
]

is_empty : List ContainerStatus → Bool
is_empty [] = true
is_empty (c ∷ cs) = false

-- `none` where the snapshot passes.
pub check_populated : Snapshot → Options → Option String
unfolding is_empty
check_populated snap opts =
    if not opts.expect_containers || not (is_empty snap.containers)
    then none
    else some ("no containers running for project " <> opts.project_name)

-- The maps that the watch keeps of its baseline: by id the restarts and the service, and by
-- service the number of containers.
unfoldable pub restarts_of : List ContainerStatus → List (String × ℕ) → List (String × ℕ)
restarts_of [] m = m
restarts_of (c ∷ cs) m = restarts_of cs (insert c.id c.restart_count m)

pub services_of : List ContainerStatus → List (String × String) → List (String × String)
services_of [] m = m
services_of (c ∷ cs) m = services_of cs (insert c.id c.service m)

pub counts_of : List ContainerStatus → List (String × ℕ) → List (String × ℕ)
counts_of [] m = m
counts_of (c ∷ cs) m = counts_of cs (insert c.service (get_or m c.service 0 + 1) m)

-- The set `present` of ids.
unfoldable pub ids : List ContainerStatus → List String
ids [] = []
ids (c ∷ cs) = c.id ∷ ids cs

short_id : String → String
short_id id = if ltb 12 (len id) then slice id 0 12 else id

missing_reason : String → String → ℕ → ℕ → String
unfolding short_id
missing_reason id service got want =
    if ltb got want
    then service <> (" (" <> (show got <> (" of " <> (show want <> " replicas)"))))
    else service <> (" (container " <> (short_id id <> " was replaced)"))

first_missing : List String → List (String × String) → List (String × ℕ) → Snapshot → Option String
unfolding missing_reason
first_missing [] services counts cur = none
first_missing (id ∷ rest) services counts cur =
    let later = first_missing rest services counts cur in
    if contains (ids cur.containers) id
    then later
    else let service = get_or services id "" in
      some (
        missing_reason id service (get_or (counts_of cur.containers []) service 0)
          (get_or counts service 0))

-- `none` where every container of the baseline is still there.
pub missing_containers : List (String × String) → List (String × ℕ) → Snapshot → Option String
unfolding first_missing
missing_containers services counts cur = first_missing (sort (keys services)) services counts cur

-- The two maps of streaks that the loop carries from poll to poll.
pub record Streaks : Type 0 where
  pub unhealthy_streaks : List (String × ℕ)
  pub wedged_streaks : List (String × ℕ)

-- One container at one poll: the loop goes on with new streaks, or the watch ends with a reason.
pub data Step : Type 0 where
  go_on : Streaks → Step
  fail : String → Step

-- A container that is not running.
wedged : Options → ContainerStatus → Streaks → Step
wedged opts c st =
    let streak = get_or st.wedged_streaks c.id 0 + 1 in
    if leb opts.unhealthy_streak_limit streak
    then fail "container never started"
    else go_on (record st { wedged_streaks = insert c.id streak st.wedged_streaks })

-- A container that is running.
running : Options → ContainerStatus → Streaks → Step
running opts c st =
    let st' = record st { wedged_streaks = erase c.id st.wedged_streaks } in
    let streak = get_or st.unhealthy_streaks c.id 0 + 1 in
    if probe_passes c
    then go_on (record st' { unhealthy_streaks = erase c.id st.unhealthy_streaks })
    else if c.health == "starting"
    then go_on st'
    else if leb opts.unhealthy_streak_limit streak
    then fail "healthcheck unhealthy"
    else go_on (record st' { unhealthy_streaks = insert c.id streak st.unhealthy_streaks })

pub check_container : Options → List (String × ℕ) → ContainerStatus → Streaks → Step
unfolding wedged running
check_container opts baseline c st =
    if c.state == "exited" && not (completed c)
    then fail ("container exited: " <> (c.service <> (" (exit code " <> (show c.exit_code <> ")"))))
    else if c.state == "dead" || c.state == "removing"
    then fail ("container " <> (c.state <> (": " <> c.service)))
    else if ltb opts.restart_tolerance (restart_delta baseline c)
    then fail (
        "restarted beyond tolerance: "
        <> (c.service
            <> (" (restarts="
                <> (show (restart_delta baseline c)
                    <> (", tolerance=" <> (show opts.restart_tolerance <> ")"))))))
    else if completed c
    then go_on st
    else if not (c.state == "running")
    then wedged opts c st
    else running opts c st

pub check_containers : Options → List (String × ℕ) → List ContainerStatus → Streaks → Step
check_containers opts baseline [] st = go_on st
check_containers opts baseline (c ∷ cs) st = elim (check_container opts baseline c st) [
  | go_on st' ↦ check_containers opts baseline cs st'
  | fail reason ↦ fail reason
]

-- The body of the loop, on a snapshot that was taken.
pub check_poll : Options → Snapshot → Snapshot → Streaks → Step
check_poll opts baseline cur st = elim (check_populated cur opts) [
  | some reason ↦ fail reason
  | none ↦
      elim (missing_containers (services_of baseline.containers [])
        (counts_of baseline.containers []) cur) [
          | some reason ↦ fail ("container disappeared: " <> reason)
          | none ↦ check_containers opts (restarts_of baseline.containers []) cur.containers st
        ]
]

-- The verdict on the last snapshot, once the window has closed. It fills no `Failures`.
pub final_verdict : Snapshot → Snapshot → WatchResult
final_verdict baseline last =
    let verdict = evaluate last false true in
    if verdict.is_healthy
    then success baseline
    else record (failure baseline verdict.reason) { failures = [] }

pub watch_loop : Options → Snapshot → ℕ → List Poll → Streaks → Try WatchResult
watch_loop opts baseline deadline [] st = err (ext canceled "context canceled")
watch_loop opts baseline deadline (p ∷ ps) st = elim p.snapshot [
  | err e ↦ err (wrap "health snapshot" e)
  | ok cur ↦ elim (check_poll opts baseline cur st) [
    | fail reason ↦ ok (failure baseline reason)
    | go_on st' ↦
        let rest = watch_loop opts baseline deadline ps st' in
        if ltb p.now deadline then rest else ok (final_verdict baseline cur)
  ]
]

abbrev pub no_streaks : Streaks
no_streaks = record { unhealthy_streaks = []; wedged_streaks = [] }

-- `Watch`, from what the first snapshot answered, the time after it, and the polls.
unfoldable pub watch : Options → Try Snapshot → ℕ → List Poll → Try WatchResult
watch opts first start polls =
    if beq opts.watch_duration 0 then ok (success empty_snapshot) else elim first [
      | err e ↦ err (wrap "baseline snapshot" e)
      | ok baseline ↦ elim (check_populated baseline opts) [
        | some reason ↦ ok (failure baseline reason)
        | none ↦ watch_loop opts baseline (start + opts.watch_duration) polls no_streaks
      ]
    ]
