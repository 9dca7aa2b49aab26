-- ===== src/Reconcile/Monitor.antt =====
-- internal/reconcile/monitor.go: the check of the running stacks between the reconciles, and the alert
-- for a stack that stays unhealthy.
pub mod Streaks
pub mod Checks
use compose_lock.Prelude.{
  ℕ, ◌+◌, ◌-◌, ◌%◌, String, ◌<>◌, Bool, true, false, not, ◌&&◌, ◌||◌, Option, none, some, List, [],
  ◌∷◌, ◌++◌, ltb, beq, ◌==◌, contains, sort, compact, join, lookup, insert, show, if◌then◌else◌,
}
use compose_lock.Errors.{Try, ok, err}
use compose_lock.State.{State, paused, pending}
use compose_lock.Health.{Snapshot, ContainerStatus, Evaluation, evaluate_preflight}
use compose_lock.Notify.Embed.{Embed, Alert, build_alert_embed}
use compose_lock.Notify.Sending.{Sink, Outside, Session, enabled, send_throttled}

-- `stackMemory`; the services are a set, the restarts a map from container ids.
pub record Memory : Type 0 where
  pub services : List String
  pub restarts : List (String × ℕ)
  pub streak : ℕ
  pub since : ℕ
  pub incident : ℕ
  pub alerted : Bool

pub record Monitor : Type 0 where
  pub key : String
  pub stacks : List (String × Memory)
  pub incidents : ℕ
  pub session : Session

abbrev pub fresh : Memory
fresh = record {
  services = [];
  restarts = [];
  streak = 0;
  since = 0;
  incident = 0;
  alerted = false;
}

has_restarted : ContainerStatus → Option ℕ → Bool
has_restarted c none = false
has_restarted c (some previous) = ltb previous c.restart_count

restarted_services : List (String × ℕ) → List ContainerStatus → List String
unfolding has_restarted
restarted_services restarts [] = []
restarted_services restarts (c ∷ cs) =
    let rest = restarted_services restarts cs in
    if has_restarted c (lookup c.id restarts) then c.service ∷ rest else rest

is_present : List ContainerStatus → String → Bool
is_present [] service = false
is_present (c ∷ cs) service = c.service == service || is_present cs service

missing_services : List String → List ContainerStatus → List String
unfolding is_present
missing_services [] cs = []
missing_services (s ∷ ss) cs =
    let rest = missing_services ss cs in if is_present cs s then rest else s ∷ rest

restart_problem : List String → String
restart_problem [] = ""
restart_problem (s ∷ ss) = "restarted since last check: " <> join ", " (compact (sort (s ∷ ss)))

verdict_problem : Evaluation → List String → String
unfolding restart_problem
verdict_problem e restarted = if not e.is_healthy then e.reason else restart_problem restarted

presence_problem : List String → Evaluation → List String → String
unfolding verdict_problem
presence_problem [] e restarted = verdict_problem e restarted
presence_problem (s ∷ ss) e restarted = "no containers for: " <> join ", " (sort (s ∷ ss))

problem_of : Memory → Snapshot → List ContainerStatus → String
unfolding presence_problem missing_services restarted_services
problem_of m snap [] = "no containers"
problem_of m snap (c ∷ cs) =
    presence_problem (missing_services m.services (c ∷ cs)) (evaluate_preflight snap)
      (restarted_services m.restarts (c ∷ cs))

-- The method `problem`, empty where there is none.
unfoldable pub problem : Memory → Snapshot → String
unfolding problem_of
problem m snap = problem_of m snap snap.containers

remember_each : List ContainerStatus → Memory → Memory
remember_each [] m = m
remember_each (c ∷ cs) m = remember_each cs (record m {
  services = if contains m.services c.service then m.services else m.services ++ c.service ∷ [];
  restarts = insert c.id c.restart_count m.restarts;
})

unfoldable pub remember : Snapshot → Memory → Memory
unfolding remember_each
remember snap m = remember_each snap.containers (record m { restarts = [] })

-- What one check of a stack is made in: the configuration, the state, the sinks, the outside, and what
-- `addCommitContext` makes of an alert.
pub record Setting : Type 0 where
  pub alert_after : ℕ
  pub branch : String
  pub sinks : List Sink
  pub show_duration : ℕ → String
  pub add_context : Embed → Embed

module _ (net : Outside) (cfg : Setting) (st : State) where
  alert_embed : String → String → Memory → ℕ → Embed
  alert_embed name problem m now = cfg.add_context (
      build_alert_embed cfg.show_duration (record {
        stack = name;
        commit = st.last_healthy_commit;
        branch = cfg.branch;
        problem = problem;
        unhealthy_for = now - m.since;
      }))

  alert_key : String → Memory → String
  alert_key name m = "monitor:" <> (name <> (":" <> show m.incident))

  put : String → Memory → Monitor → Monitor
  put name m mon = record mon { stacks = insert name m mon.stacks }

  sent_alert : String → Memory → Monitor → Bool × Session → Monitor
  unfolding put
  sent_alert name m mon (delivered, n) =
      put name (record m { alerted = delivered }) (record mon { session = n })

  unfoldable pub raise_alert : String → String → ℕ → Memory → Monitor → Monitor
  unfolding sent_alert alert_embed alert_key put
  raise_alert name problem now m mon =
      if enabled cfg.sinks
      then sent_alert name m mon (
          send_throttled net cfg.sinks (alert_key name m) (alert_embed name problem m now)
            mon.session)
      else put name (record m { alerted = true }) mon

  -- The incident begins with the first bad check.
  unfoldable pub begin_incident : ℕ → Memory → Monitor → Memory × Monitor
  begin_incident now m mon =
      if beq m.streak 0
      then (
        record m { since = now; incident = mon.incidents + 1 },
        record mon { incidents = mon.incidents + 1 },
      )
      else (m, mon)

  count_bad : String → String → ℕ → Memory × Monitor → Monitor
  unfolding raise_alert put
  count_bad name problem now (m, mon) =
      let m' = record m { streak = m.streak + 1 } in
      if m.alerted || ltb (m.streak + 1) cfg.alert_after
      then put name m' mon
      else raise_alert name problem now m' mon

  judge : String → String → ℕ → Memory → Monitor → Monitor
  unfolding count_bad begin_incident put
  judge name problem now m mon =
      if problem == ""
      then put name (record m { streak = 0; alerted = false }) mon
      else count_bad name problem now (begin_incident now m mon)

  -- `m.stacks[name]`, made where it is missing.
  unfoldable pub memory_of : Option Memory → Memory
  memory_of none = fresh
  memory_of (some m) = m

  unfoldable pub observe : String → Snapshot → ℕ → Monitor → Monitor
  unfolding judge
  observe name snap now mon =
      let m = memory_of (lookup name mon.stacks) in
      judge name (problem m snap) now (remember snap m) mon

-- What one check reads: the activity counter before and after its snapshots, which is odd while a
-- reconcile runs, the state, the clock, the names of the stacks that are discovered, the snapshot of
-- each, and whether the context was cancelled when a snapshot failed.
pub record Look : Type 0 where
  pub before : ℕ
  pub loaded : Try State
  pub pause_now : ℕ
  pub discovered : Try (List String)
  pub snapshot : String → Try Snapshot
  pub cancelled : String → Bool
  pub after : ℕ
  pub now : ℕ

-- Whether the stacks are as the last deployment left them.
unfoldable pub is_watched : State → ℕ → Bool
is_watched st now = not (pending st || (st.last_healthy_commit == "" || paused st now))

-- The method `watched`.
watched_from : List String → Try (List String) → Try (List String)
watched_from [] discovered = discovered
watched_from (n ∷ ns) discovered = ok (n ∷ ns)

-- The snapshots that could be taken; `none` where the context was cancelled.
keep_snapshot :
    String
    → Try Snapshot
    → Bool
    → Option (List (String × Snapshot))
    → Option (List (String × Snapshot))
keep_snapshot name (err e) true rest = none
keep_snapshot name (err e) false rest = rest
keep_snapshot name (ok snap) c none = none
keep_snapshot name (ok snap) c (some rest) = some ((name, snap) ∷ rest)

take_snapshots : Look → List String → Option (List (String × Snapshot))
unfolding keep_snapshot
take_snapshots look [] = some []
take_snapshots look (n ∷ ns) =
    keep_snapshot n (look.snapshot n) (look.cancelled n) (take_snapshots look ns)

monitor_key : State → List String → String
monitor_key st names =
    st.last_healthy_commit <> ("|" <> (st.last_checkout_commit <> ("|" <> join "," names)))

-- Another deployment or other stacks: what is known of the stacks is forgotten.
renew : String → Monitor → Monitor
renew key mon = if key == mon.key then mon else record mon { key = key; stacks = [] }

module _ (net : Outside) (cfg : Setting) (look : Look) where
  observe_all : State → List (String × Snapshot) → Monitor → Monitor
  observe_all st [] mon = mon
  observe_all st ((name, snap) ∷ rest) mon =
      observe_all st rest (observe net cfg st name snap look.now mon)

  judge_all : State → Option (List (String × Snapshot)) → Monitor → Bool × Monitor
  unfolding observe_all
  judge_all st none mon = (false, mon)
  judge_all st (some snaps) mon =
      if beq look.after look.before then (true, observe_all st snaps mon) else (false, mon)

  check_names : State → Try (List String) → Monitor → Bool × Monitor
  unfolding judge_all take_snapshots renew monitor_key
  check_names st (err e) mon = (true, mon)
  check_names st (ok names) mon =
      judge_all st (take_snapshots look names) (renew (monitor_key st names) mon)

  check_state : Try State → Monitor → Bool × Monitor
  unfolding check_names watched_from
  check_state (err e) mon = (true, mon)
  check_state (ok st) mon =
      if is_watched st look.pause_now
      then check_names st (watched_from st.last_healthy_stacks look.discovered) mon
      else (true, mon)

  -- The method `check`: whether it was completed, in which case `Check` pings the heartbeat, and the
  -- monitor afterwards.
  unfoldable pub check : Monitor → Bool × Monitor
  unfolding check_state
  check mon = if beq (look.before % 2) 1 then (false, mon) else check_state look.loaded mon
