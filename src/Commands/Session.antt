-- ===== src/Commands/Session.antt =====
-- Commands one after another, each to its end, and what all of them keep of the state file.
use compose_lock.Prelude.{ℕ, String, List, [], ◌∷◌}
use compose_lock.Prelude.Int.{ℤ}
use compose_lock.State.{State, pause, resume}
use compose_lock.State.Limits.{IsBounded}
use compose_lock.Config.{Config}
use compose_lock.World.{World, Env}
use compose_lock.Reconcile.{Options}
use compose_lock.Reconcile.Change.{Evolves}
use compose_lock.Reconcile.Change.Bounds.{Change-IsBounded, promoted-IsBounded}
use compose_lock.Reconcile.Run.Reached.{Both, Both-acts}
use compose_lock.Commands.Pausing.{cmd_pause, cmd_resume}
use compose_lock.Commands.Pausing.Keeping.{Outlasts, Keeps-cmd_pause, Keeps-cmd_resume}
use compose_lock.Commands.Polling.{cmd_reconcile, cmd_poll}
use compose_lock.Commands.Polling.Keeping.{Keeps-cmd_reconcile, Keeps-cmd_poll}

-- A command, with the fuel of its loop.
pub data Action : Type 0 where
  reconciled : Options → Action
  polled : ℤ → ℕ → Action
  paused_for : ℕ → ℤ → String → Action
  resumed : ℕ → Action

module _ (env : Env) (cfg : Config) (show_time : ℕ → String) where
  act : Action → World → World
  act (reconciled opts) w = (cmd_reconcile env cfg opts w).1
  act (polled interval fuel) w = (cmd_poll env cfg interval fuel w).1
  act (paused_for fuel d reason) w = (cmd_pause env show_time fuel d reason w).1
  act (resumed fuel) w = (cmd_resume env fuel w).1

  unfoldable pub session : List Action → World → World
  unfolding act
  session [] w = w
  session (a ∷ more) w = session more (act a w)

IsBounded-Outlasts : Outlasts IsBounded
unfolding pause resume
IsBounded-Outlasts = record {
  pausing = λ s at until reason b. record {
    failed_capped = b.failed_capped;
    failed_distinct = b.failed_distinct;
    history_capped = b.history_capped;
  };
  resuming = λ s b. record {
    failed_capped = b.failed_capped;
    failed_distinct = b.failed_distinct;
    history_capped = b.history_capped;
  };
}

module _ {ℓ} {Q : State → Type ℓ} (env : Env) (cfg : Config) (l : Evolves Q) where
  Keeps-act :
      (o : Outlasts Q) (show_time : ℕ → String) (a : Action) (w : World)
      → Both Q w
      → Both Q (act env cfg show_time a w)
  unfolding act
  Keeps-act o show_time (reconciled opts) w b = (Keeps-cmd_reconcile env cfg l opts).at w b
  Keeps-act o show_time (polled interval fuel) w b = (Keeps-cmd_poll env cfg l interval fuel).at w b
  Keeps-act o show_time (paused_for fuel d reason) w b =
      (Keeps-cmd_pause env (Both-acts Q).saves o show_time fuel d reason).at w b
  Keeps-act o show_time (resumed fuel) w b =
      (Keeps-cmd_resume env (Both-acts Q).saves o fuel).at w b

  session-Both :
      (o : Outlasts Q) (show_time : ℕ → String) (actions : List Action) (w : World)
      → Both Q w
      → Both Q (session env cfg show_time actions w)
  unfolding session
  session-Both o show_time [] w b = b
  session-Both o show_time (a ∷ more) w b =
      session-Both o show_time more (act env cfg show_time a w) (Keeps-act o show_time a w b)

-- However many commands follow one another, `sync` and `check` with or without force, `poll` for any
-- number of ticks, `pause` and `resume`, and whatever the world answers them: a state file that is
-- bounded at first, as the state in memory is, is bounded after them, with at most sixteen failed
-- commits, none twice, and at most twenty deployments.
pub session-IsBounded :
    (env : Env) (cfg : Config) (show_time : ℕ → String) (actions : List Action) (w : World)
    → IsBounded w.disk
    → IsBounded w.st
    → IsBounded (session env cfg show_time actions w).disk
session-IsBounded env cfg show_time actions w d m =
    (session-Both env cfg
      (record { lasts = record { change = Change-IsBounded }; promote = promoted-IsBounded })
      IsBounded-Outlasts show_time actions w (record { on_disk = d; in_memory = m })).on_disk
