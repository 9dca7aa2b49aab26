-- ===== src/Commands/Polling.antt =====
-- The commands of cmd/composelock/commands.go that reconcile: `cmdReconcile` once, `cmdPoll` again and
-- again. Notifications, the monitor and the log beside them are left out. A poll runs at most as many
-- reconciles as its fuel; `none` is one that still polls.
pub mod Keeping
use compose_lock.Prelude.{ℕ, zero, suc, Bool, true, false, not, Option, none, some, if◌then◌else◌}
use compose_lock.Prelude.Int.{ℤ, pos, ltz}
use compose_lock.Config.{Config}
use compose_lock.World.{World, M, pure, ◌>>=◌, ◌>>◌, Env, is_cancelled, sleep_ctx}
use compose_lock.Reconcile.{Options}
use compose_lock.Reconcile.Run.{reconcile}
use compose_lock.Commands.{exit_code}

abbrev poll_options : Options
poll_options = record { dry_run = false; force = false }

module _ (env : Env) (cfg : Config) where
  unfoldable pub cmd_reconcile : Options → M ℕ
  cmd_reconcile opts = do result ← reconcile env cfg opts; pure (exit_code result)

  next_tick : M (Option ℕ) → Bool → M (Option ℕ)
  next_tick again true = again
  next_tick again false = pure (some 0)

  -- A cancelled context ends the loop, also in a sleep.
  after_tick : M (Option ℕ) → Bool → M (Option ℕ)
  unfolding next_tick
  after_tick again true = pure (some 0)
  after_tick again false = do awake ← sleep_ctx env; next_tick again awake

  poll_loop : ℕ → M (Option ℕ)
  unfolding after_tick
  poll_loop zero = pure none
  poll_loop (suc fuel) = do
    reconcile env cfg poll_options
    stopped ← is_cancelled env
    after_tick (poll_loop fuel) stopped

  -- `interval` is `poll_interval_seconds`.
  unfoldable pub cmd_poll : ℤ → ℕ → M (Option ℕ)
  unfolding poll_loop
  cmd_poll interval fuel = if ltz (pos 0) interval then poll_loop fuel else pure (some 2)
