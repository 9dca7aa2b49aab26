-- ===== src/Reconcile/Run/DryRun.antt =====
-- What a dry run leaves alone.
use compose_lock.Prelude.{◌≡◌, refl, true}
use compose_lock.State.{State}
use compose_lock.Reconcile.Change.{Lasts}
use compose_lock.Config.{Config}
use compose_lock.World.{World, Env}
use compose_lock.World.Calls.{compose_calls, IsUntouched, IsUntouched-acts}
use compose_lock.Reconcile.{Options}
use compose_lock.Reconcile.Run.{reconcile}
use compose_lock.Reconcile.Run.Keeping.{Leads-reconcile_dry}

untouched_lasts : Lasts (λ (s : State). Unit {0})
untouched_lasts = record { change = λ c q. tt }

-- A dry run pulls nothing, brings nothing up and tears nothing down, whatever the world answers.
pub reconcile-dry_run :
    (env : Env) (cfg : Config) (opts : Options) (w : World)
    → opts.dry_run ≡ true
    → compose_calls (reconcile env cfg opts w).1.history ≡ compose_calls w.history
unfolding IsUntouched
reconcile-dry_run env cfg opts w d =
    let acts = IsUntouched-acts (compose_calls w.history) in
    (Leads-reconcile_dry env cfg opts acts untouched_lasts acts.saves untouched_lasts (λ w' p. p)
        d).at
      w refl
