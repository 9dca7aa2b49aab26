-- ===== src/Reconcile/Run/Guards.antt =====
-- The guards of `reconcileLocked`, which come before any recovery and any apply.
use compose_lock.Prelude.{◌≡◌, refl, true, none, ◌∷◌}
use compose_lock.Errors.{Try, ok, err}
use compose_lock.State.{paused}
use compose_lock.Config.{Config}
use compose_lock.World.{
  World, Env, state_loaded, clock_read, pure, gets, call, ◌>>=◌, load_state, load_answer, modify_st,
  read_clock,
}
use compose_lock.World.Calls.{compose_calls, IsIdle, IsIdle-looks}
use compose_lock.Git.Keeping.{Keeps-fetch_and_preview}
use compose_lock.Reconcile
use compose_lock.Reconcile.{Options, Result, no_result}
use compose_lock.Reconcile.Run.{run_loaded, after_load, reconcile_locked, paused_run, paused_result}
use compose_lock.Reconcile.Recovery.{upstream}
use compose_lock.Git.{GitResult, fetch_and_preview}

-- The result of a paused run, and what it has left alone since `w`.
pub record IsPausedRun (w : World) (answer : Result × World) : Type 0 where
  pub skipped : answer.0.skipped ≡ true
  pub reason : answer.0.skip_reason ≡ Reconcile.paused
  pub same_disk : answer.1.disk ≡ w.disk
  pub same_tree : answer.1.tree ≡ w.tree
  pub same_calls : compose_calls answer.1.history ≡ compose_calls w.history

paused_result-skipped :
    (o : Try GitResult)
    → ((paused_result o).skipped ≡ true) × ((paused_result o).skip_reason ≡ Reconcile.paused)
unfolding paused_result
paused_result-skipped (err e) = (refl, refl)
paused_result-skipped (ok g) = (refl, refl)

paused_run-IsPausedRun :
    (env : Env) (cfg : Config) (w : World) → IsPausedRun w (paused_run env cfg w)
unfolding paused_run ◌>>=◌ pure
paused_run-IsPausedRun env cfg w =
    let (a, w') = fetch_and_preview env 1 (upstream cfg) w in
    let p : IsIdle w (fetch_and_preview env 1 (upstream cfg) w).1 =
      (Keeps-fetch_and_preview env (IsIdle-looks w) 1 (upstream cfg)).at w
        (record { same_disk = refl; same_memory = refl; same_tree = refl; same_calls = refl }) in
    let (s, r) = paused_result-skipped (fetch_and_preview env 1 (upstream cfg) w).0 in
    record {
      skipped = s;
      reason = r;
      same_disk = p.same_disk;
      same_tree = p.same_tree;
      same_calls = p.same_calls;
    }

-- While it is paused a run only looks: the state on disk, the checkout and Compose stay as they are,
-- and the result is a skip for that reason.
pub reconcile_locked-paused :
    (env : Env) (cfg : Config) (opts : Options) (w : World)
    → env.load_state w.history ≡ none
    → paused w.disk (env.now (state_loaded ∷ w.history)) ≡ true
    → IsPausedRun w (reconcile_locked env cfg opts w)
unfolding reconcile_locked after_load run_loaded load_state call load_answer modify_st gets
    read_clock ◌>>=◌ pure compose_calls
reconcile_locked-paused env cfg opts w loads rest =
    let w' : World = record w { st = w.disk; history = clock_read ∷ state_loaded ∷ w.history } in
    let p = paused_run-IsPausedRun env cfg w' in
    rw (loads, rest)
      (record {
        skipped = p.skipped;
        reason = p.reason;
        same_disk = p.same_disk;
        same_tree = p.same_tree;
        same_calls = p.same_calls;
      })
