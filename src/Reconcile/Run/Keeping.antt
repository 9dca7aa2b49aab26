-- ===== src/Reconcile/Run/Keeping.antt =====
-- Where a whole reconcile leads, from the world in which it tries the lock: with `P` before it, and `R`
-- after the run, which the record in the history keeps.
use compose_lock.Prelude.{◌≡◌, refl, ℕ, Bool, true, false, List, String}
use compose_lock.Errors.{Try, ok, err}
use compose_lock.State.{State, Deployment, record_deployment}
use compose_lock.Config.{Config}
use compose_lock.Git.Keeping.{Keeps-fetch_and_preview}
use compose_lock.World.{World, Env, lock_tried, lock_released, pinged}
use compose_lock.World.Rules.{
  Keeps, Leads, Keeps-bind, Keeps-pure, Keeps-if, Leads-bind, Leads-after, Leads-pure, Leads-if,
  Leads-of,
}
use compose_lock.World.Keeping.{is_look, Keeps-call, Keeps-read_clock}
use compose_lock.World.Acting.{
  Saves, Acts, Leads-get_st, Keeps-modify_st, Keeps-save_state, Leads-load_state,
}
use compose_lock.Reconcile.{Options, Result}
use compose_lock.Reconcile.Change.{Lasts, entered}
use compose_lock.Reconcile.Recovery.Keeping.{Leads-recover_from_crash, Leads-recover_from_crash_dry}
use compose_lock.Reconcile.Normal.{run_normal}
use compose_lock.Reconcile.Recovery.{recover_from_crash}
use compose_lock.Reconcile.Normal.Keeping.{Leads-run_normal, Leads-run_normal_dry}
use compose_lock.Reconcile.Apply.{apply_and_watch}
use compose_lock.Reconcile.Revert.{do_revert}
use compose_lock.Health.{Snapshot}
use compose_lock.Compose.{Stack}
use compose_lock.Reconcile.Run.{
  record_history, paused_run, run_loaded, after_load, reconcile_locked, locked_run, try_lock,
  run_if_held, run_or_skip, reconcile, entry_of,
}

module _ {ℓ} {Q : State → Type ℓ} {P : World → Type ℓ} (env : Env) (cfg : Config) (h : Saves Q P)
    (enter : (s : State) (d : Deployment) → Q s → Q (record_deployment s d)) where
  pub Keeps-record_history : (r : Result) (at : ℕ) → Keeps P (record_history env cfg r at)
  unfolding record_history
  Keeps-record_history r at = Keeps-if _ _ _ (Keeps-pure tt) (
      Leads-load_state env h _ (λ e. Keeps-pure tt)
        (λ s q. Keeps-if _ _ _ (Keeps-pure tt) (
          Keeps-bind _ _ (Keeps-save_state env h _ (enter s (entry_of s r) q))
            (λ _. Keeps-pure tt))))

  pub Keeps-paused_run : Keeps P (paused_run env cfg)
  unfolding paused_run
  Keeps-paused_run = Keeps-bind _ _ (Keeps-fetch_and_preview env h.looks _ _) (λ o. Keeps-pure _)

module _ {ℓ} {Q Q' : State → Type ℓ} {P R : World → Type ℓ} (env : Env) (cfg : Config)
    (opts : Options) (h : Acts Q P) (l : Lasts Q) (h' : Saves Q' R) (l' : Lasts Q')
    (stop : (w : World) → P w → R w) where
  module _ (recovers : Leads P (recover_from_crash env cfg opts) R)
      (runs : Leads P (run_normal env cfg opts) R) where
    Leads-run_loaded : Leads P (run_loaded env cfg opts) R
    unfolding run_loaded
    Leads-run_loaded = Leads-get_st env h.saves _ (λ s q.
        Leads-bind _ _ (Keeps-read_clock env h.saves.looks) (λ now.
          Leads-if _ _ _
            (Leads-of stop _ (Keeps-paused_run env cfg h.saves (λ s d. l.change (entered d))))
            (Leads-if _ _ _ (Leads-pure stop _) (Leads-if _ _ _ recovers runs))))

    Leads-reconcile_locked : Leads P (reconcile_locked env cfg opts) R
    unfolding reconcile_locked after_load
    Leads-reconcile_locked =
        Leads-load_state env h.saves _ (λ e. Leads-pure stop _)
          (λ s q. Leads-bind _ _ (Keeps-modify_st env h.saves _ (λ _ _. q)) (λ _. Leads-run_loaded))

    Leads-locked_run : Leads P (locked_run env cfg opts) R
    unfolding locked_run is_look
    Leads-locked_run = Leads-bind _ _ (Keeps-read_clock env h.saves.looks) (λ at.
        Leads-after _ _ Leads-reconcile_locked (λ r.
          Keeps-bind _ _
            (Keeps-if opts.dry_run _ _ (Keeps-pure tt)
              (Keeps-record_history env cfg h' (λ s d. l'.change (entered d)) r at))
            (λ _. Keeps-call env h'.looks lock_released _ refl)))

    Keeps-try_lock : Keeps P (try_lock env cfg)
    unfolding try_lock is_look
    Keeps-try_lock = Keeps-call env h.saves.looks lock_tried _ refl

    Leads-run_if_held : (o : Try Bool) → Leads P (run_if_held env cfg opts o) R
    unfolding run_if_held
    Leads-run_if_held (err e) = Leads-pure stop _
    Leads-run_if_held (ok false) = Leads-pure stop _
    Leads-run_if_held (ok true) = Leads-locked_run

    Leads-run : Leads P (reconcile env cfg opts) R
    unfolding reconcile run_or_skip is_look
    Leads-run =
        Leads-after _ _ (Leads-bind _ _ Keeps-try_lock Leads-run_if_held)
          (λ r. Keeps-if _ _ _ (Keeps-call env h'.looks pinged _ refl) (Keeps-pure r))

  pub Leads-reconcile_dry : opts.dry_run ≡ true → Leads P (reconcile env cfg opts) R
  Leads-reconcile_dry d =
      Leads-run (Leads-recover_from_crash_dry env cfg opts h.saves l stop d)
        (Leads-run_normal_dry env cfg opts h l stop d)

  pub Leads-reconcile :
      (apply : (r : Result) (previous : List Stack) (pending : List String)
          (before : List (String × Snapshot))
        → Leads P (apply_and_watch env cfg r previous pending before) R)
      (back : (ss : List Stack) (failed reason : String)
        → Keeps P (do_revert env cfg ss failed reason))
      → Leads P (reconcile env cfg opts) R
  Leads-reconcile apply back =
      Leads-run (Leads-recover_from_crash env cfg opts h.saves l stop apply back)
        (Leads-run_normal env cfg opts h l stop apply back)
