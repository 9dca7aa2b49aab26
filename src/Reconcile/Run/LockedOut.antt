-- ===== src/Reconcile/Run/LockedOut.antt =====
-- The runs of a DEGRADED system (internal/reconcile/reconcile.go), until one is forced.
use compose_lock.Prelude.{◌≡◌, refl, ◌∙◌, ap, true, false, not, ◌&&◌, List, [], ◌∷◌, All, Bool}
use compose_lock.Errors.{Try, ok, err}
use compose_lock.State.{State, Deployment, degraded, same_result, record_deployment}
use compose_lock.Config.{Config}
use compose_lock.World.{World, Env, lock_tried, lock_released, pinged}
use compose_lock.World.Calls.{compose_calls, compose_calls-look}
use compose_lock.World.Rules.{Keeps, Keeps-bind, Keeps-pure, Keeps-if, Keeps-if_true}
use compose_lock.World.Keeping.{is_look, Keeps-call, Keeps-read_clock}
use compose_lock.World.Acting.{Saves, Leads-get_st, Keeps-modify_st, Leads-load_state}
use compose_lock.Reconcile.{Options}
use compose_lock.Reconcile.Run.{
  run_loaded, after_load, reconcile_locked, locked_run, try_lock, run_if_held, run_or_skip,
  reconcile,
}
use compose_lock.Reconcile.Run.Keeping.{Keeps-record_history, Keeps-paused_run}

-- The state is `s` but for the deployments that its history lists.
unfoldable pub SameButHistory : State → State → Type 0
SameButHistory s t = t ≡ record s { history = t.history }

-- Since `w` the checkout and Compose were left alone, and the state but for its history.
pub record IsLockedOut (w w' : World) : Type 0 where
  pub on_disk : SameButHistory w.disk w'.disk
  pub in_memory : SameButHistory w.disk w'.st
  pub same_tree : w'.tree ≡ w.tree
  pub same_calls : compose_calls w'.history ≡ compose_calls w.history

SameButHistory-enter :
    (s t : State) (d : Deployment) → SameButHistory s t → SameButHistory s (record_deployment t d)
unfolding SameButHistory record_deployment
SameButHistory-enter s t d e =
    ap {A = State} {B = State} (λ u. record u { history = (record_deployment t d).history }) e

IsLockedOut-saves : (w : World) → Saves (SameButHistory w.disk) (IsLockedOut w)
unfolding compose_calls
IsLockedOut-saves w = record {
  looks = record {
    look = λ e w' q p. record {
      on_disk = p.on_disk;
      in_memory = p.in_memory;
      same_tree = p.same_tree;
      same_calls = compose_calls-look e w'.history q ∙ p.same_calls;
    };
  };
  memory = λ w' p. p.in_memory;
  stored = λ w' p. p.on_disk;
  put = λ s w' q p. record {
    on_disk = p.on_disk;
    in_memory = q;
    same_tree = p.same_tree;
    same_calls = p.same_calls;
  };
  save_new = λ s w' q p. record {
    on_disk = q;
    in_memory = p.in_memory;
    same_tree = p.same_tree;
    same_calls = p.same_calls;
  };
  save_lost = λ s w' p. record {
    on_disk = p.on_disk;
    in_memory = p.in_memory;
    same_tree = p.same_tree;
    same_calls = p.same_calls;
  };
}

module _ (env : Env) (cfg : Config) where
  module _ (opts : Options) (gentle : opts.force ≡ false) (w : World)
      (stuck : w.disk.last_result ≡ degraded) where
    is_barred :
        (s : State)
        → SameButHistory w.disk s
        → (same_result s.last_result degraded && not opts.force) ≡ true
    unfolding SameButHistory same_result
    is_barred s e = rw (ap (λ t. t.last_result) e ∙ stuck, gentle) refl

    Keeps-run_loaded : Keeps (IsLockedOut w) (run_loaded env cfg opts)
    unfolding run_loaded
    Keeps-run_loaded = Leads-get_st env (IsLockedOut-saves w) _ (λ s q.
        Keeps-bind _ _ (Keeps-read_clock env (IsLockedOut-saves w).looks) (λ now.
          Keeps-if _ _ _
            (Keeps-paused_run env cfg (IsLockedOut-saves w) (SameButHistory-enter w.disk))
            (Keeps-if_true _ _ _ (is_barred s q) (Keeps-pure _))))

    Keeps-reconcile_locked : Keeps (IsLockedOut w) (reconcile_locked env cfg opts)
    unfolding reconcile_locked after_load
    Keeps-reconcile_locked =
        Leads-load_state env (IsLockedOut-saves w) _ (λ e. Keeps-pure _)
          (λ s q.
            Keeps-bind _ _ (Keeps-modify_st env (IsLockedOut-saves w) _ (λ _ _. q))
              (λ _. Keeps-run_loaded))

    Keeps-locked_run : Keeps (IsLockedOut w) (locked_run env cfg opts)
    unfolding locked_run is_look
    Keeps-locked_run = Keeps-bind _ _ (Keeps-read_clock env (IsLockedOut-saves w).looks) (λ at.
        Keeps-bind _ _ Keeps-reconcile_locked (λ r.
          Keeps-bind _ _
            (Keeps-if opts.dry_run _ _ (Keeps-pure tt) (
              Keeps-record_history env cfg (IsLockedOut-saves w) (SameButHistory-enter w.disk) r
                at))
            (λ _. Keeps-call env (IsLockedOut-saves w).looks lock_released _ refl)))

    Keeps-run_if_held : (o : Try Bool) → Keeps (IsLockedOut w) (run_if_held env cfg opts o)
    unfolding run_if_held
    Keeps-run_if_held (err e) = Keeps-pure _
    Keeps-run_if_held (ok false) = Keeps-pure _
    Keeps-run_if_held (ok true) = Keeps-locked_run

    Keeps-reconcile : Keeps (IsLockedOut w) (reconcile env cfg opts)
    unfolding reconcile run_or_skip try_lock is_look
    Keeps-reconcile =
        Keeps-bind _ _
          (Keeps-bind _ _ (Keeps-call env (IsLockedOut-saves w).looks lock_tried _ refl)
            Keeps-run_if_held)
          (λ r.
            Keeps-if _ _ _ (Keeps-call env (IsLockedOut-saves w).looks pinged _ refl)
              (Keeps-pure r))

  -- The world after one run with each of these options.
  unfoldable pub reconciles : List Options → World → World
  reconciles [] w = w
  reconciles (opts ∷ more) w = reconciles more (reconcile env cfg opts w).1

  reconciles_kept :
      (runs : List Options) (w w' : World)
      → All (λ o. o.force ≡ false) runs
      → w.disk.last_result ≡ degraded
      → IsLockedOut w w'
      → IsLockedOut w (reconciles runs w')
  unfolding reconciles
  reconciles_kept [] w w' gentle stuck p = p
  reconciles_kept (opts ∷ more) w w' gentle stuck p =
      reconciles_kept more w _ gentle.1 stuck ((Keeps-reconcile opts gentle.0 w stuck).at w' p)

  -- Once the state on disk is DEGRADED, and the state in memory is the one on disk, no number of runs
  -- without force, whatever the world answers them, changes the checkout, calls Compose to change what
  -- runs, or changes anything in the state but the history: it stays DEGRADED.
  pub reconciles-IsLockedOut :
      (runs : List Options) (w : World)
      → All (λ o. o.force ≡ false) runs
      → w.disk.last_result ≡ degraded
      → w.st ≡ w.disk
      → IsLockedOut w (reconciles runs w)
  unfolding SameButHistory
  reconciles-IsLockedOut runs w gentle stuck same =
      reconciles_kept runs w w gentle stuck
        (record { on_disk = refl; in_memory = rw same refl; same_tree = refl; same_calls = refl })
