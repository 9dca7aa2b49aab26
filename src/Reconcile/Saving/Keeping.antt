-- ===== src/Reconcile/Saving/Keeping.antt =====
-- What the writes of the state keep: a property of worlds that outlives the changes of the state.
use compose_lock.Errors.{Err}
use compose_lock.Prelude.{◌∷◌, String, none, some, List, Option}
use compose_lock.State.{State, LastResult}
use compose_lock.World.{
  SaveOutcome, saved, lost, torn, state_saved, save_error, disk_after, World, Env, M, ◌>>=◌, pure,
  modify_st, save_state,
}
use compose_lock.World.Rules.{Leads, Keeps, Keeps-bind, Keeps-pure, Keeps-if}
use compose_lock.World.Keeping.{Keeps-bind_option, Keeps-read_clock}
use compose_lock.World.Acting.{Saves, Keeps-get_st, Keeps-modify_st, Keeps-save_state}
use compose_lock.Reconcile.Change.{Lasts, attempted, Evolves, checked_out, unblocked, counted}
use compose_lock.Reconcile.Saving.{
  settle, commit_state, record_outcome, promote_healthy, record_checkout, clear_preflight_blocks,
  count_recovery_attempt,
}

module _ {ℓ} {Q : State → Type ℓ} {P : World → Type ℓ} (env : Env) (h : Saves Q P) where
  pub Keeps-commit_state : (s : State) → Q s → Keeps P (commit_state env s)
  unfolding commit_state settle
  Keeps-commit_state s q =
      Keeps-bind_option _ _ (Keeps-save_state env h s q)
        (Keeps-bind _ _ (Keeps-modify_st env h _ (λ _ _. q)) (λ _. Keeps-pure none))
        (λ e. Keeps-pure (some e))

  module _ (l : Lasts Q) where
    pub Keeps-record_outcome :
        (r : LastResult) (commit : String) → Keeps P (record_outcome env r commit)
    unfolding record_outcome
    Keeps-record_outcome r commit = Keeps-get_st env h _ (λ s q.
        Keeps-bind _ _ (Keeps-read_clock env h.looks) (λ now.
          Keeps-bind _ _ (Keeps-commit_state _ (l.change (attempted r now _) q))
            (λ _. Keeps-pure tt)))

    pub Keeps-record_checkout : (commit : String) → Keeps P (record_checkout env commit)
    unfolding record_checkout
    Keeps-record_checkout commit = Keeps-get_st env h _ (λ s q.
        Keeps-bind _ _ (Keeps-read_clock env h.looks) (λ now.
          Keeps-bind _ _ (Keeps-commit_state _ (l.change (checked_out now commit) q))
            (λ _. Keeps-pure _)))

    pub Keeps-clear_preflight_blocks : Keeps P (clear_preflight_blocks env)
    unfolding clear_preflight_blocks
    Keeps-clear_preflight_blocks = Keeps-get_st env h _ (λ s q.
        Keeps-if _ _ _ (Keeps-pure tt)
          (Keeps-bind _ _ (Keeps-commit_state _ (l.change unblocked q)) (λ _. Keeps-pure tt)))

    pub Keeps-count_recovery_attempt : Keeps P (count_recovery_attempt env)
    unfolding count_recovery_attempt
    Keeps-count_recovery_attempt =
        Keeps-get_st env h _
          (λ s q. Keeps-bind _ _ (Keeps-commit_state _ (l.change counted q)) (λ _. Keeps-pure _))

  pub Keeps-promote_healthy :
      (l : Evolves Q) (commit : String) (stacks : List String)
      → Keeps P (promote_healthy env commit stacks)
  unfolding promote_healthy
  Keeps-promote_healthy l commit stacks = Keeps-bind _ _ (Keeps-read_clock env h.looks) (λ now.
      Keeps-get_st env h _ (λ s q.
        Keeps-bind _ _ (Keeps-commit_state _ (l.promote s now commit stacks q))
          (λ _. Keeps-pure _)))

module _ {ℓ} {B : Type 0} {Q : State → Type ℓ} {A P U R : World → Type ℓ} (env : Env)
    (h : Saves Q P) (home : (w : World) → A w → P w) (next : State) (q : Q next)
    (f : Option Err → M B)
    (begun : (w : World)
      → A w
      → U (record w { disk = next; st = next; history = state_saved next ∷ w.history }))
    (done : Leads U (f none) R) (failed : (e : Err) → Leads P (f (some e)) R) where
  Leads-settled :
      (o : SaveOutcome) (w : World)
      → A w
      → R
          ((settle env next (save_error env o) >>= f) (record w {
            disk = disk_after env o next w.disk;
            history = state_saved next ∷ w.history;
          })).1
  unfolding settle save_error disk_after ◌>>=◌ pure modify_st
  Leads-settled saved w a = done.at _ (begun w a)
  Leads-settled (lost e) w a = (failed e).at _ (h.save_lost next w (home w a))
  Leads-settled (torn e) w a = (failed e).at _ (h.save_new next w q (home w a))

  -- The rest of the block may use that the state is saved, if the save answered with no error.
  pub Leads-commit_state : Leads A (commit_state env next >>= f) R
  unfolding commit_state ◌>>=◌ save_state
  Leads-commit_state = record { at = λ w a. Leads-settled (env.save_state w.history next) w a }
