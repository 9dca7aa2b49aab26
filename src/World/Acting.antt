-- ===== src/World/Acting.antt =====
-- What a run does short of Compose keeps every property of worlds that looks, checkouts, loads and
-- saves keep.
use compose_lock.Prelude.{refl, String, Option, none, some, ◌∷◌}
use compose_lock.Errors.{Err, Try, ok, err}
use compose_lock.State.{State}
use compose_lock.World.{
  World, M, Env, SaveOutcome, saved, lost, torn, state_saved, git, checkout, gets, ◌>>=◌,
  save_state, modify_st, get_st, disk_after, run_git, moved_tree, load_state, load_answer, call,
  state_loaded,
}
use compose_lock.World.Rules.{Keeps, Leads}
use compose_lock.World.Keeping.{Looks, is_look}

-- `P` outlives looks, loads, and saves of states with `Q`.
pub record Saves {ℓ} (Q : State → Type ℓ) (P : World → Type ℓ) : Type ℓ where
  pub looks : Looks P
  pub memory : (w : World) → P w → Q w.st
  pub stored : (w : World) → P w → Q w.disk
  pub put : (s : State) (w : World) → Q s → P w → P (record w { st = s })
  pub save_new :
      (s : State) (w : World)
      → Q s
      → P w
      → P (record w { disk = s; history = state_saved s ∷ w.history })
  pub save_lost :
      (s : State) (w : World) → P w → P (record w { history = state_saved s ∷ w.history })

-- `P` outlives checkouts, too.
pub record Acts {ℓ} (Q : State → Type ℓ) (P : World → Type ℓ) : Type ℓ where
  pub saves : Saves Q P
  pub move :
      (commit tree : String) (w : World)
      → P w
      → P (record w { tree = tree; history = git (checkout commit) ∷ w.history })

-- The rest of the block may use what holds of the state that it reads.
pub Leads-read_st {ℓ} :
    {B : Type 0} {Q : State → Type ℓ} {A P R : World → Type ℓ} (home : (w : World) → A w → P w)
    (memory : (w : World) → P w → Q w.st) (f : State → M B)
    → ((s : State) → Q s → Leads A (f s) R)
    → Leads A (get_st >>= f) R
unfolding ◌>>=◌ gets
Leads-read_st home memory f k = record { at = λ w a. (k w.st (memory w (home w a))).at w a }

module _ {ℓ} {Q : State → Type ℓ} {P : World → Type ℓ} (env : Env) (h : Saves Q P) where
  loaded :
      {B : Type 0} {R : World → Type ℓ} (o : Option Err) (w : World) (f : Try State → M B)
      → ((e : Err) → Leads P (f (err e)) R)
      → ((s : State) → Q s → Leads P (f (ok s)) R)
      → Q w.disk
      → P (record w { history = state_loaded ∷ w.history })
      → R (f (load_answer env o w.disk) (record w { history = state_loaded ∷ w.history })).1
  unfolding load_answer
  loaded none w f ke ko q p = (ko w.disk q).at _ p
  loaded (some e) w f ke ko q p = (ke e).at _ p

  pub Leads-get_st :
      {B : Type 0} {R : World → Type ℓ} (f : State → M B)
      → ((s : State) → Q s → Leads P (f s) R)
      → Leads P (get_st >>= f) R
  unfolding ◌>>=◌ gets
  Leads-get_st f k = record { at = λ w p. (k w.st (h.memory w p)).at w p }

  pub Keeps-get_st :
      {B : Type 0} (f : State → M B) → ((s : State) → Q s → Keeps P (f s)) → Keeps P (get_st >>= f)
  unfolding ◌>>=◌ gets
  Keeps-get_st f k = record { at = λ w p. (k w.st (h.memory w p)).at w p }

  pub Keeps-modify_st : (f : State → State) → ((s : State) → Q s → Q (f s)) → Keeps P (modify_st f)
  unfolding modify_st
  Keeps-modify_st f k = record { at = λ w p. h.put (f w.st) w (k w.st (h.memory w p)) p }

  keeps_saved :
      (o : SaveOutcome) (s : State) (w : World)
      → Q s
      → P w
      → P (record w { disk = disk_after env o s w.disk; history = state_saved s ∷ w.history })
  unfolding disk_after
  keeps_saved saved s w q p = h.save_new s w q p
  keeps_saved (lost e) s w q p = h.save_lost s w p
  keeps_saved (torn e) s w q p = h.save_new s w q p

  pub Keeps-save_state : (s : State) → Q s → Keeps P (save_state env s)
  unfolding save_state
  Keeps-save_state s q = record { at = λ w p. keeps_saved (env.save_state w.history s) s w q p }

  -- The rest of the block may use that the state it loads has `Q`.
  pub Leads-load_state :
      {B : Type 0} {R : World → Type ℓ} (f : Try State → M B)
      → ((e : Err) → Leads P (f (err e)) R)
      → ((s : State) → Q s → Leads P (f (ok s)) R)
      → Leads P (load_state env >>= f) R
  unfolding ◌>>=◌ load_state call is_look
  Leads-load_state f ke ko = record {
    at = λ w p.
        loaded (env.load_state w.history) w f ke ko (h.stored w p)
          (h.looks.look state_loaded w refl p);
  }

module _ {ℓ} {Q : State → Type ℓ} {P : World → Type ℓ} (env : Env) (h : Acts Q P) where
  pub Keeps-checkout : (c : String) → Keeps P (run_git env (checkout c))
  unfolding run_git
  Keeps-checkout c = record {
    at = λ w p.
        h.move c (moved_tree env (checkout c) (env.run_git w.history (checkout c)) w.tree) w p;
  }
