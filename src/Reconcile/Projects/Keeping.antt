-- ===== src/Reconcile/Projects/Keeping.antt =====
-- What the loops over stacks leave alone.
use compose_lock.Prelude.{
  ◌≡◌, refl, Bool, true, false, String, Option, none, some, List, [], ◌∷◌, ◌++◌,
}
use compose_lock.Errors.{Err, Try, ok, err}
use compose_lock.Compose.{Stack, Project}
use compose_lock.World.{World, M, Env, Event, up, down, compose_up, compose_down, call}
use compose_lock.World.Rules.{Keeps, Keeps-bind, Keeps-pure, Keeps-gets}
use compose_lock.World.Keeping.{Looks, Keeps-bind_option, looking_rules}
use compose_lock.Reconcile.Stacks.{service_names}
use compose_lock.Reconcile.Projects.{
  Loaded, load_failed, env_failed, raised, up_failed, torn, teardown_error, after_check, Teardown,
  after_load, load_all, up_all, teardown_loop, tear_down_stacks,
}

module _ {ℓ} {P : World → Type ℓ} (env : Env) (h : Looks P) where
  Keeps-after_check :
      (s : Stack) (next : M Loaded) (o : Option Err)
      → Keeps P next
      → Keeps P (after_check env s next o)
  unfolding after_check
  Keeps-after_check s next (some e) k = Keeps-pure (env_failed s e)
  Keeps-after_check s next none k = k

  Keeps-after_load :
      (s : Stack) (next : Project → M Loaded) (answer : Try Project)
      → ((p : Project) → Keeps P (next p))
      → Keeps P (after_load env s next answer)
  unfolding after_load
  Keeps-after_load s next (err e) k = Keeps-pure (load_failed s e)
  Keeps-after_load s next (ok p) k =
      Keeps-bind _ _ (Keeps-gets _) (λ fs. Keeps-after_check s (next p) _ (k p))

  pub Keeps-load_all : (ss : List Stack) → Keeps P (load_all env ss)
  unfolding load_all
  Keeps-load_all [] = search looking_rules
  Keeps-load_all (s ∷ ss) =
      let rest = Keeps-load_all ss in
      Keeps-bind _ _ (search looking_rules) (λ answer.
        Keeps-after_load s _ answer (λ p. Keeps-bind _ _ rest (λ l. search looking_rules)))

-- An event that brings a project up.
unfoldable pub is_up : Event → Bool
is_up (up n t s) = true
is_up _ = false

-- `P` outlives every event but that.
pub record Works {ℓ} (P : World → Type ℓ) : Type ℓ where
  pub event :
      (e : Event) (w : World) → is_up e ≡ false → P w → P (record w { history = e ∷ w.history })

-- And that one, too.
pub record Raises {ℓ} (P : World → Type ℓ) : Type ℓ where
  pub works : Works P
  pub raise :
      (name : String) (w : World)
      → P w
      → P (record w { history = up name w.tree w.disk ∷ w.history })

module _ {ℓ} {P : World → Type ℓ} (env : Env)
    (raise : (name : String) (w : World)
      → P w
      → P (record w { history = up name w.tree w.disk ∷ w.history })) where
  Keeps-compose_up : (p : Project) → Keeps P (compose_up env p)
  unfolding compose_up
  Keeps-compose_up p = record { at = λ w k. raise p.name w k }

  pub Keeps-up_all :
      (services : List String) (ps : List (Stack × Project)) → Keeps P (up_all env services ps)
  unfolding up_all
  Keeps-up_all services [] = Keeps-pure (raised services)
  Keeps-up_all services ((s, p) ∷ rest) =
      Keeps-bind_option _ _ (Keeps-compose_up p) (Keeps-up_all (services ++ service_names p) rest)
        (λ e. Keeps-pure (up_failed s e))

module _ {ℓ} {P : World → Type ℓ} (env : Env) (h : Works P) where
  Keeps-compose_down : (name : String) → Keeps P (compose_down env name)
  unfolding compose_down call is_up
  Keeps-compose_down name = record { at = λ w k. h.event (down name) w refl k }

  Keeps-teardown_loop : (t : Teardown) (ss : List Stack) → Keeps P (teardown_loop env t ss)
  unfolding teardown_loop
  Keeps-teardown_loop t [] = Keeps-pure (teardown_error t)
  Keeps-teardown_loop t (s ∷ ss) =
      Keeps-bind _ _ (Keeps-compose_down s.project_name)
        (λ failure. Keeps-teardown_loop (torn s.project_name failure t) ss)

  pub Keeps-tear_down_stacks : (ss : List Stack) → Keeps P (tear_down_stacks env ss)
  unfolding tear_down_stacks
  Keeps-tear_down_stacks ss = Keeps-teardown_loop _ ss
