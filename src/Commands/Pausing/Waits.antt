-- ===== src/Commands/Pausing/Waits.antt =====
-- The wait for the lock.
use compose_lock.Prelude.{
  ◌∷◌, ◌⊎◌, inl, inr, ℕ, zero, suc, ◌<◌, ◌≡◌, refl, arith, Bool, true, false, not, ◌||◌, Option,
  none, some, is_some, Bool-cases,
}
use compose_lock.Errors.{Err, Try, ok, err}
use compose_lock.State.{State}
use compose_lock.World.{World, M, History, pure, call, ◌>>=◌, Env, sleep_ctx, lock_tried, slept}
use compose_lock.Commands.Pausing.{tried, slept_on, wait_for_lock, after_wait, update_state}

-- What a wait has tried and slept.
unfoldable pub waited : ℕ → History → History
waited zero h = h
waited (suc k) h = waited k (slept ∷ lock_tried ∷ h)

module _ (env : Env) where
  is_refused : Try Bool → Bool
  is_refused (ok false) = true
  is_refused _ = false

  -- A try that ends the wait: the lock is free, or fails, or the sleep after it is cut short.
  unfoldable pub settles : History → Bool
  unfolding is_refused
  settles h = not (is_refused (env.try_lock h)) || not (env.sleep (lock_tried ∷ h))

  tried-some :
      (again : M (Option (Option Err))) (held : Try Bool) (w : World)
      → is_refused held ≡ false
      → is_some (tried env again held w).0 ≡ true
  unfolding tried is_refused pure
  tried-some again (err e) w h = refl
  tried-some again (ok true) w h = refl
  tried-some again (ok false) w h = absurd (cc)

  tried_once : World → World
  tried_once w = record w { history = lock_tried ∷ w.history }

  after_wait-some :
      {A : Type 0} (change : State → M (A × State)) (r : Option (Option Err)) (w : World)
      → is_some r ≡ true
      → is_some (after_wait env change r w).0 ≡ true
  unfolding after_wait pure ◌>>=◌ call
  after_wait-some change none w h = absurd (ground (arith, h))
  after_wait-some change (some none) w h = refl
  after_wait-some change (some (some e)) w h = refl

  refused_or_not : (held : Try Bool) → (held ≡ ok false) ⊎ (is_refused held ≡ false)
  unfolding is_refused
  refused_or_not (err e) = inr refl
  refused_or_not (ok true) = inr refl
  refused_or_not (ok false) = inl refl

  wait_for_lock-settles :
      (k fuel : ℕ) (w : World)
      → settles (waited k w.history) ≡ true
      → k < fuel
      → is_some (wait_for_lock env fuel w).0 ≡ true
  unfolding wait_for_lock settles tried_once waited call sleep_ctx pure ◌>>=◌ tried slept_on
      is_refused
  wait_for_lock-settles k zero w s l = absurd (ground (arith, l))
  wait_for_lock-settles zero (suc fuel) w s l = elim (refused_or_not (env.try_lock w.history)) [
    | inr free ↦ tried-some (wait_for_lock env fuel) (env.try_lock w.history) (tried_once w) free
    | inl refused ↦
        let cut : env.sleep (lock_tried ∷ w.history) ≡ false =
          let s' = rw refused at s in ground (arith, s') in
        rw (refused, cut) refl
  ]
  wait_for_lock-settles (suc k) (suc fuel) w s l = elim (refused_or_not (env.try_lock w.history)) [
    | inr free ↦ tried-some (wait_for_lock env fuel) (env.try_lock w.history) (tried_once w) free
    | inl refused ↦ elim (Bool-cases (env.sleep (lock_tried ∷ w.history))) [
      | inr cut ↦ rw (refused, cut) refl
      | inl awake ↦
          let later : World = record w { history = slept ∷ lock_tried ∷ w.history } in
          let less : k < fuel = ground (arith, l) in
          rw (refused, awake) (wait_for_lock-settles k fuel later s less)
    ]
  ]

-- A command that changes the state comes back from its wait: where the lock is free, or fails, or the
-- sleep is cut short, at the k-th try at the latest that it makes, it ends with a result.
pub update_state-returns :
    (env : Env) {A : Type 0} (change : State → M (A × State)) (k fuel : ℕ) (w : World)
    → settles env (waited k w.history) ≡ true
    → k < fuel
    → is_some (update_state env change fuel w).0 ≡ true
unfolding update_state ◌>>=◌
update_state-returns env change k fuel w s l =
    after_wait-some env change (wait_for_lock env fuel w).0 (wait_for_lock env fuel w).1
      (wait_for_lock-settles env k fuel w s l)
