-- ===== src/Commands/Pausing/Holds.antt =====
-- What a pause and a resume leave on disk, and what the next runs make of it.
use mathlib.Core.Path.{subst}
use compose_lock.Prelude.{
  ℕ, zero, suc, ◌<◌, ◌≡◌, ◌≢◌, ◌⊎◌, inl, inr, refl, sym, ◌∙◌, ap, arith, String, Bool, true, false,
  Option, none, some, ◌∷◌,
}
use compose_lock.Prelude.Int.{ℤ}
use compose_lock.Errors.{Err, Try, ok, err}
use compose_lock.Config.{Config}
use compose_lock.State.{State, paused, pause, resume}
use compose_lock.World.{
  World, M, SaveOutcome, saved, lost, torn, pure, call, ◌>>=◌, Env, load_state, load_answer,
  save_state, save_error, disk_after, read_clock, sleep_ctx, lock_tried, slept, clock_read,
  state_loaded,
}
use compose_lock.Reconcile.{Options}
use compose_lock.Reconcile.Run.{reconcile_locked}
use compose_lock.Reconcile.Run.Guards.{IsPausedRun, reconcile_locked-paused}
use compose_lock.Commands.{Exit}
use compose_lock.Commands.Pausing.{
  slept_on, tried, wait_for_lock, outcome, changed, after_wait, update_state, pause_end, failure,
  pausing, ended_pause, cmd_pause, resuming, ended_resume, cmd_resume,
}

module _ (env : Env) where
  KeepsDisk : M (Option (Option Err)) → Type 0
  KeepsDisk m = (w : World) → (m w).1.disk ≡ w.disk

  slept_on-KeepsDisk :
      (again : M (Option (Option Err))) (awake : Bool)
      → KeepsDisk again
      → KeepsDisk (slept_on env again awake)
  unfolding KeepsDisk slept_on pure
  slept_on-KeepsDisk again true keeps w = keeps w
  slept_on-KeepsDisk again false keeps w = refl

  tried-KeepsDisk :
      (again : M (Option (Option Err))) (held : Try Bool)
      → KeepsDisk again
      → KeepsDisk (tried env again held)
  unfolding KeepsDisk tried pure sleep_ctx call ◌>>=◌
  tried-KeepsDisk again (err e) keeps w = refl
  tried-KeepsDisk again (ok true) keeps w = refl
  tried-KeepsDisk again (ok false) keeps w =
      slept_on-KeepsDisk again (env.sleep w.history) keeps
        (record w { history = slept ∷ w.history })

  wait_for_lock-KeepsDisk : (fuel : ℕ) → KeepsDisk (wait_for_lock env fuel)
  unfolding KeepsDisk wait_for_lock call pure ◌>>=◌
  wait_for_lock-KeepsDisk zero w = refl
  wait_for_lock-KeepsDisk (suc fuel) w =
      tried-KeepsDisk (wait_for_lock env fuel) (env.try_lock w.history)
        (wait_for_lock-KeepsDisk fuel) (record w { history = lock_tried ∷ w.history })

  -- What a change leaves on disk, of what was there, where no step of it failed.
  module _ {A : Type 0} (change : State → M (A × State)) where
    Changed : State → A → State → Type 0
    Changed before a after = (v : World) × ((v.disk ≡ before) × ((change before v).0 ≡ (a, after)))

    outcome-saved :
        (a b : A) (o : SaveOutcome) (next old : State)
        → outcome env change a (save_error env o) ≡ ok b
        → (a ≡ b) × (disk_after env o next old ≡ next)
    unfolding outcome save_error disk_after
    outcome-saved a b saved next old p = (cc, refl)
    outcome-saved a b (lost e) next old p = absurd (cc)
    outcome-saved a b (torn e) next old p = absurd (cc)

    changed-Changed :
        (v : World) (a : A)
        → (changed env change (ok v.disk) v).0 ≡ ok a
        → Changed v.disk a (changed env change (ok v.disk) v).1.disk
    unfolding changed Changed ◌>>=◌ pure save_state
    changed-Changed v a p =
        let made = change v.disk v in
        let (got, kept) =
          outcome-saved made.0.0 a (env.save_state made.1.history made.0.1) made.0.1 made.1.disk
            p in
        (v, (refl, cc))

    loaded-Changed :
        (o : Option Err) (v : World) (a : A)
        → (changed env change (load_answer env o v.disk) v).0 ≡ ok a
        → Changed v.disk a (changed env change (load_answer env o v.disk) v).1.disk
    unfolding changed Changed load_answer pure
    loaded-Changed none v a p = changed-Changed v a p
    loaded-Changed (some e) v a p = absurd (cc)

    after_wait-Changed :
        (r : Option (Option Err)) (v : World) (a : A)
        → (after_wait env change r v).0 ≡ some (ok a)
        → Changed v.disk a (after_wait env change r v).1.disk
    unfolding after_wait ◌>>=◌ pure load_state call
    after_wait-Changed none v a p = absurd (cc)
    after_wait-Changed (some (some e)) v a p = absurd (cc)
    after_wait-Changed (some none) v a p =
        let v' : World = record v { history = state_loaded ∷ v.history } in
        let r = changed env change (load_answer env (env.load_state v.history) v.disk) v' in
        let q : r.0 ≡ ok a = cc in loaded-Changed (env.load_state v.history) v' a q

    update_state-Changed :
        (fuel : ℕ) (w : World) (a : A)
        → (update_state env change fuel w).0 ≡ some (ok a)
        → Changed w.disk a (update_state env change fuel w).1.disk
    unfolding update_state ◌>>=◌ KeepsDisk
    update_state-Changed fuel w a p =
        let (r, v) = wait_for_lock env fuel w in
        subst (λ s. Changed s a (after_wait env change r v).1.disk) (wait_for_lock-KeepsDisk fuel w)
          (after_wait-Changed r v a p)

  ended_pause-ok :
      (show_time : ℕ → String) (until : ℕ) (reason : String) (r : Option (Try (Unit {0})))
      (e : Exit)
      → ended_pause env show_time until reason r ≡ some e
      → e.code ≡ 0
      → r ≡ some (ok tt)
  unfolding ended_pause failure
  ended_pause-ok show_time until reason none e p z = absurd (cc)
  ended_pause-ok show_time until reason (some (err x)) e p z = absurd (
      let q : 1 ≡ e.code = ap (λ o. elim o [ none ↦ 0 | some x' ↦ x'.code ]) p in
      ground (arith, q, z))
  ended_pause-ok show_time until reason (some (ok tt)) e p z = refl

  cmd_pause-disk :
      (show_time : ℕ → String) (fuel : ℕ) (pause_for : ℤ) (reason : String) (w : World) (e : Exit)
      → (cmd_pause env show_time fuel pause_for reason w).0 ≡ some e
      → e.code ≡ 0
      → (cmd_pause env show_time fuel pause_for reason w).1.disk
        ≡ pause w.disk (env.now w.history) (pause_end (env.now w.history) pause_for) reason
  unfolding cmd_pause ◌>>=◌ pure read_clock call Changed pausing
  cmd_pause-disk show_time fuel pause_for reason w e p z =
      let now = env.now w.history in
      let until = pause_end now pause_for in
      let w' : World = record w { history = clock_read ∷ w.history } in
      let r = update_state env (pausing env now until reason) fuel w' in
      let (v, (same, made)) =
        update_state-Changed (pausing env now until reason) fuel w' tt
          (ended_pause-ok show_time until reason r.0 e p z) in
      sym (ap (λ x. x.1) made)

  ended_resume-ok :
      (r : Option (Try Bool)) (e : Exit)
      → ended_resume env r ≡ some e
      → e.code ≡ 0
      → (was : Bool) × (r ≡ some (ok was))
  unfolding ended_resume failure
  ended_resume-ok none e p z = absurd (cc)
  ended_resume-ok (some (err x)) e p z = absurd (
      let q : 1 ≡ e.code = ap (λ o. elim o [ none ↦ 0 | some x' ↦ x'.code ]) p in
      ground (arith, q, z))
  ended_resume-ok (some (ok b)) e p z = (b, refl)

  cmd_resume-disk :
      (fuel : ℕ) (w : World) (e : Exit)
      → (cmd_resume env fuel w).0 ≡ some e
      → e.code ≡ 0
      → (cmd_resume env fuel w).1.disk ≡ resume w.disk
  unfolding cmd_resume ◌>>=◌ pure read_clock call Changed resuming
  cmd_resume-disk fuel w e p z =
      let r = update_state env (resuming env) fuel w in
      let (was, back) = ended_resume-ok r.0 e p z in
      let (v, (same, made)) = update_state-Changed (resuming env) fuel w was back in
      sym (ap (λ x. x.1) made)

resume-pause :
    (s : State) (at until : ℕ) (reason : String) → resume (pause s at until reason) ≡ resume s
unfolding resume pause
resume-pause s at until reason = refl

not_paused-resume : (s : State) (now : ℕ) → paused (resume s) now ≡ false
unfolding paused resume
not_paused-resume s now = refl

paused-pause :
    (s : State) (at until now : ℕ) (reason : String)
    → at ≢ 0
    → (until ≡ 0) ⊎ (now < until)
    → paused (pause s at until reason) now ≡ true
unfolding paused pause
paused-pause s at until now reason set (inl ever) = ground (arith, set, ever)
paused-pause s at until now reason set (inr before) = ground (arith, set, before)

-- A `pause` that ends with code 0 keeps the runs that follow from deploying: where the state on disk
-- is the one that it left and can be loaded, and the pause has no end or the clock is before it, a run
-- only looks. The clock was not at its zero when the pause began.
pub cmd_pause-IsPausedRun :
    (env : Env) (cfg : Config) (opts : Options) (show_time : ℕ → String) (fuel : ℕ) (pause_for : ℤ)
    (reason : String) (w v : World) (e : Exit)
    → (cmd_pause env show_time fuel pause_for reason w).0 ≡ some e
    → e.code ≡ 0
    → v.disk ≡ (cmd_pause env show_time fuel pause_for reason w).1.disk
    → env.load_state v.history ≡ none
    → env.now w.history ≢ 0
    → (pause_end (env.now w.history) pause_for ≡ 0)
      ⊎ (env.now (state_loaded ∷ v.history) < pause_end (env.now w.history) pause_for)
    → IsPausedRun v (reconcile_locked env cfg opts v)
cmd_pause-IsPausedRun env cfg opts show_time fuel pause_for reason w v e p z same loads set before =
    let left = same ∙ cmd_pause-disk env show_time fuel pause_for reason w e p z in
    let at = env.now w.history in
    let now = env.now (state_loaded ∷ v.history) in
    reconcile_locked-paused env cfg opts v loads (
      ap (λ s. paused s now) left
      ∙ paused-pause w.disk at (pause_end at pause_for) now reason set before)

-- A `resume` that ends with code 0 undoes a `pause` that did so before, whatever time and reason it
-- had: the state on disk is the one that a resume alone would have left, and it is paused at no time.
pub cmd_resume-cmd_pause :
    (env : Env) (show_time : ℕ → String) (fuel more_fuel : ℕ) (pause_for : ℤ) (reason : String)
    (w v : World) (e d : Exit)
    → (cmd_pause env show_time fuel pause_for reason w).0 ≡ some e
    → e.code ≡ 0
    → v.disk ≡ (cmd_pause env show_time fuel pause_for reason w).1.disk
    → (cmd_resume env more_fuel v).0 ≡ some d
    → d.code ≡ 0
    → ((cmd_resume env more_fuel v).1.disk ≡ resume w.disk)
      × ((now : ℕ) → paused (cmd_resume env more_fuel v).1.disk now ≡ false)
cmd_resume-cmd_pause env show_time fuel more_fuel pause_for reason w v e d p z same q y =
    let left = same ∙ cmd_pause-disk env show_time fuel pause_for reason w e p z in
    let at = env.now w.history in
    let back =
      cmd_resume-disk env more_fuel v d q y
      ∙ ap resume left
      ∙ resume-pause w.disk at (pause_end at pause_for) reason in
    (back, λ now. ap (λ s. paused s now) back ∙ not_paused-resume w.disk now)
