-- ===== src/Reconcile/Run/Journal.antt =====
-- Histories in which each project was brought up at a checkout that the state file named.
use compose_lock.Prelude.{◌≡◌, refl, ◌⊎◌, arith, true, false, [], ◌∷◌}
use compose_lock.State.{State, mark_failed, record_deployment}
use compose_lock.World.{
  World, Event, History, up, down, pulled, git, state_saved, state_loaded, clock_read, slept,
  project_loaded, snapshot_taken, lock_tried, lock_released, pinged, watched,
}
use compose_lock.World.Keeping.{is_look}
use compose_lock.World.Acting.{Saves}
use compose_lock.Reconcile.Change.{
  Change, attempted, checked_out, unblocked, blocked, counted, given_up, interrupted, went_back,
  begun, blamed, apply_failed, target_checked_out, forced, entered,
}
use compose_lock.Reconcile.Projects.Keeping.{is_up}
use compose_lock.Reconcile.Revert.{degraded_state, interrupted_state, reverted_state}
use compose_lock.Reconcile.Apply.{pending_state}

-- Each project was brought up at a checkout that the state file named at that moment.
abbrev pub IsJournalled : History → Type 0
IsJournalled [] = Unit
IsJournalled (up name tree disk ∷ es) =
    ((disk.pending_commit ≡ tree) ⊎ (disk.last_healthy_commit ≡ tree)) × IsJournalled es
IsJournalled (e ∷ es) = IsJournalled es

pub IsJournalled-event :
    (e : Event) (es : History) → is_up e ≡ false → IsJournalled es → IsJournalled (e ∷ es)
unfolding is_up
IsJournalled-event (git c) es f j = j
IsJournalled-event state_loaded es f j = j
IsJournalled-event clock_read es f j = j
IsJournalled-event slept es f j = j
IsJournalled-event (project_loaded n) es f j = j
IsJournalled-event (snapshot_taken n) es f j = j
IsJournalled-event lock_tried es f j = j
IsJournalled-event lock_released es f j = j
IsJournalled-event pinged es f j = j
IsJournalled-event (state_saved s) es f j = j
IsJournalled-event (pulled n) es f j = j
IsJournalled-event (up n t s) es f j = ground (arith, f)
IsJournalled-event (down n) es f j = j
IsJournalled-event (watched c o) es f j = j

pub look_is_no_up : (e : Event) → is_look e ≡ true → is_up e ≡ false
unfolding is_up is_look
look_is_no_up (up n t s) q = ground (arith, q)
look_is_no_up (git c) q = refl
look_is_no_up state_loaded q = refl
look_is_no_up clock_read q = refl
look_is_no_up slept q = refl
look_is_no_up (project_loaded n) q = refl
look_is_no_up (snapshot_taken n) q = refl
look_is_no_up lock_tried q = refl
look_is_no_up lock_released q = refl
look_is_no_up pinged q = refl
look_is_no_up (state_saved s) q = refl
look_is_no_up (pulled n) q = refl
look_is_no_up (down n) q = refl
look_is_no_up (watched c o) q = refl

-- Only a promotion changes the last healthy commit.
pub Change-last_healthy : {s t : State} → Change s t → t.last_healthy_commit ≡ s.last_healthy_commit
unfolding degraded_state interrupted_state reverted_state pending_state mark_failed
    record_deployment
Change-last_healthy (attempted o at d) = refl
Change-last_healthy (checked_out at d) = refl
Change-last_healthy unblocked = refl
Change-last_healthy blocked = refl
Change-last_healthy counted = refl
Change-last_healthy (given_up at d) = ground arith
Change-last_healthy (interrupted at d ns) = ground arith
Change-last_healthy (went_back at d t) = ground arith
Change-last_healthy (begun at d ns) = ground arith
Change-last_healthy (blamed at d) = ground arith
Change-last_healthy apply_failed = refl
Change-last_healthy (target_checked_out t) = refl
Change-last_healthy (forced at) = refl
Change-last_healthy (entered d) = ground arith

unfoldable pub Journalled : World → Type 0
Journalled w = IsJournalled w.history

pub Journalled-saves : Saves (λ _. Unit) Journalled
unfolding Journalled
Journalled-saves = record {
  looks = record { look = λ e w q p. IsJournalled-event e w.history (look_is_no_up e q) p };
  memory = λ w p. tt;
  stored = λ w p. tt;
  put = λ s w q p. p;
  save_new = λ s w q p. p;
  save_lost = λ s w p. p;
}
