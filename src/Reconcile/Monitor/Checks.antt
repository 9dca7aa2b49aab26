-- ===== src/Reconcile/Monitor/Checks.antt =====
-- When a check of the monitor looks away.
use mathlib.Core.Path.{subst}
use compose_lock.Prelude.{
  ◌%◌, ◌≡◌, ◌≢◌, ◌⊎◌, inl, inr, refl, sym, arith, String, false, Option, none, some, List, beq,
  Bool-cases, ℕ, true, ◌==◌, eq_iff,
}
use compose_lock.Errors.{Try, ok, err}
use compose_lock.State.{State, pending, paused}
use compose_lock.Health.{Snapshot}
use compose_lock.Notify.Sending.{Outside}
use compose_lock.Reconcile.Monitor.{
  Monitor, Setting, Look, is_watched, watched_from, take_snapshots, monitor_key, renew, judge_all,
  check_names, check_state, check,
}

-- Nobody is told of anything, and no incident begins.
pub record IsSilent (mon mon' : Monitor) : Type 0 where
  pub same_session : mon'.session ≡ mon.session
  pub same_incidents : mon'.incidents ≡ mon.incidents

-- An apply or a revert is pending, nothing was healthy yet, or deployments are paused.
unfoldable pub Unsettled : State → ℕ → Type 0
Unsettled st now =
    (st.pending_commit ≢ "")
    ⊎ ((st.pending_revert ≡ true) ⊎ ((st.last_healthy_commit ≡ "") ⊎ (paused st now ≡ true)))

-- A reconcile runs at the start of the check, or one ran during its snapshots, or the state that was
-- loaded is unsettled.
unfoldable pub Disturbed : Look → Type 0
Disturbed look =
    (look.before % 2 ≡ 1)
    ⊎ (look.after ≢ look.before)
    ⊎ ((st : State) × ((look.loaded ≡ ok st) × Unsettled st look.pause_now))

Unsettled-unwatched : (st : State) (now : ℕ) → Unsettled st now → is_watched st now ≡ false
unfolding Unsettled is_watched pending
Unsettled-unwatched st now (inl h) =
    let e : (st.pending_commit == "") ≡ false = ground (arith, eq_iff st.pending_commit "", h) in
    rw e refl
Unsettled-unwatched st now (inr (inl h)) = ground (arith, h)
Unsettled-unwatched st now (inr (inr (inl h))) =
    let e : (st.last_healthy_commit == "") ≡ true = (eq_iff st.last_healthy_commit "").1 h in
    ground (arith, e)
Unsettled-unwatched st now (inr (inr (inr h))) = ground (arith, h)

renew-IsSilent : (key : String) (mon : Monitor) → IsSilent mon (renew key mon)
unfolding renew
renew-IsSilent key mon = ground arith

module _ (net : Outside) (cfg : Setting) (look : Look) where
  judge_all-IsSilent :
      (st : State) (snaps : Option (List (String × Snapshot))) (mon mon' : Monitor)
      → look.after ≢ look.before
      → IsSilent mon mon'
      → IsSilent mon (judge_all net cfg look st snaps mon').1
  unfolding judge_all
  judge_all-IsSilent st none mon mon' moved h = h
  judge_all-IsSilent st (some snaps) mon mon' moved h =
      let e : beq look.after look.before ≡ false = ground (arith, moved) in rw e h

  check_names-IsSilent :
      (st : State) (names : Try (List String)) (mon : Monitor)
      → look.after ≢ look.before
      → IsSilent mon (check_names net cfg look st names mon).1
  unfolding check_names
  check_names-IsSilent st (err e) mon moved = record { same_session = refl; same_incidents = refl }
  check_names-IsSilent st (ok names) mon moved =
      judge_all-IsSilent st (take_snapshots look names) mon (renew (monitor_key st names) mon) moved
        (renew-IsSilent (monitor_key st names) mon)

  IsSilent-refl : (mon : Monitor) → IsSilent mon mon
  IsSilent-refl mon = record { same_session = refl; same_incidents = refl }

  check_state-moved :
      (loaded : Try State) (mon : Monitor)
      → look.after ≢ look.before
      → IsSilent mon (check_state net cfg look loaded mon).1
  unfolding check_state
  check_state-moved (err e) mon moved = IsSilent-refl mon
  check_state-moved (ok st) mon moved = elim (Bool-cases (is_watched st look.pause_now)) [
    | inr off ↦ rw off (IsSilent-refl mon)
    | inl on ↦
        rw on
          (check_names-IsSilent st (watched_from st.last_healthy_stacks look.discovered) mon moved)
  ]

  check_state-unwatched :
      (st : State) (mon : Monitor)
      → is_watched st look.pause_now ≡ false
      → IsSilent mon (check_state net cfg look (ok st) mon).1
  unfolding check_state
  check_state-unwatched st mon off = rw off (IsSilent-refl mon)

  check_even-IsSilent :
      (mon : Monitor)
      → beq (look.before % 2) 1 ≡ false
      → Disturbed look
      → IsSilent mon (check_state net cfg look look.loaded mon).1
  unfolding Disturbed
  check_even-IsSilent mon even (inl odd) = absurd (ground (arith, odd, even))
  check_even-IsSilent mon even (inr (inl moved)) = check_state-moved look.loaded mon moved
  check_even-IsSilent mon even (inr (inr (st, (e, h)))) =
      subst (λ l. IsSilent mon (check_state net cfg look l mon).1) (sym e)
        (check_state-unwatched st mon (Unsettled-unwatched st look.pause_now h))

-- A check posts no alert and begins no incident where a reconcile runs at its start or ran during it,
-- or the state that it loads has an apply or a revert pending, has no healthy commit, or is paused.
pub check-IsSilent :
    (net : Outside) (cfg : Setting) (look : Look) (mon : Monitor)
    → Disturbed look
    → IsSilent mon (check net cfg look mon).1
unfolding check
check-IsSilent net cfg look mon d = elim (Bool-cases (beq (look.before % 2) 1)) [
  | inl odd ↦ rw odd (IsSilent-refl net cfg look mon)
  | inr even ↦ rw even (check_even-IsSilent net cfg look mon even d)
]
