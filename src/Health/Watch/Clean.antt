-- ===== src/Health/Watch/Clean.antt =====
-- What a healthy verdict of the watch says of the polls that it saw.
use compose_lock.Prelude.{
  ℕ, ◌+◌, ◌≤◌, ◌<◌, String, ◌≡◌, ◌≢◌, refl, ◌⊎◌, inl, inr, true, false, not, ◌&&◌, ◌||◌, none, List,
  [], ◌∷◌, arith, ltb, ◌==◌, eq_iff, eq_refl, contains, sort, contains-sort, contains-keys-insert,
  insert, keys, All, Option-cases, Bool-cases,
}
use compose_lock.Errors.{Err, Try, ok, err, wrap}
use compose_lock.Health.{ContainerStatus, Snapshot, completed, healthy}
use compose_lock.Health.Verdict.{IsFine, evaluate-All}
use compose_lock.Health.Watch.{
  Options, WatchResult, Poll, Streaks, Step, go_on, fail, restart_delta, restarts_of, services_of,
  counts_of, ids, check_populated, first_missing, missing_containers, check_container,
  check_containers, check_poll, final_verdict, watch_loop, watch, failure, is_empty, no_streaks,
}

-- A container that ends no watch at a single poll.
pub record IsClean (opts : Options) (baseline : Snapshot) (c : ContainerStatus) : Type 0 where
  pub not_crashed : (c.state == "exited" && not (completed c)) ≡ false
  pub not_dead : (c.state == "dead") ≡ false
  pub not_removing : (c.state == "removing") ≡ false
  pub restarts_tolerated :
      restart_delta (restarts_of baseline.containers []) c ≤ opts.restart_tolerance

-- A poll at which no container of the baseline is missing and every container is clean.
pub record IsCleanPoll (opts : Options) (baseline cur : Snapshot) : Type 0 where
  pub populated : opts.expect_containers ≡ true → cur.containers ≢ []
  pub complete : All (λ c. contains (ids cur.containers) c.id ≡ true) baseline.containers
  pub clean : All (IsClean opts baseline) cur.containers

contains-keys-services_of :
    (cs : List ContainerStatus) (m : List (String × String)) (b : String)
    → contains (keys (services_of cs m)) b ≡ (contains (ids cs) b || contains (keys m) b)
unfolding services_of ids contains
contains-keys-services_of [] m b = refl
contains-keys-services_of (c ∷ cs) m b = ground (
  arith,
  contains-keys-services_of cs (insert c.id c.service m) b,
  contains-keys-insert c.id c.service m b,
)

first_missing-none :
    (names : List String) (services : List (String × String)) (counts : List (String × ℕ))
    (cur : Snapshot) (a : String)
    → first_missing names services counts cur ≡ none
    → contains names a ≡ true
    → contains (ids cur.containers) a ≡ true
unfolding first_missing contains
first_missing-none [] services counts cur a h m = cc
first_missing-none (x ∷ xs) services counts cur a h m =
    ground (arith, first_missing-none xs services counts cur a, eq_iff x a)

All_ids :
    (cs : List ContainerStatus) (cur : Snapshot)
    → ((a : String) → contains (ids cs) a ≡ true → contains (ids cur.containers) a ≡ true)
    → All (λ c. contains (ids cur.containers) c.id ≡ true) cs
unfolding ids contains
All_ids [] cur h = tt
All_ids (c ∷ cs) cur h =
    (h c.id (ground (arith, eq_refl c.id)), All_ids cs cur (λ a m. h a (ground arith)))

populated_of :
    (opts : Options) (cur : Snapshot)
    → check_populated cur opts ≡ none
    → opts.expect_containers ≡ true
    → cur.containers ≢ []
unfolding check_populated is_empty
populated_of opts cur h e = ground arith

check_container-IsClean :
    (opts : Options) (baseline : Snapshot) (c : ContainerStatus) (st st' : Streaks)
    → check_container opts (restarts_of baseline.containers []) c st ≡ go_on st'
    → IsClean opts baseline c
unfolding check_container
check_container-IsClean opts baseline c st st' h = ground arith

pub Step-cases :
    (s : Step) → ((st : Streaks) × (s ≡ go_on st)) ⊎ ((reason : String) × (s ≡ fail reason))
Step-cases (go_on st) = inl (st, refl)
Step-cases (fail reason) = inr (reason, refl)

-- The loop over the containers goes on only if it went on at the first and at the others.
pub check_containers-cons :
    (opts : Options) (baseline : List (String × ℕ)) (c : ContainerStatus)
    (cs : List ContainerStatus) (st st' : Streaks)
    → check_containers opts baseline (c ∷ cs) st ≡ go_on st'
    → (mid : Streaks) × (check_container opts baseline c st ≡ go_on mid)
      × (check_containers opts baseline cs mid ≡ go_on st')
unfolding check_containers
check_containers-cons opts baseline c cs st st' h =
    elim (Step-cases (check_container opts baseline c st)) [
      | inl (mid, e) ↦ (mid, e, rw (e, check_containers) at h)
      | inr (reason, e) ↦ cc (rw (e, check_containers) at h)
    ]

check_containers-All :
    (opts : Options) (baseline : Snapshot) (cs : List ContainerStatus) (st st' : Streaks)
    → check_containers opts (restarts_of baseline.containers []) cs st ≡ go_on st'
    → All (IsClean opts baseline) cs
check_containers-All opts baseline [] st st' h = tt
check_containers-All opts baseline (c ∷ cs) st st' h =
    let (mid, e, f) =
      check_containers-cons opts (restarts_of baseline.containers []) c cs st st' h in
    (
      check_container-IsClean opts baseline c st mid e,
      check_containers-All opts baseline cs mid st' f,
    )

-- What a poll that ends nothing has passed, by its three stages.
pub check_poll-go_on :
    (opts : Options) (baseline cur : Snapshot) (st st' : Streaks)
    → check_poll opts baseline cur st ≡ go_on st'
    → (check_populated cur opts ≡ none)
      × (missing_containers
            (services_of baseline.containers [])
            (counts_of baseline.containers [])
            cur
          ≡ none)
      × (check_containers opts (restarts_of baseline.containers []) cur.containers st ≡ go_on st')
unfolding check_poll
check_poll-go_on opts baseline cur st st' h = ground arith

pub check_poll-IsCleanPoll :
    (opts : Options) (baseline cur : Snapshot) (st st' : Streaks)
    → check_poll opts baseline cur st ≡ go_on st'
    → IsCleanPoll opts baseline cur
unfolding missing_containers
check_poll-IsCleanPoll opts baseline cur st st' h =
    let (filled, complete, clean) = check_poll-go_on opts baseline cur st st' h in
    record {
      populated = populated_of opts cur filled;
      complete = All_ids baseline.containers cur (λ a m.
          first_missing-none (sort (keys (services_of baseline.containers [])))
            (services_of baseline.containers []) (counts_of baseline.containers []) cur a complete
            (ground (
              arith,
              contains-sort (keys (services_of baseline.containers [])) a,
              contains-keys-services_of baseline.containers [] a,
            )));
      clean = check_containers-All opts baseline cur.containers st st' clean;
    }

-- The polls up to the one that closes the window: each is clean, the others come before the
-- deadline, and at the last one every container has finished, is between restarts, or is running
-- with a healthcheck that passes.
abbrev pub Passes : Options → Snapshot → ℕ → List Poll → Type 0
Passes opts baseline deadline [] = ⊥
Passes opts baseline deadline (p ∷ ps) =
    (cur : Snapshot) × (p.snapshot ≡ ok cur)
    × IsCleanPoll opts baseline cur
    × ((deadline ≤ p.now) × All (IsFine false true) cur.containers
        ⊎ (p.now < deadline) × Passes opts baseline deadline ps)

final_verdict-healthy :
    (baseline last : Snapshot) (r : WatchResult)
    → ok (final_verdict baseline last) ≡ ok r
    → r.outcome ≡ healthy
    → All (IsFine false true) last.containers
unfolding final_verdict
final_verdict-healthy baseline last r e h = (evaluate-All last false true).0 (ground arith)

pub Try-cases {ℓ} : {A : Type ℓ} (t : Try A) → ((a : A) × (t ≡ ok a)) ⊎ ((e : Err) × (t ≡ err e))
Try-cases (ok a) = inl (a, refl)
Try-cases (err e) = inr (e, refl)

-- What a watch that returns has seen at its next poll.
pub data Polled (opts : Options) (baseline : Snapshot) (deadline : ℕ) (p : Poll) (ps : List Poll)
    (st : Streaks) (result : Try WatchResult) : Type 0 where
  blind :
      (e : Err)
      → p.snapshot ≡ err e
      → result ≡ err (wrap "health snapshot" e)
      → Polled opts baseline deadline p ps st result
  broke :
      (cur : Snapshot) (reason : String)
      → p.snapshot ≡ ok cur
      → check_poll opts baseline cur st ≡ fail reason
      → result ≡ ok (failure baseline reason)
      → Polled opts baseline deadline p ps st result
  closed :
      (cur : Snapshot) (st' : Streaks)
      → p.snapshot ≡ ok cur
      → check_poll opts baseline cur st ≡ go_on st'
      → deadline ≤ p.now
      → result ≡ ok (final_verdict baseline cur)
      → Polled opts baseline deadline p ps st result
  waits :
      (cur : Snapshot) (st' : Streaks)
      → p.snapshot ≡ ok cur
      → check_poll opts baseline cur st ≡ go_on st'
      → p.now < deadline
      → result ≡ watch_loop opts baseline deadline ps st'
      → Polled opts baseline deadline p ps st result

pub watch_loop-Polled :
    (opts : Options) (baseline : Snapshot) (deadline : ℕ) (p : Poll) (ps : List Poll) (st : Streaks)
    → Polled opts baseline deadline p ps st (watch_loop opts baseline deadline (p ∷ ps) st)
unfolding watch_loop
watch_loop-Polled opts baseline deadline p ps st = elim (Try-cases p.snapshot) [
  | inr (e, f) ↦ blind e f (rw (f, watch_loop))
  | inl (cur, f) ↦ elim (Step-cases (check_poll opts baseline cur st)) [
    | inr (reason, g) ↦ broke cur reason f g (rw (f, watch_loop) (rw g))
    | inl (st', g) ↦ elim (Bool-cases (ltb p.now deadline)) [
      | inl b ↦ waits cur st' f g (ground arith) (rw (f, watch_loop) (rw g (rw b)))
      | inr b ↦ closed cur st' f g (ground arith) (rw (f, watch_loop) (rw g (rw b)))
    ]
  ]
]

watch_loop-Passes :
    (opts : Options) (baseline : Snapshot) (deadline : ℕ) (polls : List Poll) (st : Streaks)
    (r : WatchResult)
    → watch_loop opts baseline deadline polls st ≡ ok r
    → r.outcome ≡ healthy
    → Passes opts baseline deadline polls
watch_loop-Passes opts baseline deadline [] st r h good = unfold watch_loop in cc h
watch_loop-Passes opts baseline deadline (p ∷ ps) st r h good =
    elim (watch_loop-Polled opts baseline deadline p ps st) [
      | blind e f g ↦ cc
      | broke cur reason f g k ↦ ground arith
      | closed cur st' f g late k ↦ (
        cur,
        f,
        check_poll-IsCleanPoll opts baseline cur st st' g,
        inl (late, final_verdict-healthy baseline cur r (cc) good),
      )
      | waits cur st' f g early k ↦ (
        cur,
        f,
        check_poll-IsCleanPoll opts baseline cur st st' g,
        inr (early, watch_loop-Passes opts baseline deadline ps st' r (cc) good),
      )
    ]

-- A watch that is not switched off and ends healthy has seen at least one poll; at every poll up to
-- the one that closed the window each container of the baseline was present, none had crashed, died
-- or restarted beyond the tolerance; and at the poll that closed the window each container had
-- finished, was between restarts, or was running with a healthcheck that passes.
pub watch-Passes :
    (opts : Options) (baseline : Snapshot) (start : ℕ) (polls : List Poll) (r : WatchResult)
    → 0 < opts.watch_duration
    → watch opts (ok baseline) start polls ≡ ok r
    → r.outcome ≡ healthy
    → Passes opts baseline (start + opts.watch_duration) polls
unfolding watch
watch-Passes opts baseline start polls r on h good =
    elim (Option-cases (check_populated baseline opts)) [
      | inr (reason, e) ↦ ground arith
      | inl e ↦
          watch_loop-Passes opts baseline (start + opts.watch_duration) polls no_streaks r
            (ground arith) good
    ]
