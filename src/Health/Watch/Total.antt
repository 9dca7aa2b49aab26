-- ===== src/Health/Watch/Total.antt =====
-- The watch ends: its loop sees a number of polls that its window and its interval bound.
use compose_lock.Prelude.{
  ℕ, ◌+◌, ◌*◌, ◌≤◌, ◌<◌, ◌≡◌, inl, inr, List, [], ◌∷◌, ◌++◌, arith, length, Option-cases,
  Bool-cases, ltb,
}
use compose_lock.Errors.{ok}
use compose_lock.Health.{Snapshot}
use compose_lock.Health.Watch.{
  Options, WatchResult, Poll, Streaks, check_populated, check_poll, final_verdict, watch_loop,
  watch, failure, no_streaks,
}
use compose_lock.Health.Watch.Clean.{Step-cases}

-- Polls whose snapshots all answer, each at least an interval after the one before.
abbrev pub IsPaced : ℕ → ℕ → List Poll → Type 0
IsPaced interval t [] = Unit
IsPaced interval t (p ∷ ps) =
    ((cur : Snapshot) × (p.snapshot ≡ ok cur)) × (t + interval ≤ p.now) × IsPaced interval p.now ps

-- The loop returns one result, whatever polls would come after the given ones.
Settles : Options → Snapshot → ℕ → List Poll → Streaks → Type 0
Settles opts baseline deadline polls st =
    (r : WatchResult) × ((more : List Poll)
      → watch_loop opts baseline deadline (polls ++ more) st ≡ ok r)

watch_loop-Settles :
    (opts : Options) (baseline : Snapshot) (deadline : ℕ) (polls : List Poll) (st : Streaks)
    (interval t : ℕ)
    → IsPaced interval t polls
    → t < deadline
    → deadline ≤ t + length polls * interval
    → Settles opts baseline deadline polls st
unfolding Settles watch_loop
watch_loop-Settles opts baseline deadline [] st i t paced early enough = absurd (omega arith)
watch_loop-Settles opts baseline deadline (p ∷ ps) st i t ((cur, f), later, paced) early enough =
    elim (Step-cases (check_poll opts baseline cur st)) [
      | inr (reason, g) ↦ (failure baseline reason, λ more. rw f (rw g))
      | inl (st', g) ↦ elim (Bool-cases (ltb p.now deadline)) [
        | inr b ↦ (final_verdict baseline cur, λ more. rw f (rw g (rw b)))
        | inl b ↦
            let (r, k) =
              watch_loop-Settles opts baseline deadline ps st' i p.now paced (ground arith)
                (omega arith) in
            (r, λ more. rw f (rw g (rw b (k more))))
      ]
    ]

-- A watch whose snapshots answer and whose clock gains at least an interval from poll to poll
-- returns a verdict, and needs no poll beyond the first n for which n intervals fill the window.
pub watch_total :
    (opts : Options) (baseline : Snapshot) (start : ℕ) (polls : List Poll)
    → 0 < opts.watch_duration
    → IsPaced opts.poll_interval start polls
    → opts.watch_duration ≤ length polls * opts.poll_interval
    → (r : WatchResult) × ((more : List Poll)
        → watch opts (ok baseline) start (polls ++ more) ≡ ok r)
unfolding watch Settles
watch_total opts baseline start polls on paced enough =
    elim (Option-cases (check_populated baseline opts)) [
      | inr (reason, e) ↦ (failure baseline reason, λ more. ground arith)
      | inl e ↦
          let (r, k) =
            watch_loop-Settles opts baseline (start + opts.watch_duration) polls no_streaks
              opts.poll_interval start paced (omega arith) (omega arith) in
          (r, λ more. ground (arith, k more))
    ]
