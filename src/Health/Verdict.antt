-- ===== src/Health/Verdict.antt =====
-- What a verdict on one snapshot says of each container.
use compose_lock.Prelude.{◌≡◌, ◌↔◌, Bool, true, ◌&&◌, ◌||◌, List, [], ◌∷◌, arith, ◌==◌, All}
use compose_lock.Health.{
  ContainerStatus, Snapshot, completed, probe_passes, evaluate_from, evaluate,
}

-- A container that a verdict accepts, with its two tolerances.
pub data IsFine (starting restarting : Bool) (c : ContainerStatus) : Type 0 where
  finished : completed c ≡ true → IsFine starting restarting c
  between_restarts :
      restarting ≡ true → (c.state == "restarting") ≡ true → IsFine starting restarting c
  coming_up :
      starting ≡ true
      → (c.state == "running") ≡ true
      → (c.health == "starting") ≡ true
      → IsFine starting restarting c
  serving : (c.state == "running") ≡ true → probe_passes c ≡ true → IsFine starting restarting c

is_fine : Bool → Bool → ContainerStatus → Bool
is_fine starting restarting c =
    completed c
    || ((restarting && c.state == "restarting")
        || (c.state == "running" && ((starting && c.health == "starting") || probe_passes c)))

is_fine_sound : (s r : Bool) (c : ContainerStatus) → is_fine s r c ≡ true → IsFine s r c
unfolding is_fine
is_fine_sound s r c h = grind (arith, finished, between_restarts, coming_up, serving)

is_fine_complete : (s r : Bool) (c : ContainerStatus) → IsFine s r c → is_fine s r c ≡ true
unfolding is_fine
is_fine_complete s r c (finished a) = ground arith
is_fine_complete s r c (between_restarts a b) = ground arith
is_fine_complete s r c (coming_up a b d) = ground arith
is_fine_complete s r c (serving a b) = ground arith

evaluate_from-cons :
    (c : ContainerStatus) (cs : List ContainerStatus) (s r : Bool)
    → (evaluate_from (c ∷ cs) s r).is_healthy ≡ (is_fine s r c && (evaluate_from cs s r).is_healthy)
unfolding evaluate_from is_fine
evaluate_from-cons c cs s r = ground arith

evaluate_from-All :
    (cs : List ContainerStatus) (s r : Bool)
    → (evaluate_from cs s r).is_healthy ≡ true
    → All (IsFine s r) cs
evaluate_from-All [] s r h = tt
evaluate_from-All (c ∷ cs) s r h = (
  is_fine_sound s r c (ground (arith, evaluate_from-cons c cs s r)),
  evaluate_from-All cs s r (ground (arith, evaluate_from-cons c cs s r)),
)

All-evaluate_from :
    (cs : List ContainerStatus) (s r : Bool)
    → All (IsFine s r) cs
    → (evaluate_from cs s r).is_healthy ≡ true
unfolding evaluate_from
All-evaluate_from [] s r h = ground arith
All-evaluate_from (c ∷ cs) s r h =
    ground
      (arith, evaluate_from-cons c cs s r, is_fine_complete s r c h.0, All-evaluate_from cs s r h.1)

-- A snapshot is judged healthy exactly when each of its containers has finished with code 0, is
-- between restarts where that is tolerated, is running and starting where that is tolerated, or is
-- running with a healthcheck that is absent, `none` or `healthy`.
pub evaluate-All :
    (snap : Snapshot) (s r : Bool)
    → ((evaluate snap s r).is_healthy ≡ true) ↔ All (IsFine s r) snap.containers
unfolding evaluate
evaluate-All snap s r =
    (evaluate_from-All snap.containers s r, All-evaluate_from snap.containers s r)
