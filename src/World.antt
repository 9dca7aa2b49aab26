-- ===== src/World.antt =====
-- What a reconcile runs in. The program meets the world through git, the Compose SDK, Docker's
-- snapshots, the clock, the file system, the state file and its lock, and the cancellation of its
-- context. `Env` answers each such call from the history of the calls before it, so that a theorem
-- for every `Env` holds however the world behaves, from call to call and in any order of failures.
-- A `World` is what a run reads and changes: the state on disk, the `*State` in memory that the
-- functions of internal/reconcile share, the commit that git has checked out, and the history.
pub mod Rules
pub mod Keeping
pub mod Acting
pub mod Calls
pub mod Yields
use compose_lock.Prelude.{
  ℕ, String, Bool, true, false, Option, none, some, List, [], ◌∷◌, is_some, if◌then◌else◌,
}
use compose_lock.Errors.{Err, Try, ok, err}
use compose_lock.State.{State}
use compose_lock.Health.{Snapshot, Outcome}
use compose_lock.Health.Watch.{Poll}
use compose_lock.Paths.{FilePath}
use compose_lock.Compose.{Project, Fs}

-- The git commands that the program runs.
pub data Command : Type 0 where
  fetch rev_parse_head rev_parse_remote : Command
  diff : String → String → Command
  checkout : String → Command

-- A call of the outside. An `up` holds the commit that was checked out and the state on disk at
-- that moment; a `watched` holds the commit that was watched and the verdict on all its stacks.
pub data Event : Type 0 where
  git : Command → Event
  state_loaded clock_read slept : Event
  state_saved : State → Event
  project_loaded : String → Event
  pulled : String → Event
  up : String → String → State → Event
  down : String → Event
  snapshot_taken : String → Event
  watched : String → Outcome → Event
  lock_tried lock_released pinged : Event

abbrev pub History : Type 0
History = List Event

-- What `Store.Save` answers: the state is on disk; it is not, with an error; or it is, and an error
-- comes all the same, as where `syncDir` fails after the rename.
pub data SaveOutcome : Type 0 where
  saved : SaveOutcome
  lost torn : Err → SaveOutcome

-- What a health watch reads: the first snapshot, the time after it, and the polls.
pub record Feed : Type 0 where
  pub first : Try Snapshot
  pub start : ℕ
  pub polls : List Poll

pub record Env : Type 0 where
  pub run_git : History → Command → Try String
  pub load_state : History → Option Err
  pub save_state : History → State → SaveOutcome
  pub now : History → ℕ
  pub minute_of_day : ℕ → ℕ
  pub cancelled : History → Bool
  pub sleep : History → Bool
  pub load_project : History → List FilePath → String → Try Project
  pub pull : History → Project → Option Err
  pub up : History → Project → Option Err
  pub down : History → String → Option Err
  pub snapshot : History → String → Try Snapshot
  pub feed : History → String → Feed
  pub fs : History → Fs
  pub cwd : Option FilePath
  pub try_lock : History → Try Bool
  pub unlock : History → Option Err

pub record World : Type 0 where
  pub disk : State
  pub st : State
  pub tree : String
  pub history : History

abbrev pub M {ℓ} : Type ℓ → Type ℓ
M A = World → A × World

module _ {ℓ} {A : Type ℓ} where
  unfoldable pub pure : A → M A
  pure a w = (a, w)

  unfoldable pub gets : (World → A) → M A
  gets f w = (f w, w)

  -- A call that changes nothing but the history.
  unfoldable pub call : Event → (World → A) → M A
  call e f w = (f w, record w { history = e ∷ w.history })

infixl 5 ◌>>=◌ ◌>>◌
unfoldable pub ◌>>=◌ {ℓ κ} : {A : Type ℓ} {B : Type κ} → M A → (A → M B) → M B
◌>>=◌ m f w = let (a, w') = m w in f a w'

abbrev pub ◌>>◌ {ℓ κ} : {A : Type ℓ} {B : Type κ} → M A → M B → M B
m >> n = m >>= λ _. n

-- `st.field = …` on the shared state.
unfoldable pub modify_st : (State → State) → M (Unit {0})
modify_st f w = (tt, record w { st = f w.st })

abbrev pub get_st : M State
get_st = gets (λ w. w.st)

module _ (env : Env) where
  -- A successful checkout moves the tree.
  unfoldable pub moved_tree : Command → Try String → String → String
  moved_tree (checkout c) (ok out) tree = c
  moved_tree _ _ tree = tree

  unfoldable pub run_git : Command → M (Try String)
  unfolding moved_tree
  run_git cmd w =
      let answer = env.run_git w.history cmd in
      (answer, record w { history = git cmd ∷ w.history; tree = moved_tree cmd answer w.tree })

  unfoldable pub read_clock : M ℕ
  unfolding call
  read_clock = call clock_read (λ w. env.now w.history)

  -- `ctx.Err() != nil`
  unfoldable pub is_cancelled : M Bool
  unfolding gets
  is_cancelled = gets (λ w. env.cancelled w.history)

  unfoldable pub load_answer : Option Err → State → Try State
  load_answer none s = ok s
  load_answer (some e) s = err e

  -- `deps.State.Load`
  unfoldable pub load_state : M (Try State)
  unfolding call load_answer
  load_state = call state_loaded (λ w. load_answer (env.load_state w.history) w.disk)

  unfoldable pub disk_after : SaveOutcome → State → State → State
  disk_after saved next old = next
  disk_after (lost e) next old = old
  disk_after (torn e) next old = next

  unfoldable pub save_error : SaveOutcome → Option Err
  save_error saved = none
  save_error (lost e) = some e
  save_error (torn e) = some e

  -- `deps.State.Save`
  unfoldable pub save_state : State → M (Option Err)
  unfolding disk_after save_error
  save_state next w =
      let outcome = env.save_state w.history next in
      (
        save_error outcome,
        record w { disk = disk_after outcome next w.disk; history = state_saved next ∷ w.history },
      )

  unfoldable pub load_project : List FilePath → String → M (Try Project)
  unfolding call
  load_project files name = call (project_loaded name) (λ w. env.load_project w.history files name)

  unfoldable pub pull : Project → M (Option Err)
  unfolding call
  pull project = call (pulled project.name) (λ w. env.pull w.history project)

  unfoldable pub compose_up : Project → M (Option Err)
  compose_up project w =
      (env.up w.history project, record w { history = up project.name w.tree w.disk ∷ w.history })

  unfoldable pub compose_down : String → M (Option Err)
  unfolding call
  compose_down name = call (down name) (λ w. env.down w.history name)

  unfoldable pub take_snapshot : String → M (Try Snapshot)
  unfolding call
  take_snapshot name = call (snapshot_taken name) (λ w. env.snapshot w.history name)

  -- `sleepCtx`: false where the context was cancelled before the time was over.
  unfoldable pub sleep_ctx : M Bool
  unfolding call
  sleep_ctx = call slept (λ w. env.sleep w.history)
