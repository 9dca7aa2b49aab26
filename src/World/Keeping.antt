-- ===== src/World/Keeping.antt =====
-- The computations that only look at the world keep every property of worlds that the calls of the
-- outside which move nothing keep.
use compose_lock.Prelude.{
  ◌≡◌, refl, arith, Option, none, some, List, ◌∷◌, String, Bool, true, false,
}
use compose_lock.Errors.{Err, Try, ok, err}
use compose_lock.World.{
  World, M, Event, clock_read, slept, git, project_loaded, snapshot_taken, checkout, fetch, Command,
  Env, gets, call, ◌>>=◌, read_clock, is_cancelled, sleep_ctx, load_project, take_snapshot, run_git,
  state_loaded, pinged, lock_tried, lock_released, moved_tree, rev_parse_head, rev_parse_remote,
  diff, load_state,
}
use compose_lock.Paths.{FilePath}
use compose_lock.World.Rules.{Triple, Keeps, Keeps-bind, Keeps-pure, Keeps-gets, Keeps-if}

-- An event after which nothing but the history differs, and which neither touches Compose nor writes.
unfoldable pub is_look : Event → Bool
is_look (git (checkout c)) = false
is_look (git _) = true
is_look state_loaded = true
is_look clock_read = true
is_look slept = true
is_look (project_loaded n) = true
is_look (snapshot_taken n) = true
is_look lock_tried = true
is_look lock_released = true
is_look pinged = true
is_look _ = false

-- `P` outlives a look.
pub record Looks {ℓ} (P : World → Type ℓ) : Type ℓ where
  pub look :
      (e : Event) (w : World) → is_look e ≡ true → P w → P (record w { history = e ∷ w.history })

module _ {ℓ} {A B : Type 0} {P : World → Type ℓ} where
  -- The rest of the block may split on the answer of `m`.
  pub Keeps-bind_option :
      (m : M (Option A)) (f : Option A → M B)
      → Keeps P m
      → Keeps P (f none)
      → ((a : A) → Keeps P (f (some a)))
      → Keeps P (m >>= f)
  Keeps-bind_option m f hm hn hs =
      Keeps-bind m f hm (λ o. elim o as (λ x. Keeps P (f x)) [ none ↦ hn | some a ↦ hs a ])

  pub Keeps-bind_try :
      (m : M (Try A)) (f : Try A → M B)
      → Keeps P m
      → ((e : Err) → Keeps P (f (err e)))
      → ((a : A) → Keeps P (f (ok a)))
      → Keeps P (m >>= f)
  Keeps-bind_try m f hm he ho =
      Keeps-bind m f hm (λ o. elim o as (λ x. Keeps P (f x)) [ err e ↦ he e | ok a ↦ ho a ])

module _ {ℓ} {P : World → Type ℓ} (env : Env) (h : Looks P) where
  pub Keeps-call : {A : Type 0} (e : Event) (f : World → A) → is_look e ≡ true → Keeps P (call e f)
  unfolding call
  Keeps-call e f q = record { at = λ w p. h.look e w q p }

  pub Keeps-read_clock : Keeps P (read_clock env)
  unfolding read_clock call is_look
  Keeps-read_clock = record { at = λ w p. h.look clock_read w refl p }

  pub Keeps-is_cancelled : Keeps P (is_cancelled env)
  unfolding is_cancelled gets
  Keeps-is_cancelled = record { at = λ w p. p }

  pub Keeps-sleep_ctx : Keeps P (sleep_ctx env)
  unfolding sleep_ctx call is_look
  Keeps-sleep_ctx = record { at = λ w p. h.look slept w refl p }

  pub Keeps-load_project :
      (files : List FilePath) (name : String) → Keeps P (load_project env files name)
  unfolding load_project call is_look
  Keeps-load_project files name = record { at = λ w p. h.look (project_loaded name) w refl p }

  pub Keeps-take_snapshot : (name : String) → Keeps P (take_snapshot env name)
  unfolding take_snapshot call is_look
  Keeps-take_snapshot name = record { at = λ w p. h.look (snapshot_taken name) w refl p }

  pub Keeps-run_git : (c : Command) → is_look (git c) ≡ true → Keeps P (run_git env c)
  unfolding run_git is_look moved_tree
  Keeps-run_git fetch q = record { at = λ w p. h.look (git fetch) w refl p }
  Keeps-run_git rev_parse_head q = record { at = λ w p. h.look (git rev_parse_head) w refl p }
  Keeps-run_git rev_parse_remote q = record { at = λ w p. h.look (git rev_parse_remote) w refl p }
  Keeps-run_git (diff a b) q = record { at = λ w p. h.look (git (diff a b)) w refl p }
  Keeps-run_git (checkout c) q = ground (arith, q)

  pub Keeps-load_state : Keeps P (load_state env)
  unfolding load_state call is_look
  Keeps-load_state = record { at = λ w p. h.look state_loaded w refl p }

pub ruleset looking_rules = (
  Keeps-bind_option, Keeps-bind_try, Keeps-bind, Keeps-pure, Keeps-gets, Keeps-if, Keeps-read_clock,
  Keeps-is_cancelled, Keeps-sleep_ctx, Keeps-load_project, Keeps-take_snapshot,
)
