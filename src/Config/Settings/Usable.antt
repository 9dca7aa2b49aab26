-- ===== src/Config/Settings/Usable.antt =====
-- What the rest of the program relies on in a configuration that was accepted.
use text.Mathlib.Text.{starts_with}
use compose_lock.Prelude.{
  ◌≡◌, ◌≢◌, ◌⊎◌, inl, inr, refl, arith, String, Bool, true, false, not, ◌&&◌, ◌||◌, Option, none,
  some, [], ◌∷◌, ◌==◌, eq_iff, All, Bool-cases,
}
use compose_lock.Prelude.Int.{ℤ, pos, negsuc, ltz, AtLeast, not-ltz}
use compose_lock.Strings.{has_substring}
use compose_lock.Errors.{first-none}
use compose_lock.Config.Window.{DeployWindow, window, parse_deploy_window}
use compose_lock.Config.Settings.{Settings}
use compose_lock.Config.Settings.Names.{valid_git_ref, all_ref_chars}
use compose_lock.Config.Settings.Valid.{
  Library, Tests, first_refused, no_window, is_loopback, required_tests, number_tests, window_tests,
  webhook_tests, validate_required, validate,
}

first_refused-none : (tests : Tests) → first_refused tests ≡ none → All (λ t. t.0 ≡ false) tests
unfolding first_refused
first_refused-none [] e = tt
first_refused-none ((refused, text) ∷ rest) e = elim (Bool-cases refused) [
  | inl bad ↦ absurd (ground (arith, e, bad))
  | inr good ↦ (good, first_refused-none rest (rw good at e))
]

-- The name of a remote or a branch that git takes for a name, and for one ref.
pub record IsRefName (s : String) : Type 0 where
  pub named : s ≢ ""
  pub no_option : starts_with s "-" ≡ false
  pub no_range : has_substring s ".." ≡ false
  pub plain_chars : all_ref_chars s ≡ true

valid_git_ref-IsRefName : (s : String) → valid_git_ref s ≡ true → IsRefName s
unfolding valid_git_ref
valid_git_ref-IsRefName s v =
    elim (Bool-cases (s == "" || (starts_with s "-" || has_substring s ".."))) [
      | inl bad ↦ absurd (ground (arith, v, bad))
      | inr good ↦ record {
        named = λ e. ground (arith, good, e, eq_iff s "");
        no_option = ground (arith, good);
        no_range = ground (arith, good);
        plain_chars = rw good at v;
      }
    ]

-- `a` is at most `b`, of two integers.
abbrev pub NotAbove : ℤ → ℤ → Type 0
NotAbove a b = ltz b a ≡ false

-- A configuration that the program can work with.
pub record IsUsable (lib : Library) (c : Settings) : Type 0 where
  pub has_repo : c.repo_path ≢ ""
  pub has_project : c.project_name ≢ ""
  pub has_state : c.state_file ≢ ""
  pub has_stacks : (c.compose_file ≢ "") ⊎ (c.compose_dir ≢ "")
  pub good_remote : IsRefName c.remote
  pub good_branch : IsRefName c.branch
  pub tries : AtLeast 1 c.retry_attempts
  pub polls : AtLeast 1 c.health_poll_interval_seconds
  pub streak : AtLeast 1 c.health_unhealthy_streak
  pub tolerance : AtLeast 0 c.health_restart_tolerance
  pub several_polls :
      (c.health_watch_seconds ≡ pos 0)
      ⊎ NotAbove c.health_poll_interval_seconds c.health_watch_seconds
  pub has_window : (c.deploy_window ≡ "") ⊎ ((w : DeployWindow) × (window c.deploy_window ≡ some w))
  pub guarded : (c.webhook.secret ≢ "") ⊎ (is_loopback lib c.webhook.listen ≡ true)

not_empty : (s : String) → (s == "") ≡ false → s ≢ ""
not_empty s h e = ground (arith, h, e, eq_iff s "")

either_named : (a b : String) → (a == "" && b == "") ≡ false → (a ≢ "") ⊎ (b ≢ "")
either_named a b h = elim (Bool-cases (a == "")) [
  | inr given ↦ inl (not_empty a given)
  | inl missing ↦ inr (not_empty b (ground (arith, h, missing)))
]

no_seconds : (z : ℤ) → ltz z (pos 0) ≡ false → ltz (pos 0) z ≡ false → z ≡ pos 0
unfolding ltz
no_seconds (pos n) p q = ground (arith, q)
no_seconds (negsuc n) p q = absurd (cc)

several :
    (watch interval : ℤ)
    → ltz watch (pos 0) ≡ false
    → (ltz (pos 0) watch && ltz watch interval) ≡ false
    → (watch ≡ pos 0) ⊎ NotAbove interval watch
several watch interval p h = elim (Bool-cases (ltz (pos 0) watch)) [
  | inl positive ↦ inr (ground (arith, h, positive))
  | inr nothing ↦ inl (no_seconds watch p nothing)
]

some_window : (o : Option DeployWindow) → no_window o ≡ false → (w : DeployWindow) × (o ≡ some w)
unfolding no_window
some_window none h = absurd (cc)
some_window (some w) h = (w, refl)

window_or_none :
    (s : String)
    → (not (s == "") && no_window (parse_deploy_window s)) ≡ false
    → (s ≡ "") ⊎ ((w : DeployWindow) × (window s ≡ some w))
unfolding window
window_or_none s h = elim (Bool-cases (s == "")) [
  | inl open_always ↦ inl ((eq_iff s "").0 open_always)
  | inr given ↦
      let (w, e) = some_window (parse_deploy_window s) (ground (arith, h, given)) in
      inr (w, rw given e)
]

guarded_by :
    (secret : String) (loopback : Bool)
    → (secret == "" && not loopback) ≡ false
    → (secret ≢ "") ⊎ (loopback ≡ true)
guarded_by secret loopback h = elim (Bool-cases (secret == "")) [
  | inl missing ↦ inr (ground (arith, h, missing))
  | inr given ↦ inl (not_empty secret given)
]

accepted : (b : Bool) → not b ≡ false → b ≡ true
accepted b h = ground (arith, h)

-- A configuration that `Validate` accepts is usable: nothing that is required is empty, the remote and
-- the branch are names that git takes for no option and no range, there is at least one attempt, one
-- second between polls and one poll in a streak, a watch is off or at least as long as the time between
-- its polls, a deploy window that is given is one that `Window` finds, and the webhook has a secret or
-- listens on a loopback address.
pub validate-IsUsable : (lib : Library) (c : Settings) → validate lib c ≡ none → IsUsable lib c
unfolding validate validate_required required_tests number_tests window_tests webhook_tests
validate-IsUsable lib c e =
    let (required, e1) = first-none (validate_required lib c) _ e in
    let (listed, path) = first-none (first_refused (required_tests lib c)) _ required in
    let r = first_refused-none (required_tests lib c) listed in
    let (numbers, e2) = first-none (first_refused (number_tests lib c)) _ e1 in
    let n = first_refused-none (number_tests lib c) numbers in
    let (links, e3) = first-none _ _ e2 in
    let (windows, e4) = first-none (first_refused (window_tests lib c)) _ e3 in
    let w = first_refused-none (window_tests lib c) windows in
    let (notify, e5) = first-none _ _ e4 in
    let (late, hooks) = first-none _ _ e5 in
    let h = first_refused-none (webhook_tests lib c.webhook) hooks in
    record {
      has_repo = not_empty c.repo_path r.0;
      has_project = not_empty c.project_name r.1.0;
      has_state = not_empty c.state_file r.1.1.1.1.0;
      has_stacks = either_named c.compose_file c.compose_dir r.1.1.1.1.1.0;
      good_remote = valid_git_ref-IsRefName c.remote (accepted _ r.1.1.1.1.1.1.1.0);
      good_branch = valid_git_ref-IsRefName c.branch (accepted _ r.1.1.1.1.1.1.1.1.0);
      tries = not-ltz 1 c.retry_attempts n.1.0;
      polls = not-ltz 1 c.health_poll_interval_seconds n.1.1.1.1.0;
      streak = not-ltz 1 c.health_unhealthy_streak n.1.1.1.1.1.0;
      tolerance = not-ltz 0 c.health_restart_tolerance n.1.1.1.0;
      several_polls =
          several c.health_watch_seconds c.health_poll_interval_seconds n.0 n.1.1.1.1.1.1.0;
      has_window = window_or_none c.deploy_window w.0;
      guarded = guarded_by c.webhook.secret (is_loopback lib c.webhook.listen) h.1.1.1.0;
    }
