-- ===== src/State.antt =====
-- internal/state/state.go: the persistent record of what is deployed, and its methods. A method
-- that mutates `*State` returns the new record. A time is its distance from Go's zero time, so
-- `IsZero` is the test against 0. JSON and the file are not here: what a load or a save answers
-- is an input of the reconcile.
pub mod Failed
pub mod History
pub mod Limits
pub mod File
use compose_lock.Prelude.{
  ℕ, ◌+◌, String, Bool, true, false, not, ◌&&◌, ◌||◌, List, [], ◌∷◌, ◌++◌, ltb, beq, ◌==◌, contains,
  delete, last_n, length, if◌then◌else◌,
}

abbrev pub schema_version : ℕ
schema_version = 2

abbrev pub max_failed_commits : ℕ
max_failed_commits = 16

abbrev pub max_history : ℕ
max_history = 20

-- The `Result` of this package; `unset` is the empty string of a state that no run has written.
pub data LastResult : Type 0 where
  unset success failed_git failed_preflight skipped_known_bad failed_apply reverted : LastResult
  degraded : LastResult

pub record Deployment : Type 0 where
  pub at : ℕ
  pub commit : String
  pub result : LastResult
  pub rolled_back_to : String
  pub error : String
  pub repeats : ℕ

pub record State : Type 0 where
  pub schema : ℕ
  pub last_healthy_commit : String
  pub last_healthy_at : ℕ
  pub last_healthy_stacks : List String
  pub last_checkout_commit : String
  pub last_failed_commit : String
  pub last_failed_at : ℕ
  pub failed_commits : List String
  pub preflight_blocks : ℕ
  pub last_result : LastResult
  pub last_attempt_commit : String
  pub last_attempt_at : ℕ
  pub pending_commit : String
  pub pending_since : ℕ
  pub pending_attempts : ℕ
  pub pending_stacks : List String
  pub pending_revert : Bool
  pub paused_at : ℕ
  pub paused_until : ℕ
  pub pause_reason : String
  pub history : List Deployment

unfoldable pub new : State
new = record {
  schema = schema_version;
  last_healthy_commit = "";
  last_healthy_at = 0;
  last_healthy_stacks = [];
  last_checkout_commit = "";
  last_failed_commit = "";
  last_failed_at = 0;
  failed_commits = [];
  preflight_blocks = 0;
  last_result = unset;
  last_attempt_commit = "";
  last_attempt_at = 0;
  pending_commit = "";
  pending_since = 0;
  pending_attempts = 0;
  pending_stacks = [];
  pending_revert = false;
  paused_at = 0;
  paused_until = 0;
  pause_reason = "";
  history = [];
}

unfoldable pub pending : State → Bool
pending s = not (s.pending_commit == "") || s.pending_revert

unfoldable pub revert_in_progress : State → Bool
revert_in_progress s =
    s.pending_revert || (not (s.pending_commit == "") && s.pending_commit == s.last_failed_commit)

unfoldable pub is_known_bad : State → String → Bool
is_known_bad s commit =
    if commit == ""
    then false
    else commit == s.last_failed_commit || contains s.failed_commits commit

unfoldable pub mark_failed : State → String → ℕ → State
mark_failed s commit at =
    let s' = record s { last_failed_commit = commit; last_failed_at = at } in
    if commit == "" then s' else record s' {
      failed_commits = last_n max_failed_commits (delete commit s.failed_commits ++ commit ∷ []);
    }

unfoldable pub forget_failed : State → String → State
forget_failed s commit =
    let s' =
      if s.last_failed_commit == commit
      then record s { last_failed_commit = ""; last_failed_at = 0 }
      else s in
    if contains s'.failed_commits commit
    then record s' { failed_commits = delete commit s'.failed_commits }
    else s'

unfoldable pub forget_all_failed : State → State
forget_all_failed s = record s { last_failed_commit = ""; last_failed_at = 0; failed_commits = [] }

unfoldable pub paused : State → ℕ → Bool
paused s now = not (beq s.paused_at 0) && (beq s.paused_until 0 || ltb now s.paused_until)

unfoldable pub pause : State → ℕ → ℕ → String → State
pause s at until reason = record s { paused_at = at; paused_until = until; pause_reason = reason }

unfoldable pub resume : State → State
resume s = record s { paused_at = 0; paused_until = 0; pause_reason = "" }

-- The comparison of two results as the strings that they are.
unfoldable pub same_result : LastResult → LastResult → Bool
same_result unset unset = true
same_result success success = true
same_result failed_git failed_git = true
same_result failed_preflight failed_preflight = true
same_result skipped_known_bad skipped_known_bad = true
same_result failed_apply failed_apply = true
same_result reverted reverted = true
same_result degraded degraded = true
same_result _ _ = false

-- The loop-free part of `Record`: an entry like the last one replaces it and counts a repeat.
pub append_entry : List Deployment → Deployment → List Deployment
append_entry [] d = d ∷ []
append_entry (e ∷ []) d =
    if e.commit == d.commit && same_result e.result d.result
    then record d { repeats = e.repeats + 1 } ∷ []
    else e ∷ d ∷ []
append_entry (e ∷ f ∷ es) d = e ∷ append_entry (f ∷ es) d

-- The method `Record`, whose name is a reserved word.
unfoldable pub record_deployment : State → Deployment → State
unfolding append_entry same_result
record_deployment s d = record s { history = last_n max_history (append_entry s.history d) }

unfoldable pub expected_checkout : State → String
expected_checkout s =
    if s.last_checkout_commit == "" then s.last_healthy_commit else s.last_checkout_commit
