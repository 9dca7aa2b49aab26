-- ===== src/Reconcile.antt =====
-- internal/reconcile: one reconcile of a deployment with its branch. This file has what the parts
-- share: the options and the result of a run, the report of a notification, and operations on sets
-- of stacks (reconcile.go). Texts that only the log shows are left out, and so are durations
-- measured by the machine's own clock, which only reports show.
pub mod Stacks
pub mod Attribution
pub mod Live
pub mod Saving
pub mod Watching
pub mod Projects
pub mod Revert
pub mod Abort
pub mod Apply
pub mod Recovery
pub mod Normal
pub mod Run
pub mod Change
pub mod Monitor
pub mod CommitContext
pub mod Answers
use compose_lock.Prelude.{
  ℕ, String, Bool, true, false, Option, none, some, List, [], ◌∷◌, len, slice, ltb, if◌then◌else◌,
}
use compose_lock.Errors.{Err}

pub record Options : Type 0 where
  pub dry_run : Bool
  pub force : Bool

pub data SkipReason : Type 0 where
  unset in_flight locked preflight_unhealthy paused outside_window : SkipReason

-- `notify.Outcome`
pub data Severity : Type 0 where
  success failure recovered dry : Severity

-- `notify.Report`: what a notification says, from which package notify builds its embed.
pub record Report : Type 0 where
  pub outcome : Severity
  pub title : String
  pub commit : String
  pub branch : String
  pub services : List String
  pub updated : List String
  pub updated_known : Bool
  pub restarted : List String
  pub stacks : List String
  pub health_watch : ℕ
  pub error : Option Err

pub record Result : Type 0 where
  pub changed : Bool
  pub skipped : Bool
  pub skip_reason : SkipReason
  pub applied : Bool
  pub reverted : Bool
  pub degraded : Bool
  pub old_commit : String
  pub new_commit : String
  pub rolled_back_to : String
  pub services : List String
  pub updated : List String
  pub restarted : List String
  pub stacks : List String
  pub changed_files : List String
  pub health_watch : ℕ
  pub error : Option Err
  pub notification : Option Report
  pub notification_key : String

-- `Result{}`
abbrev pub no_result : Result
no_result = record {
  changed = false;
  skipped = false;
  skip_reason = unset;
  applied = false;
  reverted = false;
  degraded = false;
  old_commit = "";
  new_commit = "";
  rolled_back_to = "";
  services = [];
  updated = [];
  restarted = [];
  stacks = [];
  changed_files = [];
  health_watch = 0;
  error = none;
  notification = none;
  notification_key = "";
}

-- `notify.Report{Outcome: OutcomeFailure, Title: title, Commit: commit, Branch: branch, Err: err}`
abbrev pub failure_report : String → String → String → Err → Report
failure_report title commit branch e = record {
  outcome = failure;
  title = title;
  commit = commit;
  branch = branch;
  services = [];
  updated = [];
  updated_known = false;
  restarted = [];
  stacks = [];
  health_watch = 0;
  error = some e;
}

unfoldable pub short_commit : String → String
short_commit c = if ltb 7 (len c) then slice c 0 7 else c
