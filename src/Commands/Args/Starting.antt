-- ===== src/Commands/Args/Starting.antt =====
-- The set-up of a command, `setup` of cmd/composelock/setup.go, and the part of `run` in main.go that
-- calls it. What the loading of the configuration, the making of the clients, the state file and the
-- test of its writability answer are inputs.
pub mod Safe
use compose_lock.Prelude.{String, Bool, true, false, not, Option, none, some, if◌then◌else◌}
use compose_lock.Prelude.Int.{ℤ}
use compose_lock.Errors.{Err, wrap, Try, ok, err}
use compose_lock.Commands.Args.{CliFlags, Plan, print_version, scaffold, refuse, proceed, Task, run}

-- The errors of the calls that `setup` makes, each with `none` where the call succeeds.
pub record Found : Type 0 where
  pub config : Option Err
  pub services : Option Err
  pub state : Option Err
  pub writable : Option Err

-- The state file's lock: `flock`, and `sharedLock` in front of it.
pub data Lock : Type 0 where
  exclusive shared : Lock

lock_for_writing : Option Err → Try Lock
lock_for_writing (some e) = err (wrap "state file unwritable" e)
lock_for_writing none = ok exclusive

after_state : Bool → Found → Option Err → Try Lock
unfolding lock_for_writing
after_state writes_state found (some e) = err (wrap "reading state" e)
after_state writes_state found none =
    if writes_state then lock_for_writing found.writable else ok shared

after_services : Bool → Found → Option Err → Try Lock
unfolding after_state
after_services writes_state found (some e) = err (wrap "initializing compose service" e)
after_services writes_state found none = after_state writes_state found found.state

after_config : Bool → Found → Option Err → Try Lock
unfolding after_services
after_config writes_state found (some e) = err (wrap "loading config" e)
after_config writes_state found none = after_services writes_state found found.services

-- The lock of the dependencies; an error is printed and ends the program with 2.
unfoldable pub setup : Bool → Found → Try Lock
unfolding after_config
setup writes_state found = after_config writes_state found found.config

-- What comes of a command line: the version, `cmdInit`, an error and the exit code 2, or a command that
-- runs with a lock.
pub data Start : Type 0 where
  prints inits : Start
  fails : Err → Start
  runs : Lock → Task → Start

with_lock : Task → Try Lock → Start
with_lock task (err e) = fails e
with_lock task (ok lock) = runs lock task

carried_out : Found → Plan → Start
unfolding with_lock setup
carried_out found print_version = prints
carried_out found scaffold = inits
carried_out found (refuse e) = fails e
carried_out found (proceed read_only task) = with_lock task (setup (not read_only) found)

unfoldable pub start : (ℤ → String) → Found → String → CliFlags → Start
unfolding carried_out
start show_duration found command f = carried_out found (run show_duration command f)
