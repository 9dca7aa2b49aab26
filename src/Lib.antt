-- ===== src/Lib.antt =====
-- ComposeLock deploys the Compose stacks of a git branch: it fetches, judges the running stacks, checks
-- the new commit out, brings the changed stacks up, watches their health, and goes back to the last
-- healthy commit or to DEGRADED where that fails. This library models that core and its state.
--
-- The parts, with the files of the repository that they translate:
--   State                   internal/state/state.go: the record in the state file and its methods
--   Errors                  errors as values; IsInfraError of internal/compose/inputs.go
--   Health, Health/Watch, Health/Changes, Health/Snapshots
--                           internal/health: verdicts, the watch, changed services (health.go),
--                           the containers of a project (snapshotter.go)
--   Paths, Strings          the parts of path/filepath and strings that the code uses
--   Compose, Compose/Kinds, Compose/Discover, Compose/Yaml
--                           internal/compose/discover.go: stacks of a directory; Cached is the
--                           cache in front
--   Compose/Inputs          internal/compose/inputs.go: the files that a project depends on
--   Compose/EnvFiles, Compose/Calls
--                           internal/compose/compose.go: CheckEnvFiles; the calls of the SDK
--   Config, Config/Window   the fields that are read; internal/config/window.go
--   Config/Settings         internal/config/config.go and overrides.go: Valid is what Validate accepts,
--                           Loading is Load and Init
--   Git, Git/Describing     internal/git/git.go: fetch with retry, preview, checkout; what
--                           notifications name
--   State/File              Load and Save of internal/state/state.go, on a directory
--   Notify                  internal/notify: Embed and Context (discord.go), Throttle and Sending
--                           (notifier.go)
--   Webhook                 internal/webhook/server.go: the requests and the queue of one
--   Reconcile/Monitor       internal/reconcile/monitor.go: the check between the runs
--   Commands                cmd/composelock: Pausing (pause.go), Args (flags.go, main.go),
--                           Args/Starting (setup.go), Polling, Showing, Status (commands.go),
--                           Session (commands one after another)
--   World                   the outside: git, the Compose SDK, Docker, the clock, the disk, the lock
--   Reconcile               internal/reconcile: Stacks, Live, Saving, Projects, Run (reconcile.go),
--                           Attribution, Normal, Apply, Abort (apply.go), Revert (revert.go),
--                           Recovery (recovery.go), Watching (watch.go), CommitContext
--                           (commitcontext.go)
--   Reconcile/Change        the changes that a run makes to the state, one constructor for each
--   Tests                   concrete runs
--
-- A run is a function on a World, which holds the state on disk, the state in memory, the commit that
-- git has checked out and the history of the calls of the outside. An Env answers every call from that
-- history, so that theorems for every Env cover every order of successes and failures. World/Rules has
-- the rules by which a computation leads from worlds with one property to worlds with another;
-- World/Keeping, World/Acting and the files named Keeping apply them to each part, once for all
-- properties that outlive its calls. World/Yields and the files named Answers do so for results.
--
-- Bounds and fuel: a watch reads a list of polls, whose end is a cancelled sleep; the retry of git
-- counts its attempts down; the walk over includes counts its depth, as the source does;
-- a command line is parsed in one round for each argument and one more. The wait of a pause for the lock
-- and the loop of a poll end when the outside ends them, and have fuel: one unit for each try or run.
-- Times and counts are natural numbers; where a difference may be negative in the source, the file says
-- so.
--
-- A run meets the state file through Env, which chooses how a save ends (saved, lost, or saved with an
-- error); State/File has the steps of a save. The notifier, the webhook server and the monitor each
-- have a state of their own and meet the outside through answers that are arguments; goroutines are
-- steps in any order.
--
-- Not modelled: JSON and HTTP, which are parameters; log lines; the mutex inside one process; stacks
-- are watched and torn down one after another instead of at once; the command webhook, which only joins
-- the parts that it runs; the clients of git, Docker and HTTP and how they are made.
pub mod Prelude
pub mod State
pub mod Errors
pub mod Health
pub mod Paths
pub mod Compose
pub mod Strings
pub mod Config
pub mod World
pub mod Notify
pub mod Webhook
pub mod Commands
pub mod Git
pub mod Reconcile
pub mod Tests
