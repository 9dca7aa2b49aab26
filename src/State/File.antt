-- ===== src/State/File.antt =====
-- The state file of internal/state/state.go: `Load`, and `Save` with its temporary file. The texts of
-- states are JSON, so that `encode` and `decode` are encoding/json's.
pub mod Atomic
use compose_lock.Prelude.{
  ℕ, String, ◌<>◌, Bool, true, false, Option, none, some, List, [], ◌∷◌, ltb, show, if◌then◌else◌,
}
use compose_lock.Errors.{join_errors, Err, plain, wrap, Try, ok, err}
use compose_lock.State.{State, new, schema_version}

-- The directory of the state file: the file, if there is one, and the temporary file.
pub record Disk : Type 0 where
  pub file : Option String
  pub temp : Option String

-- What the system answers to each call of a save; a write that fails leaves part of the text.
pub record Answers : Type 0 where
  pub create : Option Err
  pub write : Option Err
  pub part : String
  pub sync : Option Err
  pub close : Option Err
  pub rename : Option Err
  pub sync_dir : Option Err

-- What a save answers, and the directories that it goes through, the last one first. `defer` removes
-- the temporary file at each end.
abbrev pub Saving : Type 0
Saving = Option Err × List Disk

abbrev removed : Disk → Disk
removed d = record d { temp = none }

ended : Option Err → Disk → List Disk → Saving
ended e d before = (e, removed d ∷ d ∷ before)

module _ (a : Answers) where
  after_rename : Option Err → Disk → List Disk → Saving
  unfolding ended
  after_rename none d before = ended none d before
  after_rename (some e) d before = ended (some (wrap "fsync state directory" e)) d before

  after_close : Option Err → String → Disk → List Disk → Saving
  unfolding after_rename ended
  after_close (some e) text d before =
      ended (some (wrap "renaming temp state file into place" e)) d before
  after_close none text d before =
      after_rename a.sync_dir (record { file = some text; temp = none }) (d ∷ before)

  after_sync : Option Err → String → Disk → List Disk → Saving
  unfolding after_close ended
  after_sync (some e) text d before = ended (some (wrap "closing temp state file" e)) d before
  after_sync none text d before = after_close a.rename text d before

  after_write : Option Err → String → Disk → List Disk → Saving
  unfolding after_sync ended
  after_write (some e) text d before = ended (some (wrap "fsync temp state file" e)) d before
  after_write none text d before = after_sync a.close text d before

  write_text : Option Err → String → Disk → List Disk → Saving
  unfolding after_write ended
  write_text (some e) text d before =
      ended (some (wrap "writing temp state file" e)) (record d { temp = some a.part }) (d ∷ before)
  write_text none text d before =
      after_write a.sync text (record d { temp = some text }) (d ∷ before)

  marshaled : Try String → Disk → List Disk → Saving
  unfolding write_text ended
  marshaled (err e) d before = ended (some (wrap "marshaling state" e)) d before
  marshaled (ok text) d before = write_text a.write text d before

  created : Option Err → Try String → Disk → Saving
  unfolding marshaled
  created (some e) text d = (some (wrap "creating temp state file" e), d ∷ [])
  created none text d = marshaled text (record d { temp = some "" }) (d ∷ [])

  -- `Save`, of what `encode` makes of the state.
  unfoldable pub save : Try String → Disk → Saving
  unfolding created
  save text d = created a.create text d

checked_schema : String → State → Try State
checked_schema path st =
    if ltb schema_version st.schema
    then err (
        plain (
          "state file "
          <> (path
              <> (" has schema_version "
                  <> (show st.schema
                      <> (", this build understands "
                          <> (show schema_version <> ": upgrade composelock")))))))
    else ok (record st { schema = schema_version })

loaded : String → Try State → Try State
unfolding checked_schema
loaded path (err e) = err (wrap ("parsing state file " <> path) e)
loaded path (ok st) = checked_schema path st

-- `Load` of a file that can be read.
unfoldable pub load : (String → Try State) → String → Option String → Try State
unfolding loaded
load decode path none = ok new
load decode path (some text) = loaded path (decode text)

-- `CheckWritable`, of how the temporary file is created, closed and removed.
unfoldable pub check_writable : Option Err → Option Err → Option Err → Option Err
check_writable (some e) close remove = some e
check_writable none close remove = join_errors close remove
