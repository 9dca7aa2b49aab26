-- ===== src/State/File/Atomic.antt =====
-- A save is all or nothing, and is what the runs take it for.
use compose_lock.Prelude.{
  ◌≡◌, ◌⊎◌, inl, inr, refl, ap, ◌∙◌, arith, String, Option, none, some, List, [], ◌∷◌, All,
}
use compose_lock.Errors.{Err, Try, ok}
use compose_lock.State.{State, schema_version}
use compose_lock.State.File.{
  Disk, Answers, Saving, ended, after_rename, after_close, after_sync, after_write, write_text,
  marshaled, created, save, load, loaded, checked_schema,
}
use compose_lock.World.{Env, SaveOutcome, saved, lost, torn, save_error, disk_after}

-- The file is the old one or the new one, whole.
unfoldable pub IsWhole : Option String → String → Disk → Type 0
IsWhole old new d = (d.file ≡ old) ⊎ (d.file ≡ some new)

-- The file that a save leaves.
unfoldable pub file_after : List Disk → Option String
file_after [] = none
file_after (d ∷ ds) = d.file

unfoldable pub error_of : SaveOutcome → Option Err
error_of saved = none
error_of (lost e) = some e
error_of (torn e) = some e

unfoldable pub file_of : SaveOutcome → Option String → String → Option String
file_of saved old new = some new
file_of (lost e) old new = old
file_of (torn e) old new = some new

-- A save that goes through whole files only, and ends as one of the outcomes that a run reckons with.
pub record Ends (old : Option String) (new : String) (r : Saving) (o : SaveOutcome) : Type 0 where
  pub whole : All (IsWhole old new) r.1
  pub error : r.0 ≡ error_of o
  pub file : file_after r.1 ≡ file_of o old new

-- Before the rename, and after it.
record IsEarly (old : Option String) (new : String) (d : Disk) (before : List Disk) : Type 0 where
  same : d.file ≡ old
  whole : All (IsWhole old new) before

SomeEnd : Option String → String → Saving → Type 0
SomeEnd old new r = (o : SaveOutcome) × Ends old new r o

module _ (a : Answers) (old : Option String) (new : String) where
  ended-early :
      (e : Err) (d : Disk) (before : List Disk)
      → IsEarly old new d before
      → SomeEnd old new (ended (some e) d before)
  unfolding ended SomeEnd IsWhole file_after error_of file_of
  ended-early e d before h =
      (lost e, record { whole = (inl h.same, (inl h.same, h.whole)); error = refl; file = h.same })

  after_rename-ends :
      (e : Option Err) (d : Disk) (before : List Disk)
      → d.file ≡ some new
      → All (IsWhole old new) before
      → SomeEnd old new (after_rename a e d before)
  unfolding after_rename ended SomeEnd IsWhole file_after error_of file_of
  after_rename-ends none d before h w =
      (saved, record { whole = (inr h, (inr h, w)); error = refl; file = h })
  after_rename-ends (some e) d before h w =
      (torn _, record { whole = (inr h, (inr h, w)); error = refl; file = h })

  after_close-ends :
      (e : Option Err) (d : Disk) (before : List Disk)
      → IsEarly old new d before
      → SomeEnd old new (after_close a e new d before)
  unfolding after_close IsWhole
  after_close-ends (some e) d before h = ended-early _ d before h
  after_close-ends none d before h =
      after_rename-ends a.sync_dir (record { file = some new; temp = none }) (d ∷ before) refl
        (inl h.same, h.whole)

  after_sync-ends :
      (e : Option Err) (d : Disk) (before : List Disk)
      → IsEarly old new d before
      → SomeEnd old new (after_sync a e new d before)
  unfolding after_sync
  after_sync-ends (some e) d before h = ended-early _ d before h
  after_sync-ends none d before h = after_close-ends a.rename d before h

  after_write-ends :
      (e : Option Err) (d : Disk) (before : List Disk)
      → IsEarly old new d before
      → SomeEnd old new (after_write a e new d before)
  unfolding after_write
  after_write-ends (some e) d before h = ended-early _ d before h
  after_write-ends none d before h = after_sync-ends a.close d before h

  IsEarly-temp :
      (text : String) (d : Disk) (before : List Disk)
      → IsEarly old new d before
      → IsEarly old new (record d { temp = some text }) (d ∷ before)
  unfolding IsWhole
  IsEarly-temp text d before h = record { same = h.same; whole = (inl h.same, h.whole) }

  write_text-ends :
      (e : Option Err) (d : Disk) (before : List Disk)
      → IsEarly old new d before
      → SomeEnd old new (write_text a e new d before)
  unfolding write_text
  write_text-ends (some e) d before h =
      ended-early _ (record d { temp = some a.part }) (d ∷ before) (IsEarly-temp a.part d before h)
  write_text-ends none d before h =
      after_write-ends a.sync (record d { temp = some new }) (d ∷ before)
        (IsEarly-temp new d before h)

  created-ends :
      (e : Option Err) (d : Disk) → d.file ≡ old → SomeEnd old new (created a e (ok new) d)
  unfolding created marshaled SomeEnd IsWhole file_after error_of file_of
  created-ends (some e) d h = (lost _, record { whole = (inl h, tt); error = refl; file = h })
  created-ends none d h =
      write_text-ends a.write (record d { temp = some "" }) (d ∷ [])
        (IsEarly-temp "" d [] (record { same = h; whole = tt }))

-- A save of a text leaves the state file whole at every moment.
save-Ends :
    (a : Answers) (text : String) (d : Disk)
    → (o : SaveOutcome) × Ends d.file text (save a (ok text) d) o
unfolding save SomeEnd
save-Ends a text d = created-ends a d.file text a.create d refl

same_error : (env : Env) (o : SaveOutcome) → error_of o ≡ save_error env o
unfolding error_of save_error
same_error env saved = refl
same_error env (lost e) = refl
same_error env (torn e) = refl

loads_as :
    (path : String) (st : State) → st.schema ≡ schema_version → checked_schema path st ≡ ok st
unfolding checked_schema
loads_as path st e = ground (arith, e)

load-file_of :
    (decode : String → Try State) (path text : String) (old : Option String) (st cur : State)
    (env : Env) (o : SaveOutcome)
    → decode text ≡ ok st
    → st.schema ≡ schema_version
    → load decode path old ≡ ok cur
    → load decode path (file_of o old text) ≡ ok (disk_after env o st cur)
unfolding load loaded checked_schema file_of disk_after
load-file_of decode path text old st cur env saved reads current before =
    rw reads (loads_as path st current)
load-file_of decode path text old st cur env (lost e) reads current before = before
load-file_of decode path text old st cur env (torn e) reads current before =
    rw reads (loads_as path st current)

-- Whatever the system answers at each step, a save leaves the state file whole at every moment, the
-- old one or the new one, and ends as a save that the runs reckon with: `save_error` is its error, and
-- what `Load` then reads is the state that `disk_after` has on disk. The state to be saved has the
-- present schema and is read back from its text as it was; the old file could be loaded.
pub save-refines :
    (decode : String → Try State) (path text : String) (a : Answers) (d : Disk) (st cur : State)
    (env : Env)
    → decode text ≡ ok st
    → st.schema ≡ schema_version
    → load decode path d.file ≡ ok cur
    → (o : SaveOutcome) × Ends d.file text (save a (ok text) d) o
      × ((save a (ok text) d).0 ≡ save_error env o)
      × (load decode path (file_after (save a (ok text) d).1) ≡ ok (disk_after env o st cur))
save-refines decode path text a d st cur env reads current before =
    let (o, ends) = save-Ends a text d in
    (
      o,
      ends,
      ends.error ∙ same_error env o,
      ap (load decode path) ends.file
          ∙ load-file_of decode path text d.file st cur env o reads current before,
    )
