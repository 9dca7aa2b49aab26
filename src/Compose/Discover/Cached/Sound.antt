-- ===== src/Compose/Discover/Cached/Sound.antt =====
-- What a discovery finds, by what its fingerprint is made of.
use mathlib.Core.Path.{subst}
use compose_lock.Prelude.{
  ◌≡◌, refl, ◌∙◌, ap, inl, inr, String, false, Option, none, some, List, [], ◌∷◌, Bool-cases,
}
use compose_lock.Errors.{Try, ok, err}
use compose_lock.Paths.{FilePath, join_path}
use compose_lock.Compose.{Stack, Entry, missing}
use compose_lock.Compose.Yaml.{Documents, Fields, yaml_mappings}
use compose_lock.Compose.Kinds.{
  is_compose_candidate, sub_dir_of, kind_of, kind_read, check_compose_file, Kind,
}
use compose_lock.Compose.Discover.{
  add_checked, stack_found, add_stacks, sub_name, Files, compose_files_in, stack_in, sub_stack,
  sub_stacks, Discovery, broken, finish_with, find_below, find_stacks, discover,
}
use compose_lock.Compose.Discover.Cached.{
  Raw, Library, read_yaml, fs_of, Contents, Scan, add_file, hash_compose_files, entries_of,
  add_folder, folder_of, folders_in, both_scans, scan_entries, scan,
}

add_file-ok :
    (name : String) (a : Try String) (b : Try Contents) (r : Contents)
    → add_file name a b ≡ ok r
    → (t : String) × ((rest : Contents) × ((a ≡ ok t) × ((b ≡ ok rest) × ((name, t) ∷ rest ≡ r))))
unfolding add_file
add_file-ok name (err e) b r p = absurd (cc)
add_file-ok name (ok t) (err e) r p = absurd (cc)
add_file-ok name (ok t) (ok rest) r p = (t, (rest, (refl, (refl, cc))))

module _ (lib : Library) where
  nothing : Raw
  nothing = record { read_dir = λ p. ok []; read_file = λ p. ok ""; stat = λ p. missing }

  -- What `composeFilesIn` finds in a directory with these files, and `discover` with these folders.
  kind_in : FilePath → String → Try Kind
  unfolding nothing
  kind_in path text = kind_read (fs_of lib nothing) path (lib.decode text)

  files_of : FilePath → Contents → Try Files
  unfolding kind_in
  files_of dir [] = ok (record { files = []; workloads = false })
  files_of dir ((name, text) ∷ rest) =
      let path = join_path dir (record { absolute = false; parts = name ∷ [] }) in
      add_checked name path (kind_in path text) (files_of dir rest)

  stacks_of : String → List ((FilePath × String) × Contents) → Try (List Stack)
  unfolding files_of
  stacks_of base [] = ok []
  stacks_of base (((dir, name), files) ∷ rest) =
      add_stacks (stack_found (sub_name base name) dir (files_of dir files)) (stacks_of base rest)

  below : FilePath → Try (List Stack) → Try (List Stack) → Discovery
  below dir (err e) subs = broken e
  below dir (ok root) subs = finish_with dir root subs

  pub found_in : FilePath → String → Scan → Discovery
  unfolding below stacks_of
  found_in dir base s =
      below dir (stack_found base dir (files_of dir s.root)) (stacks_of base s.folders)

  module _ (raw : Raw) where
    kind_of-same :
        (path : FilePath) (docs : Try (List Fields))
        → kind_of (fs_of lib raw) path docs ≡ kind_of (fs_of lib nothing) path docs
    unfolding kind_of fs_of nothing
    kind_of-same path (err e) = refl
    kind_of-same path (ok []) = refl
    kind_of-same path (ok (d ∷ ds)) = refl

    kind_read-same :
        (path : FilePath) (docs : Try Documents)
        → kind_read (fs_of lib raw) path docs ≡ kind_read (fs_of lib nothing) path docs
    unfolding kind_read
    kind_read-same path (err e) = refl
    kind_read-same path (ok docs) = kind_of-same path (yaml_mappings docs)

    check-kind_in :
        (path : FilePath) (text : String)
        → raw.read_file path ≡ ok text
        → check_compose_file (fs_of lib raw) path ≡ kind_in path text
    unfolding check_compose_file kind_in fs_of read_yaml
    check-kind_in path text e =
        ap (λ t. kind_read (fs_of lib raw) path (read_yaml lib t)) e
        ∙ kind_read-same path (lib.decode text)

    compose_files_in-files_of :
        (dir : FilePath) (es : List Entry) (r : Contents)
        → hash_compose_files raw dir es ≡ ok r
        → compose_files_in (fs_of lib raw) dir es ≡ files_of dir r
    unfolding compose_files_in hash_compose_files files_of
    compose_files_in-files_of dir [] r p =
        let none_left : [] ≡ r = cc in
        subst (λ x. compose_files_in (fs_of lib raw) dir [] ≡ files_of dir x) none_left refl
    compose_files_in-files_of dir (e ∷ es) r p = elim (Bool-cases (is_compose_candidate e)) [
      | inr other ↦ rw other (compose_files_in-files_of dir es r (rw other at p))
      | inl candidate ↦
          let path = join_path dir (record { absolute = false; parts = e.name ∷ [] }) in
          let (t, (rest, (read, (more, made)))) =
            add_file-ok e.name (raw.read_file path) (hash_compose_files raw dir es) r
              (rw candidate at p) in
          subst (λ x. compose_files_in (fs_of lib raw) dir (e ∷ es) ≡ files_of dir x) made
            (rw (candidate, check-kind_in path t read, compose_files_in-files_of dir es rest more)
              refl)
    ]

    entries_of-ok :
        (name : String) (dir : FilePath) (es : Try (List Entry)) (r : Contents)
        → entries_of raw dir es ≡ ok r
        → stack_in (fs_of lib raw) name dir es ≡ stack_found name dir (files_of dir r)
    unfolding entries_of stack_in
    entries_of-ok name dir (err e) r p = absurd (cc)
    entries_of-ok name dir (ok es) r p =
        ap (stack_found name dir) (compose_files_in-files_of dir es r p)

    add_folder-ok :
        (dir : FilePath) (name : String) (a : Try Contents)
        (b : Try (List ((FilePath × String) × Contents)))
        (r : List ((FilePath × String) × Contents))
        → add_folder dir name a b ≡ ok r
        → (files : Contents) × ((rest : List ((FilePath × String) × Contents)) × ((a ≡ ok files)
              × ((b ≡ ok rest) × (((dir, name), files) ∷ rest ≡ r))))
    unfolding add_folder
    add_folder-ok dir name (err e) b r p = absurd (cc)
    add_folder-ok dir name (ok files) (err e) r p = absurd (cc)
    add_folder-ok dir name (ok files) (ok rest) r p = (files, (rest, (refl, (refl, cc))))

    sub_stack-stacks_of :
        (base name : String) (o : Option FilePath)
        (folders : Try (List ((FilePath × String) × Contents))) (subs : Try (List Stack))
        (r : List ((FilePath × String) × Contents))
        → ((r' : List ((FilePath × String) × Contents))
            → folders ≡ ok r'
            → subs ≡ stacks_of base r')
        → folder_of raw name o folders ≡ ok r
        → sub_stack (fs_of lib raw) (sub_name base name) o subs ≡ stacks_of base r
    unfolding sub_stack folder_of stacks_of fs_of
    sub_stack-stacks_of base name none folders subs r later p = later r p
    sub_stack-stacks_of base name (some sub) folders subs r later p =
        let (files, (rest, (read, (more, made)))) =
          add_folder-ok sub name (entries_of raw sub (raw.read_dir sub)) folders r p in
        subst
          (λ x. sub_stack (fs_of lib raw) (sub_name base name) (some sub) subs ≡ stacks_of base x)
          made
          (rw
            (entries_of-ok (sub_name base name) sub (raw.read_dir sub) files read, later rest more)
            refl)

    sub_stacks-stacks_of :
        (dir : FilePath) (base : String) (es : List Entry)
        (r : List ((FilePath × String) × Contents))
        → folders_in raw dir es ≡ ok r
        → sub_stacks (fs_of lib raw) dir base es ≡ stacks_of base r
    unfolding sub_stacks folders_in stacks_of
    sub_stacks-stacks_of dir base [] r p =
        let none_left : [] ≡ r = cc in
        subst (λ x. sub_stacks (fs_of lib raw) dir base [] ≡ stacks_of base x) none_left refl
    sub_stacks-stacks_of dir base (e ∷ es) r p =
        sub_stack-stacks_of base e.name (sub_dir_of dir e) (folders_in raw dir es)
          (sub_stacks (fs_of lib raw) dir base es) r (sub_stacks-stacks_of dir base es) p

    find_below-below :
        (dir : FilePath) (base : String) (es : List Entry) (root : Try (List Stack))
        → find_below (fs_of lib raw) dir base es root
          ≡ below dir root (sub_stacks (fs_of lib raw) dir base es)
    unfolding find_below below
    find_below-below dir base es (err e) = refl
    find_below-below dir base es (ok root) = refl

    both_scans-ok :
        (a : Try Contents) (b : Try (List ((FilePath × String) × Contents))) (s : Scan)
        → both_scans a b ≡ ok s
        → (a ≡ ok s.root) × (b ≡ ok s.folders)
    unfolding both_scans
    both_scans-ok (err e) b s p = absurd (cc)
    both_scans-ok (ok root) (err e) s p = absurd (cc)
    both_scans-ok (ok root) (ok folders) s p =
        let same : record { root = root; folders = folders } ≡ s = cc in
        (ap (λ x. ok x.root) same, ap (λ x. ok x.folders) same)

    scan_entries-found :
        (dir : FilePath) (base : String) (entries : Try (List Entry)) (s : Scan)
        → scan_entries raw dir entries ≡ ok s
        → find_stacks (fs_of lib raw) dir base entries ≡ found_in dir base s
    unfolding scan_entries find_stacks stack_in found_in
    scan_entries-found dir base (err e) s p = absurd (cc)
    scan_entries-found dir base (ok es) s p =
        let (root, folders) =
          both_scans-ok (hash_compose_files raw dir es) (folders_in raw dir es) s p in
        find_below-below dir base es
          (stack_found base dir (compose_files_in (fs_of lib raw) dir es))
        ∙ rw
            (
              compose_files_in-files_of dir es s.root root,
              sub_stacks-stacks_of dir base es s.folders folders,
            )
            refl

    -- What is scanned decides what is found.
    pub discover-found :
        (dir : FilePath) (base : String) (s : Scan)
        → scan raw dir ≡ ok s
        → discover (fs_of lib raw) dir base ≡ found_in dir base s
    unfolding scan discover fs_of
    discover-found dir base s p = scan_entries-found dir base (raw.read_dir dir) s p
