-- ===== src/Compose/Discover/Cached.antt =====
-- The cache of `Discover` and its fingerprint, of internal/compose/discover.go. Here a file system is
-- what the system answers: directories and the bytes of files. The hash, the YAML decoder and the
-- schema are parameters.
use compose_lock.Prelude.{
  ℕ, String, ◌<>◌, len, show, Bool, true, false, not, ◌&&◌, Option, none, some, List, [], ◌∷◌, ◌++◌,
  ◌==◌, if◌then◌else◌,
}
use compose_lock.Errors.{Err, Try, ok, err}
use compose_lock.Paths.{FilePath, join_path, show_path}
use compose_lock.Compose.{Stack, Entry, Stat, Fs}
use compose_lock.Compose.Yaml.{Documents, Fields}
use compose_lock.Compose.Kinds.{is_compose_candidate, sub_dir_of}
use compose_lock.Compose.Discover.{Discovery, stacks, no_stacks, broken, discover}
pub mod Sound
pub mod Fresh
pub mod Readable

pub record Raw : Type 0 where
  pub read_dir : FilePath → Try (List Entry)
  pub read_file : FilePath → Try String
  pub stat : FilePath → Stat

pub record Library : Type 0 where
  pub decode : String → Try Documents
  pub schema_error : Fields → Option Err
  pub hash : String → String

unfoldable pub read_yaml : Library → Try String → Try Documents
read_yaml lib (err e) = err e
read_yaml lib (ok text) = lib.decode text

unfoldable pub fs_of : Library → Raw → Fs
fs_of lib raw = record {
  read_dir = raw.read_dir;
  read_yaml = λ p. read_yaml lib (raw.read_file p);
  schema_error = lib.schema_error;
  stat = raw.stat;
}

-- The compose files of a directory by name, with their bytes.
abbrev pub Contents : Type 0
Contents = List (String × String)

-- What the fingerprint is made of.
pub record Scan : Type 0 where
  pub root : Contents
  pub folders : List ((FilePath × String) × Contents)

abbrev nul : String
nul = "\0"

-- What is written for the files of one directory, with `after` behind it.
contents_text : Contents → String → String
contents_text [] after = after
contents_text ((name, text) ∷ rest) after =
    "f"
    <> (nul <> (name <> (nul <> (show (len text) <> (nul <> (text <> contents_text rest after))))))

folders_text : List ((FilePath × String) × Contents) → String
unfolding contents_text
folders_text [] = ""
folders_text (((dir, name), files) ∷ rest) =
    "d" <> (nul <> (show_path dir <> (nul <> contents_text files (folders_text rest))))

-- The bytes that are hashed.
unfoldable pub scan_text : Scan → String
unfolding contents_text folders_text
scan_text s = contents_text s.root (folders_text s.folders)

add_file : String → Try String → Try Contents → Try Contents
add_file name (err e) rest = err e
add_file name (ok text) (err e) = err e
add_file name (ok text) (ok rest) = ok ((name, text) ∷ rest)

-- `hashComposeFiles`: what it writes to the hash.
unfoldable pub hash_compose_files : Raw → FilePath → List Entry → Try Contents
unfolding add_file
hash_compose_files raw dir [] = ok []
hash_compose_files raw dir (e ∷ es) =
    let path = join_path dir (record { absolute = false; parts = e.name ∷ [] }) in
    let rest = hash_compose_files raw dir es in
    if not (is_compose_candidate e) then rest else add_file e.name (raw.read_file path) rest

entries_of : Raw → FilePath → Try (List Entry) → Try Contents
unfolding hash_compose_files
entries_of raw dir (err e) = err e
entries_of raw dir (ok entries) = hash_compose_files raw dir entries

add_folder :
    FilePath
    → String
    → Try Contents
    → Try (List ((FilePath × String) × Contents))
    → Try (List ((FilePath × String) × Contents))
add_folder dir name (err e) rest = err e
add_folder dir name (ok files) (err e) = err e
add_folder dir name (ok files) (ok rest) = ok (((dir, name), files) ∷ rest)

folder_of :
    Raw
    → String
    → Option FilePath
    → Try (List ((FilePath × String) × Contents))
    → Try (List ((FilePath × String) × Contents))
unfolding add_folder entries_of
folder_of raw name none rest = rest
folder_of raw name (some sub) rest =
    add_folder sub name (entries_of raw sub (raw.read_dir sub)) rest

folders_in : Raw → FilePath → List Entry → Try (List ((FilePath × String) × Contents))
unfolding folder_of
folders_in raw dir [] = ok []
folders_in raw dir (e ∷ es) = folder_of raw e.name (sub_dir_of dir e) (folders_in raw dir es)

both_scans : Try Contents → Try (List ((FilePath × String) × Contents)) → Try Scan
both_scans (err e) f = err e
both_scans (ok root) (err e) = err e
both_scans (ok root) (ok folders) = ok (record { root = root; folders = folders })

scan_entries : Raw → FilePath → Try (List Entry) → Try Scan
unfolding both_scans folders_in
scan_entries raw dir (err e) = err e
scan_entries raw dir (ok entries) =
    both_scans (hash_compose_files raw dir entries) (folders_in raw dir entries)

unfoldable pub scan : Raw → FilePath → Try Scan
unfolding scan_entries
scan raw dir = scan_entries raw dir (raw.read_dir dir)

hashed : Library → Try Scan → Try String
hashed lib (err e) = err e
hashed lib (ok s) = ok (lib.hash (scan_text s))

unfoldable pub fingerprint : Library → Raw → FilePath → Try String
unfolding hashed
fingerprint lib raw dir = hashed lib (scan raw dir)

-- `discoverCache`, whose error is always nil.
pub record Cache : Type 0 where
  pub key : String
  pub fingerprint : String
  pub stacks : List Stack

abbrev pub empty : Cache
empty = record { key = ""; fingerprint = ""; stacks = [] }

unfoldable pub key_of : FilePath → String → String
key_of dir base = show_path dir <> (nul <> base)

-- What is kept of a discovery.
store : String → String → Discovery → Cache → Cache
store key fp (stacks found) cache = record { key = key; fingerprint = fp; stacks = found }
store key fp (no_stacks e) cache = cache
store key fp (broken e) cache = cache

answer : String → Try String → Discovery → Cache → Discovery × Cache
unfolding store
answer key (err e) found cache = (found, cache)
answer key (ok fp) found cache =
    if cache.key == key && cache.fingerprint == fp
    then (stacks cache.stacks, cache)
    else (found, store key fp found cache)

-- `Discover`, where the files do not change between the fingerprint and the discovery.
unfoldable pub cached_discover : Library → Raw → FilePath → String → Cache → Discovery × Cache
unfolding answer
cached_discover lib raw dir base cache =
    answer (key_of dir base) (fingerprint lib raw dir) (discover (fs_of lib raw) dir base) cache
