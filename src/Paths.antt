-- ===== src/Paths.antt =====
-- Slash-separated file paths, as package path/filepath treats them on Unix: a path is what its text
-- splits into at the slashes. A text and its cleaned path determine one another, so that a test of
-- two cleaned texts for equality is the test of their paths.
use Prim.Native.Char.{code}
use compose_lock.Prelude.{
  ℕ, ◌+◌, String, ◌<>◌, len, Bool, true, false, not, ◌&&◌, ◌||◌, Option, none, some, List, [], ◌∷◌,
  ◌++◌, beq, ◌==◌, if◌then◌else◌,
}
use mathlib.Core.List.{reverse}

pub record FilePath : Type 0 where
  pub absolute : Bool
  pub parts : List String

-- The pieces of a text between slashes; `piece` is what has been read of the present one.
split_from : String → String → List String
split_from piece String.[] = piece ∷ []
split_from piece (String.◌∷◌ c s) =
    let apart = piece ∷ split_from "" s in
    let along = split_from (piece <> String.◌∷◌ c "") s in
    if beq (code c) b'/' then apart else along

starts_with_slash : String → Bool
starts_with_slash String.[] = false
starts_with_slash (String.◌∷◌ c s) = beq (code c) b'/'

unfoldable pub parse : String → FilePath
unfolding split_from starts_with_slash
parse s = record { absolute = starts_with_slash s; parts = split_from "" s }

-- One level up, on the pieces in reverse.
pop : Bool → List String → List String
pop absolute [] = if absolute then [] else ".." ∷ []
pop absolute (p ∷ ps) = if p == ".." then ".." ∷ p ∷ ps else ps

clean_onto : Bool → List String → List String → List String
unfolding pop
clean_onto absolute stack [] = reverse stack
clean_onto absolute stack (p ∷ ps) =
    clean_onto absolute
      (if p == "" || p == "." then stack else if p == ".." then pop absolute stack else p ∷ stack)
      ps

-- filepath.Clean
unfoldable pub clean : FilePath → FilePath
unfolding clean_onto
clean p = record p { parts = clean_onto p.absolute [] p.parts }

-- filepath.Join of two paths
unfoldable pub join_path : FilePath → FilePath → FilePath
join_path a b = clean (record a { parts = a.parts ++ b.parts })

up_levels : List String → List String → List String
up_levels [] rest = rest
up_levels (p ∷ ps) rest = ".." ∷ up_levels ps rest

rel_parts : List String → List String → Option (List String)
unfolding up_levels
rel_parts [] targ = some targ
rel_parts (b ∷ bs) [] = if b == ".." then none else some (up_levels (b ∷ bs) [])
rel_parts (b ∷ bs) (t ∷ ts) =
    let deeper = rel_parts bs ts in
    if b == t then deeper else if b == ".." then none else some (up_levels (b ∷ bs) (t ∷ ts))

same_kind : Bool → Bool → Bool
same_kind true b = b
same_kind false b = not b

-- filepath.Rel of two cleaned paths: `none` is the error, and `[]` is ".".
pub rel : FilePath → FilePath → Option (List String)
unfolding rel_parts same_kind
rel base targ =
    if same_kind base.absolute targ.absolute then rel_parts base.parts targ.parts else none

below : Option (List String) → Bool
below none = false
below (some []) = false
below (some (p ∷ ps)) = not (p == "..")

-- `pathUnder` of internal/reconcile/apply.go
unfoldable pub path_under : FilePath → FilePath → Bool
unfolding rel below
path_under dir abs = below (rel (clean dir) (clean abs))

-- `resolveUnderRepo` of internal/reconcile/apply.go; `cwd` is what `os.Getwd` answers.
unfoldable pub resolve_under_repo : Option FilePath → FilePath → FilePath → FilePath
resolve_under_repo cwd repo_path p =
    let p' = if p.absolute then p else join_path repo_path p in
    if p'.absolute then clean p' else elim cwd [ none ↦ clean p' | some dir ↦ join_path dir p' ]

parts_length : List String → ℕ
parts_length [] = 0
parts_length (p ∷ []) = len p
parts_length (p ∷ q ∷ ps) = len p + 1 + parts_length (q ∷ ps)

-- The length of a cleaned path's text.
pub path_length : FilePath → ℕ
unfolding parts_length
path_length p =
    if p.absolute
    then 1 + parts_length p.parts
    else elim p.parts [ [] ↦ 1 | q ∷ qs ↦ parts_length (q ∷ qs) ]

same_parts : List String → List String → Bool
same_parts [] [] = true
same_parts [] (b ∷ bs) = false
same_parts (a ∷ as') [] = false
same_parts (a ∷ as') (b ∷ bs) = a == b && same_parts as' bs

-- Equality of two cleaned paths.
unfoldable pub same_path : FilePath → FilePath → Bool
unfolding same_parts same_kind
same_path a b = same_kind a.absolute b.absolute && same_parts a.parts b.parts

unfoldable pub contains_path : List FilePath → FilePath → Bool
contains_path [] p = false
contains_path (q ∷ qs) p = same_path q p || contains_path qs p

join_parts : List String → String
join_parts [] = ""
join_parts (p ∷ []) = p
join_parts (p ∷ q ∷ ps) = p <> ("/" <> join_parts (q ∷ ps))

-- The text of a cleaned path.
unfoldable pub show_path : FilePath → String
unfolding join_parts
show_path p =
    if p.absolute
    then "/" <> join_parts p.parts
    else elim p.parts [ [] ↦ "." | q ∷ qs ↦ join_parts (q ∷ qs) ]

-- filepath.Dir of a cleaned path
drop_last : List String → List String
drop_last [] = []
drop_last (p ∷ []) = []
drop_last (p ∷ q ∷ ps) = p ∷ drop_last (q ∷ ps)

unfoldable pub dir_of : FilePath → FilePath
unfolding drop_last
dir_of p = record p { parts = drop_last p.parts }
