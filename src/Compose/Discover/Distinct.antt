-- ===== src/Compose/Discover/Distinct.antt =====
-- The names of the stacks that a discovery finds.
use Prim.Native.String.{compare}
use text.Mathlib.Text.{is_le}
use mathlib.Core.Path.{subst}
use compose_lock.Prelude.{
  ◌≡◌, refl, arith, String, Bool, true, false, ◌&&◌, Option, none, some, List, [], ◌∷◌, ◌++◌, ◌==◌,
  eq_iff, contains, IsDistinct, le_trans, le_total, eq_of_le,
}
use compose_lock.Paths.{FilePath}
use compose_lock.Errors.{Err, Try, ok, err}
use compose_lock.Compose.{Stack, Fs, Entry}
use compose_lock.Compose.Discover.{
  Discovery, stacks, insert_stack, sort_stacks, clash, clash_or, finish, finish_with, find_below,
  find_stacks, discover,
}

unfoldable pub names_of : List Stack → List String
names_of [] = []
names_of (s ∷ ss) = s.project_name ∷ names_of ss

from : String → List Stack → Bool
from a [] = true
from a (s ∷ ss) = is_le (compare a s.project_name) && from a ss

sorted : List Stack → Bool
unfolding from
sorted [] = true
sorted (s ∷ ss) = from s.project_name ss && sorted ss

from-weaker :
    (a b : String) (ss : List Stack)
    → is_le (compare a b) ≡ true
    → from b ss ≡ true
    → from a ss ≡ true
unfolding from
from-weaker a b [] p q = refl
from-weaker a b (s ∷ ss) p q = ground (arith, p, q, le_trans a b s.project_name, from-weaker a b ss)

from-insert_stack :
    (a : String) (s : Stack) (ss : List Stack)
    → from a (insert_stack s ss) ≡ (is_le (compare a s.project_name) && from a ss)
unfolding from insert_stack
from-insert_stack a s [] = refl
from-insert_stack a s (t ∷ ts) = ground (arith, from-insert_stack a s ts)

sorted-insert_stack :
    (s : Stack) (ss : List Stack) → sorted ss ≡ true → sorted (insert_stack s ss) ≡ true
unfolding sorted insert_stack from
sorted-insert_stack s [] p = refl
sorted-insert_stack s (t ∷ ts) p = ground (
  arith,
  p,
  from-weaker s.project_name t.project_name ts,
  from-insert_stack t.project_name s ts,
  sorted-insert_stack s ts,
  le_total s.project_name t.project_name,
)

sorted-sort_stacks : (ss : List Stack) → sorted (sort_stacks ss) ≡ true
unfolding sort_stacks sorted
sorted-sort_stacks [] = refl
sorted-sort_stacks (s ∷ ss) = sorted-insert_stack s (sort_stacks ss) (sorted-sort_stacks ss)

-- A name that is not above `t`'s and differs from it is none of those from `t` on.
fresh :
    (s t : String) (ts : List Stack)
    → is_le (compare s t) ≡ true
    → (t == s) ≡ false
    → from t ts ≡ true
    → contains (names_of ts) s ≡ false
unfolding names_of from contains
fresh s t [] p d q = refl
fresh s t (u ∷ us) p d q =
    ground (arith, p, d, q, fresh s t us, eq_iff u.project_name s, eq_of_le t s)

clash_here :
    (s t : Stack) (ts : List Stack)
    → clash (s ∷ t ∷ ts) ≡ none
    → (t.project_name == s.project_name) ≡ false
unfolding clash
clash_here s t ts p = ground (arith, p)

clash_later : (s t : Stack) (ts : List Stack) → clash (s ∷ t ∷ ts) ≡ none → clash (t ∷ ts) ≡ none
unfolding clash
clash_later s t ts p = ground (arith, p)

distinct : (ss : List Stack) → sorted ss ≡ true → clash ss ≡ none → IsDistinct (names_of ss)
unfolding names_of sorted from contains
distinct [] p c = tt
distinct (s ∷ []) p c = (refl, tt)
distinct (s ∷ t ∷ ts) p c = (
  ground (arith, p, clash_here s t ts c, fresh s.project_name t.project_name ts),
  distinct (t ∷ ts) (ground (arith, p)) (clash_later s t ts c),
)

IsNamed : Discovery → Type 0
IsNamed (stacks ss) = IsDistinct (names_of ss)
IsNamed _ = Unit

clash_or-IsNamed :
    (ss : List Stack) (c : Option Err) → clash ss ≡ c → sorted ss ≡ true → IsNamed (clash_or ss c)
unfolding clash_or IsNamed
clash_or-IsNamed ss none e p = distinct ss p e
clash_or-IsNamed ss (some x) e p = tt

finish-IsNamed : (dir : FilePath) (ss : List Stack) → IsNamed (finish dir ss)
unfolding finish IsNamed
finish-IsNamed dir [] = tt
finish-IsNamed dir (s ∷ ss) =
    clash_or-IsNamed (sort_stacks (s ∷ ss)) _ refl (sorted-sort_stacks (s ∷ ss))

finish_with-IsNamed :
    (dir : FilePath) (root : List Stack) (subs : Try (List Stack))
    → IsNamed (finish_with dir root subs)
unfolding finish_with IsNamed
finish_with-IsNamed dir root (err e) = tt
finish_with-IsNamed dir root (ok subs) = finish-IsNamed dir (root ++ subs)

find_below-IsNamed :
    (fs : Fs) (dir : FilePath) (base : String) (es : List Entry) (root : Try (List Stack))
    → IsNamed (find_below fs dir base es root)
unfolding find_below IsNamed
find_below-IsNamed fs dir base es (err e) = tt
find_below-IsNamed fs dir base es (ok root) = finish_with-IsNamed dir root _

find_stacks-IsNamed :
    (fs : Fs) (dir : FilePath) (base : String) (es : Try (List Entry))
    → IsNamed (find_stacks fs dir base es)
unfolding find_stacks IsNamed
find_stacks-IsNamed fs dir base (err e) = tt
find_stacks-IsNamed fs dir base (ok es) = find_below-IsNamed fs dir base es _

-- No two stacks of a discovery have one project name.
pub discover-IsDistinct :
    (fs : Fs) (dir : FilePath) (base : String) (ss : List Stack)
    → discover fs dir base ≡ stacks ss
    → IsDistinct (names_of ss)
unfolding discover IsNamed
discover-IsDistinct fs dir base ss e =
    subst IsNamed e (find_stacks-IsNamed fs dir base (fs.read_dir dir))
