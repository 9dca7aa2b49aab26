-- ===== src/State/Failed.antt =====
-- The set of commits that failed: what `MarkFailed` and `ForgetFailed` of state.go do to it.
use mathlib.Core.List.{append_assoc, append-nil}
use compose_lock.Prelude.{
  ℕ, zero, suc, ◌-◌, ◌≤◌, String, ◌≡◌, ◌≢◌, refl, sym, ◌∙◌, true, false, List, [], ◌∷◌, ◌++◌, arith,
  ltb, ◌==◌, eq_iff, eq_refl, contains, contains-append, contains-delete_self, contains-delete_ne,
  delete, drop, last_n, length, length-append, IsDistinct, All, if◌then◌else◌,
}
use compose_lock.State.{State, max_failed_commits, is_known_bad, mark_failed, forget_failed}

pub length-delete : (a : String) (xs : List String) → length (delete a xs) ≤ length xs
unfolding delete
length-delete a [] = omega arith
length-delete a (x ∷ xs) = ground (arith, length-delete a xs)

pub IsDistinct-delete : (a : String) (xs : List String) → IsDistinct xs → IsDistinct (delete a xs)
unfolding delete
IsDistinct-delete a [] h = tt
IsDistinct-delete a (x ∷ xs) h =
    ground (arith, IsDistinct-delete a xs h.1, contains-delete_ne a x xs, eq_iff x a, eq_iff a x)

pub IsDistinct-append_one :
    (xs : List String) (a : String)
    → contains xs a ≡ false
    → IsDistinct xs
    → IsDistinct (xs ++ a ∷ [])
unfolding contains
IsDistinct-append_one [] a fresh h = (refl, tt)
IsDistinct-append_one (x ∷ xs) a fresh h =
    ground
      (arith, IsDistinct-append_one xs a, contains-append xs (a ∷ []) x, eq_iff a x, eq_iff x a)

pub IsDistinct-drop : (n : ℕ) (xs : List String) → IsDistinct xs → IsDistinct (drop n xs)
IsDistinct-drop zero xs h = h
IsDistinct-drop (suc n) [] h = h
IsDistinct-drop (suc n) (x ∷ xs) h = IsDistinct-drop n xs h.1

pub IsDistinct-last_n : (n : ℕ) (xs : List String) → IsDistinct xs → IsDistinct (last_n n xs)
unfolding last_n
IsDistinct-last_n n xs h = ground (arith, IsDistinct-drop (length xs - n) xs h)

-- What is dropped from the front of a list leaves its end whole.
drop-append {ℓ} :
    {A : Type ℓ} (n : ℕ) (xs ys : List A) → n ≤ length xs → drop n (xs ++ ys) ≡ drop n xs ++ ys
drop-append zero xs ys h = refl
drop-append (suc n) [] ys h = absurd (omega arith)
drop-append (suc n) (x ∷ xs) ys h = drop-append n xs ys (omega arith)

kept_front : ℕ → List String → List String → List String
kept_front n xs ys = if ltb n (length (xs ++ ys)) then drop (length (xs ++ ys) - n) xs else xs

last_n-append :
    (n : ℕ) (xs ys : List String) → length ys ≤ n → last_n n (xs ++ ys) ≡ kept_front n xs ys ++ ys
unfolding last_n kept_front
last_n-append n xs ys h =
    ground (arith, length-append xs ys, drop-append (length (xs ++ ys) - n) xs ys)

contains-last : (xs : List String) (a : String) → contains (xs ++ a ∷ []) a ≡ true
unfolding contains
contains-last [] a = ground (arith, eq_refl a)
contains-last (x ∷ xs) a = ground (arith, contains-last xs a)

delete-append_fresh :
    (a : String) (xs ys : List String)
    → contains ys a ≡ false
    → delete a (xs ++ ys) ≡ delete a xs ++ ys
unfolding delete contains
delete-append_fresh a [] [] h = refl
delete-append_fresh a [] (y ∷ ys) h = ground (arith, delete-append_fresh a [] ys)
delete-append_fresh a (x ∷ xs) ys h = ground (arith, delete-append_fresh a xs ys h)

-- The commits of a list, marked as failed one after another.
pub mark_all : State → List String → ℕ → State
mark_all s [] at = s
mark_all s (c ∷ cs) at = mark_all (mark_failed s c at) cs at

mark_failed_list :
    (s : State) (c : String) (at : ℕ)
    → c ≢ ""
    → (mark_failed s c at).failed_commits
      ≡ last_n max_failed_commits (delete c s.failed_commits ++ c ∷ [])
unfolding mark_failed
mark_failed_list s c at h = ground (arith, eq_iff c "")

fresh_of_distinct :
    (xs : List String) (c : String) (ys : List String)
    → IsDistinct (xs ++ c ∷ ys)
    → contains xs c ≡ false
unfolding contains
fresh_of_distinct [] c ys h = refl
fresh_of_distinct (x ∷ xs) c ys h =
    ground
      (arith, fresh_of_distinct xs c ys h.1, contains-append xs (c ∷ ys) x, eq_iff x c, eq_iff c x)

-- Marking a fresh commit keeps the end of the list and puts the commit behind it.
mark_failed_suffix :
    (s : State) (front done : List String) (c : String) (at : ℕ)
    → s.failed_commits ≡ front ++ done
    → contains done c ≡ false
    → c ≢ ""
    → length (done ++ c ∷ []) ≤ max_failed_commits
    → (mark_failed s c at).failed_commits
      ≡ kept_front max_failed_commits (delete c front) (done ++ c ∷ []) ++ (done ++ c ∷ [])
mark_failed_suffix s front done c at e fresh h l =
    mark_failed_list s c at h
    ∙ rw (e, delete-append_fresh c front done fresh, append_assoc)
        (last_n-append max_failed_commits (delete c front) (done ++ c ∷ []) l)

mark_all_suffix :
    (s : State) (done cs : List String) (at : ℕ) (front : List String)
    → s.failed_commits ≡ front ++ done
    → IsDistinct (done ++ cs)
    → length (done ++ cs) ≤ max_failed_commits
    → All (λ c. c ≢ "") cs
    → (front' : List String) × ((mark_all s cs at).failed_commits ≡ front' ++ (done ++ cs))
unfolding mark_all
mark_all_suffix s done [] at front e d l n = (front, rw append-nil e)
mark_all_suffix s done (c ∷ cs) at front e d l n =
    let (front', p) =
      mark_all_suffix (mark_failed s c at) (done ++ c ∷ []) cs at
        (kept_front max_failed_commits (delete c front) (done ++ c ∷ []))
        (mark_failed_suffix s front done c at e (fresh_of_distinct done c cs d) n.0
          (omega (arith, length-append {0} done (c ∷ []), length-append {0} done (c ∷ cs))))
        (rw append_assoc d) (rw append_assoc l) n.1 in
    (front', p ∙ rw append_assoc)

-- However the state looked before: of commits that fail one after another, the sixteen that failed
-- last are all known to be bad, if they differ and none is empty.
pub is_known_bad-mark_all :
    (s : State) (cs : List String) (at : ℕ) (c : String)
    → IsDistinct cs
    → length cs ≤ max_failed_commits
    → All (λ x. x ≢ "") cs
    → contains cs c ≡ true
    → c ≢ ""
    → is_known_bad (mark_all s cs at) c ≡ true
unfolding is_known_bad
is_known_bad-mark_all s cs at c d l n m h =
    let (front, p) =
      mark_all_suffix s [] cs at s.failed_commits (sym (append-nil s.failed_commits)) d l n in
    ground (arith, p, contains-append front cs c, eq_iff c "")

-- A commit that is not empty and is forgotten is no longer known to be bad, and every other commit
-- keeps its standing.
is_known_bad-forget_failed :
    (s : State) (c d : String)
    → c ≢ ""
    → is_known_bad (forget_failed s c) d ≡ (if c == d then false else is_known_bad s d)
unfolding is_known_bad forget_failed
is_known_bad-forget_failed s c d h = ground (
  arith,
  contains-delete_self c s.failed_commits,
  contains-delete_ne c d s.failed_commits,
  eq_iff c d,
  eq_iff d c,
  eq_iff d "",
  eq_iff c "",
  eq_iff s.last_failed_commit c,
  eq_iff d s.last_failed_commit,
  eq_iff d "",
)
