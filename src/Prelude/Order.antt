-- ===== src/Prelude/Order.antt =====
-- The order of texts.
use Prim.Native.Char.{Char, code}
use Prim.Native.Nat.{ℕ, Ordering, compare as compare_ℕ}
use Prim.Native.String.{String, compare, then}
use Prim.Native.String.compare.{nil-cons, cons-nil, cons-cons}
use text.Mathlib.Text.{◌==◌, is_le}
use mathlib.Core.Bool.{true, false}
use native.Mathlib.Omega.{arith}
use mathlib.Core.Path.{◌≡◌, refl}

before_cons : (d : Char) (t : String) → compare "" (String.◌∷◌ d t) ≡ Ordering.lt
before_cons d t i = nil-cons d t i

after_nil : (d : Char) (t : String) → compare (String.◌∷◌ d t) "" ≡ Ordering.gt
after_nil d t i = cons-nil d t i

of_cons :
    (c d : Char) (s t : String)
    → compare (String.◌∷◌ c s) (String.◌∷◌ d t) ≡ then (compare_ℕ (code c) (code d)) (compare s t)
of_cons c d s t i = cons-cons c d s t i

then_trans :
    (l m n : ℕ) (s t u : String)
    → (is_le (compare s t) ≡ true → is_le (compare t u) ≡ true → is_le (compare s u) ≡ true)
    → is_le (then (compare_ℕ l m) (compare s t)) ≡ true
    → is_le (then (compare_ℕ m n) (compare t u)) ≡ true
    → is_le (then (compare_ℕ l n) (compare s u)) ≡ true
then_trans l m n s t u h p q = ground (arith, h, p, q)

pub le_trans :
    (a b c : String)
    → is_le (compare a b) ≡ true
    → is_le (compare b c) ≡ true
    → is_le (compare a c) ≡ true
le_trans String.[] b String.[] p q = refl
le_trans String.[] b (String.◌∷◌ z u) p q = rw (before_cons z u) refl
le_trans (String.◌∷◌ x s) String.[] c p q = ground (arith, p, after_nil x s)
le_trans (String.◌∷◌ x s) (String.◌∷◌ y t) String.[] p q = ground (arith, q, after_nil y t)
le_trans (String.◌∷◌ x s) (String.◌∷◌ y t) (String.◌∷◌ z u) p q = ground (
  arith,
  p,
  q,
  of_cons x y s t,
  of_cons y z t u,
  of_cons x z s u,
  then_trans (code x) (code y) (code z) s t u (le_trans s t u),
)

then_total :
    (m n : ℕ) (s t : String)
    → (is_le (compare s t) ≡ false → is_le (compare t s) ≡ true)
    → is_le (then (compare_ℕ m n) (compare s t)) ≡ false
    → is_le (then (compare_ℕ n m) (compare t s)) ≡ true
then_total m n s t h p = ground (arith, h, p)

pub le_total : (a b : String) → is_le (compare a b) ≡ false → is_le (compare b a) ≡ true
le_total String.[] String.[] p = refl
le_total String.[] (String.◌∷◌ y t) p = ground (arith, p, before_cons y t)
le_total (String.◌∷◌ x s) String.[] p = ground (arith, before_cons x s)
le_total (String.◌∷◌ x s) (String.◌∷◌ y t) p =
    ground
      (arith, p, of_cons x y s t, of_cons y x t s, then_total (code x) (code y) s t (le_total s t))

then_antisym :
    (m n : ℕ) (s t : String)
    → (is_le (compare s t) ≡ true → is_le (compare t s) ≡ true → compare s t ≡ Ordering.eq)
    → is_le (then (compare_ℕ m n) (compare s t)) ≡ true
    → is_le (then (compare_ℕ n m) (compare t s)) ≡ true
    → then (compare_ℕ m n) (compare s t) ≡ Ordering.eq
then_antisym m n s t h p q = ground (arith, h, p, q)

le_antisym :
    (a b : String)
    → is_le (compare a b) ≡ true
    → is_le (compare b a) ≡ true
    → compare a b ≡ Ordering.eq
le_antisym String.[] String.[] p q = refl
le_antisym String.[] (String.◌∷◌ y t) p q = ground (arith, q, after_nil y t)
le_antisym (String.◌∷◌ x s) String.[] p q = ground (arith, p, after_nil x s)
le_antisym (String.◌∷◌ x s) (String.◌∷◌ y t) p q = ground (
  arith,
  p,
  q,
  of_cons x y s t,
  of_cons y x t s,
  then_antisym (code x) (code y) s t (le_antisym s t),
)

pub eq_of_le :
    (a b : String) → is_le (compare a b) ≡ true → is_le (compare b a) ≡ true → (a == b) ≡ true
eq_of_le a b p q = rw (le_antisym a b p q) refl
