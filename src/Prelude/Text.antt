-- ===== src/Prelude/Text.antt =====
-- Numbers as text, the order of texts, and maps with text keys as association lists.
use Prim.Native.Nat.{ℕ, zero, suc, ◌+◌, ◌-◌, ◌*◌, ◌/◌, ◌%◌, ◌<◌}
use Prim.Native.Char.{code}
use text.Mathlib.TextLemmas.{nil-append, cons-append}
use Prim.Native.String.{String, compare, ◌++◌ as ◌<>◌}
use mathlib.Core.Path.{◌≡◌, refl, sym, ap, ◌∙◌}
use mathlib.Core.Bool.{Bool, true, false, not, ◌&&◌, ◌||◌}
use mathlib.Core.Option.{Option, none, some}
use mathlib.Core.List.{List, [], ◌∷◌}
use native.Mathlib.Omega.{arith}
use text.Mathlib.Text.{◌==◌, is_le}
use text.Mathlib.TextEquality.{eq_iff}
use mathlib.Core.Logic.{inl, inr}
use compose_lock.Prelude.Tests.{ltb, beq, Bool-cases, if◌then◌else◌}
use compose_lock.Prelude.Lists.{contains}

digit : ℕ → String
digit n =
    if beq n 0
    then "0"
    else if beq n 1
    then "1"
    else if beq n 2
    then "2"
    else if beq n 3
    then "3"
    else if beq n 4
    then "4"
    else if beq n 5
    then "5"
    else if beq n 6
    then "6"
    else if beq n 7
    then "7"
    else if beq n 8
    then "8"
    else "9"

show_fuel : ℕ → ℕ → String
show_fuel zero n = ""
show_fuel (suc f) n =
    let rest = show_fuel f (n / 10) <> digit (n % 10) in if ltb n 10 then digit n else rest

-- A number in decimal, as `%d` prints it. A number has at most as many digits as n + 1.
unfoldable pub show : ℕ → String
unfolding digit show_fuel
show n = show_fuel (suc n) n

insert_sorted : String → List String → List String
insert_sorted a [] = a ∷ []
insert_sorted a (x ∷ xs) =
    let rest = insert_sorted a xs in if is_le (compare a x) then a ∷ x ∷ xs else x ∷ rest

-- slices.Sorted
unfoldable pub sort : List String → List String
unfolding insert_sorted
sort [] = []
sort (x ∷ xs) = insert_sorted x (sort xs)

-- slices.Compact: of equal neighbours the first is kept.
compact_from : String → List String → List String
compact_from a [] = []
compact_from a (x ∷ xs) = let rest = compact_from x xs in if a == x then rest else x ∷ rest

unfoldable pub compact : List String → List String
unfolding compact_from
compact [] = []
compact (x ∷ xs) = x ∷ compact_from x xs

-- A Go map with text keys; `lookup` is `v, ok := m[k]`.
module _ {ℓ} {V : Type ℓ} where
  unfoldable pub keys : List (String × V) → List String
  keys [] = []
  keys ((name, x) ∷ rest) = name ∷ keys rest

  unfoldable pub lookup : String → List (String × V) → Option V
  lookup key [] = none
  lookup key ((name, x) ∷ rest) = if name == key then some x else lookup key rest

  unfoldable pub erase : String → List (String × V) → List (String × V)
  erase key [] = []
  erase key ((name, x) ∷ rest) =
      let kept = erase key rest in if name == key then kept else (name, x) ∷ kept

  -- `m[key] = x`
  unfoldable pub insert : String → V → List (String × V) → List (String × V)
  insert key x [] = (key, x) ∷ []
  insert key x ((name, y) ∷ rest) =
      let inserted = insert key x rest in
      if name == key then (key, x) ∷ rest else (name, y) ∷ inserted

  -- `m[k]` with the zero value `d` where the key is missing.
  abbrev pub get_or : List (String × V) → String → V → V
  get_or m k d = elim (lookup k m) [ none ↦ d | some v ↦ v ]

contains-insert_sorted :
    (a b : String) (xs : List String) → contains (insert_sorted a xs) b ≡ (a == b || contains xs b)
unfolding insert_sorted contains
contains-insert_sorted a b [] = refl
contains-insert_sorted a b (x ∷ xs) = ground (arith, contains-insert_sorted a b xs)

pub contains-sort : (xs : List String) (b : String) → contains (sort xs) b ≡ contains xs b
unfolding sort contains
contains-sort [] b = refl
contains-sort (x ∷ xs) b = ground (arith, contains-insert_sorted x b (sort xs), contains-sort xs b)

pub contains-keys-insert {ℓ} :
    {V : Type ℓ} (k : String) (v : V) (m : List (String × V)) (b : String)
    → contains (keys (insert k v m)) b ≡ (k == b || contains (keys m) b)
unfolding insert keys contains
contains-keys-insert k v [] b = refl
contains-keys-insert k v ((j, w) ∷ m) b =
    ground (arith, contains-keys-insert k v m b, eq_iff j k, eq_iff j b, eq_iff k b)

pub lookup-insert {ℓ} :
    {V : Type ℓ} (m : List (String × V)) (key sought : String) (x : V)
    → lookup sought (insert key x m) ≡ (if key == sought then some x else lookup sought m)
unfolding insert lookup
lookup-insert [] key sought x = refl
lookup-insert ((name, y) ∷ rest) key sought x =
    ground (
      arith,
      lookup-insert rest key sought x,
      eq_iff name key,
      eq_iff key sought,
      eq_iff name sought,
    )

pub lookup-erase_ne {ℓ} :
    {V : Type ℓ} (k j : String) (m : List (String × V))
    → (k == j) ≡ false
    → lookup j (erase k m) ≡ lookup j m
unfolding lookup erase
lookup-erase_ne k j [] d = refl
lookup-erase_ne k j ((i, w) ∷ m) d =
    ground (arith, d, eq_iff i k, eq_iff i j, eq_iff k j, lookup-erase_ne k j m d)

-- A text without a NUL byte.
unfoldable pub nul_free : String → Bool
nul_free String.[] = true
nul_free (String.◌∷◌ c s) = not (beq (code c) 0) && nul_free s

nul_free-append : (s t : String) → nul_free (s <> t) ≡ (nul_free s && nul_free t)
unfolding nul_free
nul_free-append String.[] t = rw (nil-append t) refl
nul_free-append (String.◌∷◌ c s) t = rw (cons-append c s t) (ground (arith, nul_free-append s t))

nul_free_digits :
    ((nul_free "0" ≡ true)
      × ((nul_free "1" ≡ true)
          × ((nul_free "2" ≡ true)
              × ((nul_free "3" ≡ true)
                  × ((nul_free "4" ≡ true)
                      × ((nul_free "5" ≡ true)
                          × ((nul_free "6" ≡ true)
                              × ((nul_free "7" ≡ true)
                                  × ((nul_free "8" ≡ true) × (nul_free "9" ≡ true))))))))))
unfolding nul_free
nul_free_digits = (refl, (refl, (refl, (refl, (refl, (refl, (refl, (refl, (refl, refl)))))))))

nul_free-digit : (n : ℕ) → nul_free (digit n) ≡ true
unfolding digit
nul_free-digit n = ground (arith, nul_free_digits)

nul_free-show_fuel : (f n : ℕ) → nul_free (show_fuel f n) ≡ true
unfolding show_fuel nul_free
nul_free-show_fuel zero n = refl
nul_free-show_fuel (suc f) n = ground (
  arith,
  nul_free-digit n,
  nul_free-digit (n % 10),
  nul_free-show_fuel f (n / 10),
  nul_free-append (show_fuel f (n / 10)) (digit (n % 10)),
)

pub nul_free-show : (n : ℕ) → nul_free (show n) ≡ true
unfolding show
nul_free-show n = nul_free-show_fuel (suc n) n

number_from : ℕ → String → ℕ
number_from n String.[] = n
number_from n (String.◌∷◌ c s) = number_from (n * 10 + (code c - b'0')) s

number_from-append :
    (n : ℕ) (s t : String) → number_from n (s <> t) ≡ number_from (number_from n s) t
unfolding number_from
number_from-append n String.[] t = rw (nil-append t) refl
number_from-append n (String.◌∷◌ c s) t =
    rw (cons-append c s t) (number_from-append (n * 10 + (code c - b'0')) s t)

digit_numbers :
    (n : ℕ)
    → ((number_from n "0" ≡ n * 10 + 0)
        × ((number_from n "1" ≡ n * 10 + 1)
            × ((number_from n "2" ≡ n * 10 + 2)
                × ((number_from n "3" ≡ n * 10 + 3)
                    × ((number_from n "4" ≡ n * 10 + 4)
                        × ((number_from n "5" ≡ n * 10 + 5)
                            × ((number_from n "6" ≡ n * 10 + 6)
                                × ((number_from n "7" ≡ n * 10 + 7)
                                    × ((number_from n "8" ≡ n * 10 + 8)
                                        × (number_from n "9" ≡ n * 10 + 9))))))))))
unfolding number_from
digit_numbers n = (refl, (refl, (refl, (refl, (refl, (refl, (refl, (refl, (refl, refl)))))))))

number_from-digit : (n d : ℕ) → d < 10 → number_from n (digit d) ≡ n * 10 + d
unfolding digit
number_from-digit n d h = ground (arith, h, digit_numbers n)

number_from-show_fuel : (f n : ℕ) → n < f → number_from 0 (show_fuel f n) ≡ n
unfolding show_fuel
number_from-show_fuel zero n h = absurd (ground (arith, h))
number_from-show_fuel (suc f) n h = elim (Bool-cases (ltb n 10)) [
  | inl small ↦ rw small (number_from-digit 0 n (ground (arith, small)) ∙ ground arith)
  | inr large ↦
      let rest = number_from-show_fuel f (n / 10) (ground (arith, h, large)) in
      rw (large, number_from-append 0 (show_fuel f (n / 10)) (digit (n % 10)), rest)
        (number_from-digit (n / 10) (n % 10) (ground arith) ∙ ground arith)
]

pub show_inj : (m n : ℕ) → show m ≡ show n → m ≡ n
unfolding show
show_inj m n e =
    sym (number_from-show_fuel (suc m) m (ground arith))
    ∙ (ap (number_from 0) e ∙ number_from-show_fuel (suc n) n (ground arith))
