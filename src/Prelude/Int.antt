-- ===== src/Prelude/Int.antt =====
-- Integers, as far as the configuration compares them.
use Prim.Native.Nat.{ℕ, ◌+◌, ◌-◌, ◌/◌, ◌%◌, ◌≤◌}
use Prim.Native.String.{String, ◌++◌ as ◌<>◌}
use mathlib.Core.Path.{◌≡◌}
use mathlib.Core.Bool.{Bool, true, false}
use native.Mathlib.Omega.{arith}
use compose_lock.Prelude.Tests.{ltb, beq, if◌then◌else◌}
use compose_lock.Prelude.Text.{show}

-- `negsuc n` is -(n + 1).
pub data ℤ : Type 0 where
  pos negsuc : ℕ → ℤ

-- `a < b`
unfoldable pub ltz : ℤ → ℤ → Bool
ltz (pos a) (pos b) = ltb a b
ltz (pos a) (negsuc b) = false
ltz (negsuc a) (pos b) = true
ltz (negsuc a) (negsuc b) = ltb b a

unfoldable pub same_int : ℤ → ℤ → Bool
same_int (pos a) (pos b) = beq a b
same_int (negsuc a) (negsuc b) = beq a b
same_int _ _ = false

-- Whether a positive number divides an integer, and the quotient where it does.
unfoldable pub divides : ℕ → ℤ → Bool
divides m (pos n) = beq (n % m) 0
divides m (negsuc n) = beq ((n + 1) % m) 0

unfoldable pub quotient : ℤ → ℕ → ℤ
quotient (pos n) m = pos (n / m)
quotient (negsuc n) m = let q = (n + 1) / m in if beq q 0 then pos 0 else negsuc (q - 1)

unfoldable pub show_int : ℤ → String
show_int (pos n) = show n
show_int (negsuc n) = "-" <> show (n + 1)

-- An integer that is a natural number, and at least `k`.
abbrev pub AtLeast : ℕ → ℤ → Type 0
AtLeast k (pos n) = k ≤ n
AtLeast k (negsuc n) = ⊥

pub not-ltz : (k : ℕ) (z : ℤ) → ltz z (pos k) ≡ false → AtLeast k z
unfolding ltz
not-ltz k (pos n) h = ground (arith, h)
not-ltz k (negsuc n) h = absurd (cc)
