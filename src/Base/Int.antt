-- ===== src/Base/Int.antt =====
-- Python's signed integers; `negsuc n` is -(n + 1).
use Prim.Native.Nat.{ℕ, zero, suc, ◌+◌}
use mathlib.Core.Bool.{Bool, true, false}
use omegahive.Base.Tests.{ltb}

pub data ℤ : Type 0 where
  pos : ℕ → ℤ
  negsuc : ℕ → ℤ

-- `n + 1`
abbrev pub next_int : ℤ → ℤ
next_int (pos n) = pos (suc n)
next_int (negsuc zero) = pos 0
next_int (negsuc (suc n)) = negsuc n

-- `a - b` of two natural numbers.
abbrev pub sub_ℕ : ℕ → ℕ → ℤ
sub_ℕ a zero = pos a
sub_ℕ zero (suc b) = negsuc b
sub_ℕ (suc a) (suc b) = sub_ℕ a b

-- `a + b`
unfoldable pub add_int : ℤ → ℤ → ℤ
add_int (pos a) (pos b) = pos (a + b)
add_int (pos a) (negsuc b) = sub_ℕ a (suc b)
add_int (negsuc a) (pos b) = sub_ℕ b (suc a)
add_int (negsuc a) (negsuc b) = negsuc (suc (a + b))

abbrev pub int_is_zero : ℤ → Bool
int_is_zero (pos zero) = true
int_is_zero _ = false

-- `a > n` for a limit that is not negative.
abbrev pub exceeds : ℤ → ℕ → Bool
exceeds (pos a) n = ltb n a
exceeds (negsuc a) n = false
