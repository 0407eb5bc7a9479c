-- ===== src/Common/Depth.antt =====
-- Python integers that only go up and down by one: the nesting depth of brackets.
use Prim.Native.Nat.{ℕ, zero, suc}
use mathlib.Core.Bool.{Bool, true, false}

-- `negsuc n` is -(n + 1).
pub data ℤ : Type 0 where
  pos : ℕ → ℤ
  negsuc : ℕ → ℤ

abbrev pub inc : ℤ → ℤ
inc (pos n) = pos (suc n)
inc (negsuc zero) = pos zero
inc (negsuc (suc n)) = negsuc n

abbrev pub dec : ℤ → ℤ
dec (pos zero) = negsuc zero
dec (pos (suc n)) = pos n
dec (negsuc n) = negsuc (suc n)

abbrev pub is_zero : ℤ → Bool
is_zero (pos zero) = true
is_zero (pos (suc n)) = false
is_zero (negsuc n) = false

-- z + n and z - n
abbrev pub up : ℕ → ℤ → ℤ
up zero z = z
up (suc n) z = up n (inc z)

abbrev pub down : ℕ → ℤ → ℤ
down zero z = z
down (suc n) z = down n (dec z)
