-- ===== src/Zxbasm/Expr/Operators.antt =====
-- The operators of `Expr.funct` in src/zxbasm/expr.py, on Python's integers: floor division and
-- remainder with the sign of the divisor, and bits in two's complement.
use Prim.Native.Nat.{bit_and, bit_or}
use zxbasic.Prelude.{ℕ, zero, suc, ◌-◌, ◌*◌, ◌/◌, ◌%◌, ◌^◌, ◌==◌, if◌then◌else◌, bit_xor}
use zxbasic.Prelude.Int.{ℤ, pos, negsuc, ◌+ℤ◌, ◌-ℤ◌, ◌*ℤ◌}

pub data Operator : Type 0 where
  sub add mul div pow modulo band bor bxor shl shr : Operator

pub data Calculation : Type 0 where
  value : ℤ → Calculation
  zero_division value_error not_an_integer : Calculation

-- `x // y` and `x % y`, for a divisor that is not 0
unfoldable pub floor_div : ℤ → ℤ → ℤ
floor_div (pos a) (pos b) = pos (a / b)
floor_div (negsuc a) (pos b) = negsuc (a / b)
floor_div (pos a) (negsuc b) = if a == 0 then pos 0 else negsuc ((a - 1) / suc b)
floor_div (negsuc a) (negsuc b) = pos (suc a / suc b)

unfoldable pub floor_mod : ℤ → ℤ → ℤ
floor_mod (pos a) (pos b) = pos (a % b)
floor_mod (negsuc a) (pos b) = pos (b - 1 - a % b)
floor_mod (pos a) (negsuc b) = let m = a % suc b in if m == 0 then pos 0 else negsuc (b - m)
floor_mod (negsuc a) (negsuc b) = let m = suc a % suc b in if m == 0 then pos 0 else negsuc (m - 1)

unfoldable pub power : ℤ → ℕ → ℤ
power x zero = pos 1
power x (suc n) = x *ℤ power x n

-- `negsuc n` has the bits of `n`, each inverted.
unfoldable pub and_ℤ : ℤ → ℤ → ℤ
and_ℤ (pos a) (pos b) = pos (bit_and a b)
and_ℤ (pos a) (negsuc b) = pos (a - bit_and a b)
and_ℤ (negsuc a) (pos b) = pos (b - bit_and a b)
and_ℤ (negsuc a) (negsuc b) = negsuc (bit_or a b)

unfoldable pub or_ℤ : ℤ → ℤ → ℤ
or_ℤ (pos a) (pos b) = pos (bit_or a b)
or_ℤ (pos a) (negsuc b) = negsuc (b - bit_and a b)
or_ℤ (negsuc a) (pos b) = negsuc (a - bit_and a b)
or_ℤ (negsuc a) (negsuc b) = negsuc (bit_and a b)

unfoldable pub xor_ℤ : ℤ → ℤ → ℤ
xor_ℤ (pos a) (pos b) = pos (bit_xor a b)
xor_ℤ (pos a) (negsuc b) = negsuc (bit_xor a b)
xor_ℤ (negsuc a) (pos b) = negsuc (bit_xor a b)
xor_ℤ (negsuc a) (negsuc b) = pos (bit_xor a b)

unfoldable pub shift_left : ℤ → ℕ → ℤ
shift_left (pos a) n = pos (a * 2 ^ n)
shift_left (negsuc a) n = negsuc (suc a * 2 ^ n - 1)

unfoldable pub shift_right : ℤ → ℕ → ℤ
shift_right (pos a) n = pos (a / 2 ^ n)
shift_right (negsuc a) n = negsuc (a / 2 ^ n)

-- The division operators raise on 0, and a power of 0 does with a negative exponent; other powers
-- with a negative exponent are floats. A shift by a negative number raises a `ValueError`.
unfoldable pub divide : (ℤ → ℤ → ℤ) → ℤ → ℤ → Calculation
divide f x (pos zero) = zero_division
divide f x (pos (suc n)) = value (f x (pos (suc n)))
divide f x (negsuc n) = value (f x (negsuc n))

raise_to : ℤ → ℤ → Calculation
raise_to x (pos n) = value (power x n)
raise_to (pos zero) (negsuc n) = zero_division
raise_to (pos (suc a)) (negsuc n) = not_an_integer
raise_to (negsuc a) (negsuc n) = not_an_integer

shift : (ℤ → ℕ → ℤ) → ℤ → ℤ → Calculation
shift f x (pos n) = value (f x n)
shift f x (negsuc n) = value_error

unfoldable pub calculate : Operator → ℤ → ℤ → Calculation
unfolding divide raise_to shift floor_div floor_mod power and_ℤ or_ℤ xor_ℤ shift_left shift_right
    ◌+ℤ◌ ◌-ℤ◌ ◌*ℤ◌
calculate sub x y = value (x -ℤ y)
calculate add x y = value (x +ℤ y)
calculate mul x y = value (x *ℤ y)
calculate div x y = divide floor_div x y
calculate modulo x y = divide floor_mod x y
calculate pow x y = raise_to x y
calculate band x y = value (and_ℤ x y)
calculate bor x y = value (or_ℤ x y)
calculate bxor x y = value (xor_ℤ x y)
calculate shl x y = shift shift_left x y
calculate shr x y = shift shift_right x y
