-- ===== src/Zxbasm/Instruction/Numbers.antt =====
-- `num2bytes` of src/zxbasm/asm_instruction.py: the bytes of a number.
use zxbasic.Prelude.{ℕ, ◌+◌, ◌-◌, ◌*◌, ◌%◌, List, [], ◌∷◌, ◌≡◌, arith}
use zxbasic.Prelude.Int.{ℤ, pos, negsuc}
use zxbasic.Zxbasm.Instruction.{int, num2bytes, little_endian}

-- The number that bytes stand for, lowest first, and the residue of an integer.
abbrev from_bytes : List ℕ → ℕ
from_bytes [] = 0
from_bytes (b ∷ bs) = b + 256 * from_bytes bs

abbrev pub residue : ℤ → ℕ → ℕ
residue (pos x) m = x % m
residue (negsuc x) m = m - 1 - x % m

-- An argument of one or two bytes is encoded as its two's complement: the bytes stand for the
-- residue of the integer, of either sign, modulo 256 or 65536.
num2bytes-residue :
    (x : ℤ)
    → (from_bytes (num2bytes (int x) 1) ≡ residue x 256)
      × (from_bytes (num2bytes (int x) 2) ≡ residue x 65536)
unfolding num2bytes little_endian
num2bytes-residue (pos x) = (omega arith, omega arith)
num2bytes-residue (negsuc x) = (omega arith, omega arith)
