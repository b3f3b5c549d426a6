-- ===== src/Backend/Bits8/Arithmetic.antt =====
-- src/arch/z80/backend/_8bit.py: addition, subtraction, multiplication, division and remainder.
pub mod Operands
pub mod Sums
pub mod Products
pub mod Quotients
pub mod SignedQuotients
pub mod Remainders
use zxbasic.Prelude.{
  ℕ, ◌-◌, Bool, true, false, not, ◌&&◌, ◌||◌, ◌==◌, List, [], ◌∷◌, ◌++◌, Option, none, some,
  if◌then◌else◌,
}
use zxbasic.Prelude.Int.{ℤ, pos, negsuc}
use zxbasic.Backend.Machine.{
  Reg8, Reg16, reg, byte, Alu, add, sub, and_a, xor_a, alu, inc, dec, srl, sra, push, neg, Routine,
  mul8_fast, divu8_fast, divi8_fast, modu8_fast, modi8_fast, Line, plain, call,
}
use zxbasic.Backend.Operand.{
  Operand, is_int, is_global, int8, ld_h, get_oper, get_opers, get_opers_reversed,
}

abbrev pub push_af : List Line
push_af = plain (push Reg16.af) ∷ []

abbrev pub a : Reg8
a = Reg8.a

-- `_int_ops`: the operand that is left, and the integer
abbrev int_ops_of : Operand → Operand → Option ℤ → Option ℤ → Option (Operand × ℤ)
int_ops_of op1 op2 (some n) o = some (op2, n)
int_ops_of op1 op2 none (some n) = some (op1, n)
int_ops_of op1 op2 none none = none

unfoldable pub int_ops : Operand → Operand → Option (Operand × ℤ)
unfolding is_int
int_ops op1 op2 = int_ops_of op1 op2 (is_int op1) (is_int op2)

abbrev pub is : ℕ → ℤ → Bool
is k (pos n) = n == k
is k (negsuc n) = false

-- `add8`
add_int : ℤ → List Line
unfolding int8
add_int n =
    if is 0 n
    then push_af
    else if int8 n == 1
    then plain (inc a) ∷ push_af
    else if int8 n == 255
    then plain (dec a) ∷ push_af
    else plain (alu add (byte (int8 n))) ∷ push_af

add_ops : Operand → Operand → Option (Operand × ℤ) → List Line
unfolding add_int
add_ops op1 op2 (some (op, n)) = get_oper op ++ add_int n
add_ops op1 op2 none =
    (if is_global op2 then get_opers op2 op1 else get_opers op1 op2)
    ++ plain (alu add (reg Reg8.h)) ∷ push_af

unfoldable pub add8 : Operand → Operand → List Line
unfolding add_ops int_ops
add8 op1 op2 = add_ops op1 op2 (int_ops op1 op2)

-- `sub8`
sub_int : ℕ → List Line
sub_int n =
    if n == 0
    then push_af
    else if n == 1
    then plain (dec a) ∷ push_af
    else if n == 255
    then plain (inc a) ∷ push_af
    else plain (alu sub (byte n)) ∷ push_af

-- The operands of an operation that does not commute: an identifier comes last.
unfoldable pub ordered : Operand → Operand → List Line
unfolding is_global
ordered op1 op2 = if is_global op2 then get_opers_reversed op2 op1 else get_opers op1 op2

sub_name : Operand → Operand → Option ℤ → List Line
unfolding ordered int8
sub_name op1 op2 none = ordered op1 op2 ++ plain (alu sub (reg Reg8.h)) ∷ push_af
sub_name op1 op2 (some n) =
    if int8 n == 0
    then get_oper op2 ++ plain neg ∷ push_af
    else ordered op1 op2 ++ plain (alu sub (reg Reg8.h)) ∷ push_af

sub_ops : Operand → Operand → Option ℤ → List Line
unfolding sub_int sub_name int8 is_int
sub_ops op1 op2 (some n) = get_oper op1 ++ sub_int (int8 n)
sub_ops op1 op2 none = sub_name op1 op2 (is_int op1)

unfoldable pub sub8 : Operand → Operand → List Line
unfolding sub_ops is_int
sub8 op1 op2 = sub_ops op1 op2 (is_int op2)

-- `mul8`
mul_int : ℤ → List Line
unfolding int8
mul_int n =
    if is 0 n
    then plain (alu xor_a (reg a)) ∷ push_af
    else if is 1 n
    then push_af
    else if is 2 n
    then plain (alu add (reg a)) ∷ push_af
    else if is 4 n
    then plain (alu add (reg a)) ∷ plain (alu add (reg a)) ∷ push_af
    else ld_h (byte (int8 n)) ∷ call mul8_fast ∷ push_af

mul_ops : Operand → Operand → Option (Operand × ℤ) → List Line
unfolding mul_int is_global
mul_ops op1 op2 (some (op, n)) = get_oper op ++ mul_int n
mul_ops op1 op2 none =
    (if is_global op2 then get_opers op2 op1 else get_opers op1 op2) ++ call mul8_fast ∷ push_af

unfoldable pub mul8 : Operand → Operand → List Line
unfolding mul_ops int_ops
mul8 op1 op2 = mul_ops op1 op2 (int_ops op1 op2)

-- The operand 0 by an identifier: the result is 0 with no operand fetched.
abbrev is_zero_int : Option ℤ → Bool
is_zero_int none = false
is_zero_int (some n) = is 0 n

pub divide_names : Routine → Operand → Operand → List Line
unfolding ordered is_global is_int
divide_names r op1 op2 =
    if is_global op2 && is_zero_int (is_int op1)
    then plain (alu xor_a (reg a)) ∷ push_af
    else ordered op1 op2 ++ call r ∷ push_af

-- `divu8` and `divi8`; the test for -1 of `divi8` comes after `& 0xFF` and never holds.
div_int : Routine → Line → ℕ → List Line
div_int r shift n =
    if n == 1 then push_af else if n == 2 then shift ∷ push_af else ld_h (byte n) ∷ call r ∷ push_af

pub div_ops : Routine → Line → Operand → Operand → Option ℤ → List Line
unfolding div_int divide_names int8
div_ops r shift op1 op2 (some n) = get_oper op1 ++ div_int r shift (int8 n)
div_ops r shift op1 op2 none = divide_names r op1 op2

unfoldable pub divu8 : Operand → Operand → List Line
unfolding div_ops is_int
divu8 op1 op2 = div_ops divu8_fast (plain (srl a)) op1 op2 (is_int op2)

unfoldable pub divi8 : Operand → Operand → List Line
unfolding div_ops is_int
divi8 op1 op2 = div_ops divi8_fast (plain (sra a)) op1 op2 (is_int op2)

-- `is_2n`, of a byte
unfoldable pub is_2n : ℕ → Bool
is_2n n = (n == 1 || n == 2 || n == 4 || n == 8) || (n == 16 || n == 32 || n == 64 || n == 128)

-- `modu8` and `modi8`
mod_int : Routine → Operand → ℕ → List Line
unfolding is_2n is_global
mod_int r op1 n =
    if n == 1
    then (if is_global op1 then [] else get_oper op1) ++ plain (alu xor_a (reg a)) ∷ push_af
    else if is_2n n
    then get_oper op1 ++ plain (alu and_a (byte (n - 1))) ∷ push_af
    else get_oper op1 ++ ld_h (byte n) ∷ call r ∷ push_af

mod_ops : Routine → Operand → Operand → Option ℤ → List Line
unfolding mod_int divide_names int8
mod_ops r op1 op2 (some n) = mod_int r op1 (int8 n)
mod_ops r op1 op2 none = divide_names r op1 op2

unfoldable pub modu8 : Operand → Operand → List Line
unfolding mod_ops is_int
modu8 op1 op2 = mod_ops modu8_fast op1 op2 (is_int op2)

unfoldable pub modi8 : Operand → Operand → List Line
unfolding mod_ops is_int
modi8 op1 op2 = mod_ops modi8_fast op1 op2 (is_int op2)
