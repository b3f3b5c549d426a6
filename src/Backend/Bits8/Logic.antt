-- ===== src/Backend/Bits8/Logic.antt =====
-- src/arch/z80/backend/_8bit.py: logical and bitwise operations. A temporary label is its number,
-- from a counter that is passed and returned.
pub mod Bitwise
pub mod Truth
use zxbasic.Prelude.{
  ℕ, zero, suc, ◌+◌, ◌-◌, Bool, true, false, not, ◌&&◌, ◌||◌, ◌==◌, ltb, leb, List, [], ◌∷◌, ◌++◌,
  Option, none, some, if◌then◌else◌, replicate,
}
use zxbasic.Prelude.Int.{ℤ, pos, negsuc}
use zxbasic.Backend.Machine.{
  Reg8, Reg16, reg, byte, at_reg, at_address, Address, number, symbol, Alu, add, sub, cp, sbc,
  and_a, or_a, xor_a, ld, ld_word, alu, inc, dec, srl, sra, push, pop, neg, cpl, ccf, inc_word,
  pragma_require_a, Condition, always, when_z, when_nz, when_nc, Routine, lti8_call, lei8_call,
  xor8_call, abs8_call, Instruction, Line, plain, label, djnz, jr_z, jp, call, word_of,
}
use zxbasic.Backend.Operand.{
  Operand, Base, int, name, is_int, is_global, is_id, int8, ld_h, ld_a, get_oper, get_opers,
  get_opers_reversed,
}
use zxbasic.Backend.Bits8.Arithmetic.{push_af, a, int_ops, is}

alu_h : Alu → List Line
alu_h op = plain (alu op (reg Reg8.h)) ∷ push_af

or_ops : Operand → Operand → Option (Operand × ℤ) → List Line
unfolding alu_h
or_ops op1 op2 (some (op, n)) = get_oper op ++ (if is 0 n then push_af else ld_a (byte 1) ∷ push_af)
or_ops op1 op2 none = get_opers op1 op2 ++ alu_h or_a

unfoldable pub or8 : Operand → Operand → List Line
unfolding or_ops int_ops
or8 op1 op2 = or_ops op1 op2 (int_ops op1 op2)

bor_ops : Operand → Operand → Option (Operand × ℤ) → List Line
unfolding alu_h
bor_ops op1 op2 (some (op, n)) =
    if is 0 n
    then get_oper op ++ push_af
    else if is 255 n
    then get_oper op ++ ld_a (byte 255) ∷ push_af
    else get_opers op1 op2 ++ alu_h or_a
bor_ops op1 op2 none = get_opers op1 op2 ++ alu_h or_a

unfoldable pub bor8 : Operand → Operand → List Line
unfolding bor_ops int_ops
bor8 op1 op2 = bor_ops op1 op2 (int_ops op1 op2)

and_ops : ℕ → Operand → Operand → Option (Operand × ℤ) → List Line × ℕ
and_ops lbl op1 op2 (some (op, n)) =
    (get_oper op ++ (if not (is 0 n) then push_af else plain (alu xor_a (reg a)) ∷ push_af), lbl)
and_ops lbl op1 op2 none = (
  get_opers op1 op2
      ++ plain (alu or_a (reg a)) ∷ jr_z lbl ∷ ld_a (reg Reg8.h) ∷ label lbl ∷ push_af,
  lbl + 1,
)

unfoldable pub and8 : ℕ → Operand → Operand → List Line × ℕ
unfolding and_ops int_ops
and8 lbl op1 op2 = and_ops lbl op1 op2 (int_ops op1 op2)

band_ops : Operand → Operand → Option (Operand × ℤ) → List Line
unfolding alu_h
band_ops op1 op2 (some (op, n)) =
    if is 255 n
    then get_oper op ++ push_af
    else if is 0 n
    then get_oper op ++ plain (alu xor_a (reg a)) ∷ push_af
    else get_opers op1 op2 ++ alu_h and_a
band_ops op1 op2 none = get_opers op1 op2 ++ alu_h and_a

unfoldable pub band8 : Operand → Operand → List Line
unfolding band_ops int_ops
band8 op1 op2 = band_ops op1 op2 (int_ops op1 op2)

-- 255 if A is 0, and 0 otherwise
abbrev pub inverted : List Line
inverted = plain (alu sub (byte 1)) ∷ plain (alu sbc (reg a)) ∷ push_af

xor_ops : Operand → Operand → Option (Operand × ℤ) → List Line
xor_ops op1 op2 (some (op, n)) = get_oper op ++ (if is 0 n then push_af else inverted)
xor_ops op1 op2 none = get_opers op1 op2 ++ call xor8_call ∷ push_af

unfoldable pub xor8 : Operand → Operand → List Line
unfolding xor_ops int_ops
xor8 op1 op2 = xor_ops op1 op2 (int_ops op1 op2)

bxor_ops : Operand → Operand → Option (Operand × ℤ) → List Line
unfolding alu_h
bxor_ops op1 op2 (some (op, n)) =
    if is 0 n
    then get_oper op ++ push_af
    else if is 255 n
    then get_oper op ++ plain cpl ∷ push_af
    else get_opers op1 op2 ++ alu_h xor_a
bxor_ops op1 op2 none = get_opers op1 op2 ++ alu_h xor_a

unfoldable pub bxor8 : Operand → Operand → List Line
unfolding bxor_ops int_ops
bxor8 op1 op2 = bxor_ops op1 op2 (int_ops op1 op2)

unfoldable pub not8 : Operand → List Line
not8 op = get_oper op ++ inverted

unfoldable pub bnot8 : Operand → List Line
bnot8 op = get_oper op ++ plain cpl ∷ push_af

unfoldable pub neg8 : Operand → List Line
neg8 op = get_oper op ++ plain neg ∷ push_af

unfoldable pub abs8 : Operand → List Line
abs8 op = get_oper op ++ call abs8_call ∷ push_af
