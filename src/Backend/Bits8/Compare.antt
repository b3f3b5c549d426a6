-- ===== src/Backend/Bits8/Compare.antt =====
-- src/arch/z80/backend/_8bit.py: comparisons. True is 255 or another value that is not 0.
pub mod Unsigned
pub mod Equal
use zxbasic.Prelude.{
  ℕ, zero, suc, ◌+◌, ◌-◌, Bool, true, false, not, ◌&&◌, ◌||◌, ◌==◌, ltb, leb, List, [], ◌∷◌, ◌++◌,
  Option, none, some, if◌then◌else◌, replicate,
}
use zxbasic.Prelude.Int.{ℤ, pos, negsuc}
use zxbasic.Backend.Machine.{
  Reg8, Reg16, reg, byte, at_reg, at_address, Address, number, symbol, Alu, add, sub, cp, sbc,
  and_a, or_a, xor_a, ld, ld_word, alu, inc, dec, srl, sra, push, pop, neg, cpl, ccf, inc_word,
  pragma_require_a, Condition, always, when_z, when_nz, when_nc, Routine, lti8_call, lei8_call,
  xor8_call, abs8_call, Instruction, Line, plain, label, djnz, jr_z, jp, call, word_of,
}
use zxbasic.Backend.Operand.{
  Operand, Base, int, name, is_int, is_global, is_id, int8, ld_h, ld_a, get_oper, get_opers,
  get_opers_reversed,
}
use zxbasic.Backend.Bits8.Arithmetic.{push_af, a, int_ops, is}

abbrev pub sub_h : Line
sub_h = plain (alu sub (reg Reg8.h))

abbrev pub sbc_a : Line
sbc_a = plain (alu sbc (reg a))

unfoldable pub ltu8 : Operand → Operand → List Line
ltu8 op1 op2 = get_opers op1 op2 ++ plain (alu cp (reg Reg8.h)) ∷ sbc_a ∷ push_af

unfoldable pub lti8 : Operand → Operand → List Line
lti8 op1 op2 = get_opers op1 op2 ++ call lti8_call ∷ push_af

unfoldable pub gtu8 : Operand → Operand → List Line
gtu8 op1 op2 = get_opers_reversed op1 op2 ++ plain (alu cp (reg Reg8.h)) ∷ sbc_a ∷ push_af

unfoldable pub gti8 : Operand → Operand → List Line
gti8 op1 op2 = get_opers_reversed op1 op2 ++ call lti8_call ∷ push_af

-- The difference of the operands, in A: by a constant, with `dec` for 1 and nothing for 0.
differ_int : ℕ → List Line
differ_int n =
    if n == 0 then [] else if n == 1 then plain (dec a) ∷ [] else plain (alu sub (byte n)) ∷ []

differ : Operand → Operand → Option ℤ → List Line
unfolding int8 differ_int
differ op1 op2 (some n) = get_oper op1 ++ differ_int (int8 n)
differ op1 op2 none = get_opers op1 op2 ++ sub_h ∷ []

unfoldable pub eq8 : Operand → Operand → List Line
unfolding differ is_int
eq8 op1 op2 = differ op1 op2 (is_int op2) ++ plain (alu sub (byte 1)) ∷ sbc_a ∷ push_af

unfoldable pub ne8 : Operand → Operand → List Line
unfolding differ is_int
ne8 op1 op2 = differ op1 op2 (is_int op2) ++ push_af

unfoldable pub leu8 : Operand → Operand → List Line
leu8 op1 op2 = get_opers_reversed op1 op2 ++ sub_h ∷ plain ccf ∷ sbc_a ∷ push_af

unfoldable pub lei8 : Operand → Operand → List Line
lei8 op1 op2 = get_opers op1 op2 ++ call lei8_call ∷ push_af

above_int : ℕ → Line
above_int n = if n == 0 then plain (alu cp (reg a)) else plain (alu sub (byte n))

above : Operand → Operand → Option ℤ → List Line
unfolding int8 above_int
above op1 op2 (some n) = get_oper op1 ++ above_int (int8 n) ∷ []
above op1 op2 none = get_opers op1 op2 ++ sub_h ∷ []

unfoldable pub geu8 : Operand → Operand → List Line
unfolding above is_int
geu8 op1 op2 = above op1 op2 (is_int op2) ++ plain ccf ∷ sbc_a ∷ push_af

unfoldable pub gei8 : Operand → Operand → List Line
gei8 op1 op2 = get_opers_reversed op1 op2 ++ call lei8_call ∷ push_af
