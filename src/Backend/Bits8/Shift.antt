-- ===== src/Backend/Bits8/Shift.antt =====
-- src/arch/z80/backend/_8bit.py: shifts. A temporary label is its number, from a counter that is
-- passed and returned; `most` is the number of shifts from which on there is a loop.
pub mod Loops
pub mod Powers
use zxbasic.Prelude.{
  ℕ, zero, suc, ◌+◌, ◌-◌, Bool, true, false, not, ◌&&◌, ◌||◌, ◌==◌, ltb, leb, List, [], ◌∷◌, ◌++◌,
  Option, none, some, if◌then◌else◌, replicate,
}
use zxbasic.Prelude.Int.{ℤ, pos, negsuc}
use zxbasic.Backend.Machine.{
  Reg8, Reg16, reg, byte, at_reg, at_address, Address, number, symbol, Alu, add, sub, cp, sbc,
  and_a, or_a, xor_a, ld, ld_word, alu, inc, dec, srl, sra, push, pop, neg, cpl, ccf, inc_word,
  pragma_require_a, Condition, always, when_z, when_nz, when_nc, Routine, lti8_call, lei8_call,
  xor8_call, abs8_call, Instruction, Line, plain, label, djnz, jr_z, jp, call, word_of,
}
use zxbasic.Backend.Operand.{
  Operand, Base, int, name, is_int, is_global, is_id, int8, ld_h, ld_a, get_oper, get_opers,
  get_opers_reversed,
}
use zxbasic.Backend.Bits8.Arithmetic.{push_af, a, int_ops, is}

-- B times the line, before other code
abbrev pub shift_loop : Line → ℕ → List Line → List Line
shift_loop shift lbl code = label lbl ∷ shift ∷ djnz lbl ∷ code

shift_int : Line → ℕ → ℕ → ℕ → List Line × ℕ
shift_int shift most lbl n =
    if ltb n most
    then (replicate n shift ++ push_af, lbl)
    else (plain (ld (reg Reg8.b) (byte n)) ∷ shift_loop shift lbl push_af, lbl + 1)

shift_names : Line → ℕ → Operand → Operand → List Line × ℕ
shift_names shift lbl op1 op2 = (
  get_opers_reversed op1 op2
      ++ plain (alu or_a (reg a))
        ∷ plain (ld (reg Reg8.b) (reg a))
        ∷ ld_a (reg Reg8.h)
        ∷ jr_z (lbl + 1)
        ∷ shift_loop shift lbl (label (lbl + 1) ∷ push_af),
  lbl + 2,
)

shift_zero : Line → ℕ → Operand → Operand → Option ℤ → List Line × ℕ
unfolding shift_names
shift_zero shift lbl op1 op2 none = shift_names shift lbl op1 op2
shift_zero shift lbl op1 op2 (some n) =
    if is 0 n
    then (get_oper op2 ++ plain (alu xor_a (reg a)) ∷ push_af, lbl)
    else shift_names shift lbl op1 op2

pub shift_ops : Line → ℕ → ℕ → Operand → Operand → Option ℤ → List Line × ℕ
unfolding shift_int shift_zero int8 is_int
shift_ops shift most lbl op1 op2 (some n) =
    let (code, lbl') = shift_int shift most lbl (int8 n) in (get_oper op1 ++ code, lbl')
shift_ops shift most lbl op1 op2 none = shift_zero shift lbl op1 op2 (is_int op1)

unfoldable pub shru8 : ℕ → Operand → Operand → List Line × ℕ
unfolding shift_ops is_int
shru8 lbl op1 op2 = shift_ops (plain (srl a)) 4 lbl op1 op2 (is_int op2)

unfoldable pub shri8 : ℕ → Operand → Operand → List Line × ℕ
unfolding shift_ops is_int
shri8 lbl op1 op2 = shift_ops (plain (sra a)) 4 lbl op1 op2 (is_int op2)

unfoldable pub shl8 : ℕ → Operand → Operand → List Line × ℕ
unfolding shift_ops is_int
shl8 lbl op1 op2 = shift_ops (plain (alu add (reg a))) 6 lbl op1 op2 (is_int op2)
