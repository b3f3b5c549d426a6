-- ===== src/Backend/Bits8/Transfer.antt =====
-- src/arch/z80/backend/_8bit.py: loads, stores, jumps, results and parameters.
pub mod Jumps
pub mod Single
pub mod Store
use zxbasic.Prelude.{
  ℕ, zero, suc, ◌+◌, ◌-◌, Bool, true, false, not, ◌&&◌, ◌||◌, ◌==◌, ltb, leb, List, [], ◌∷◌, ◌++◌,
  Option, none, some, if◌then◌else◌, replicate,
}
use zxbasic.Prelude.Int.{ℤ, pos, negsuc}
use zxbasic.Backend.Machine.{
  Reg8, Reg16, reg, byte, at_reg, at_address, Address, number, symbol, Alu, add, sub, cp, sbc,
  and_a, or_a, xor_a, ld, ld_word, alu, inc, dec, srl, sra, push, pop, neg, cpl, ccf, inc_word,
  pragma_require_a, Condition, always, when_z, when_nz, when_nc, Routine, lti8_call, lei8_call,
  xor8_call, abs8_call, Instruction, Line, plain, label, djnz, jr_z, jp, call, word_of,
}
use zxbasic.Backend.Operand.{
  Operand, Base, int, name, is_int, is_global, is_id, int8, ld_h, ld_a, get_oper, get_opers,
  get_opers_reversed,
}
use zxbasic.Backend.Bits8.Arithmetic.{push_af, a, int_ops, is}

unfoldable pub load8 : Operand → List Line
load8 op = get_oper op ++ push_af

-- The address to store to: a number, a name that is a label, or one on the stack.
store_a : Address → List Line
store_a n = plain (ld (at_address n) (reg a)) ∷ []

store_through : Address → List Line
store_through n = plain (ld_word Reg16.hl n) ∷ plain (ld (at_reg Reg16.hl) (reg a)) ∷ []

store_at : Bool → Bool → Address → List Line
unfolding store_a store_through
store_at indirect true n = store_a n
store_at true false n = store_through n
store_at false false n = store_a n

store_name : Bool → Bool → List ℕ → List Line
unfolding store_a store_through
store_name true true x = store_through (symbol x)
store_name false true x = store_a (symbol x)
store_name true false x =
    plain (pop Reg16.hl)
    ∷ plain (ld (reg Reg8.e) (at_reg Reg16.hl))
    ∷ plain (inc_word Reg16.hl)
    ∷ plain (ld (reg Reg8.d) (at_reg Reg16.hl))
    ∷ plain (ld (at_reg Reg16.de) (reg a))
    ∷ []
store_name false false x = plain (pop Reg16.hl) ∷ plain (ld (at_reg Reg16.hl) (reg a)) ∷ []

-- `op[0] in "_."`
is_label : List ℕ → Bool
is_label [] = false
is_label (c ∷ cs) = c == b'_' || c == b'.'

store_to : Bool → Bool → Base → List Line
unfolding store_at store_name is_label
store_to indirect immediate (int n) = store_at indirect immediate (number (pos (word_of n)))
store_to indirect immediate (name x) =
    if is_label x then store_at indirect immediate (symbol x) else store_name indirect immediate x

unfoldable pub store8 : Operand → Operand → List Line
unfolding store_to
store8 to op = get_oper op ++ store_to to.indirect to.immediate to.base

-- A jump that depends on a constant is decided here.
decided : Bool → List ℕ → List Line
decided true lbl = jp always lbl ∷ []
decided false lbl = []

jzero_ops : Operand → List ℕ → Option ℤ → List Line
unfolding decided
jzero_ops op lbl (some n) = decided (is 0 n) lbl
jzero_ops op lbl none = get_oper op ++ plain (alu or_a (reg a)) ∷ jp when_z lbl ∷ []

unfoldable pub jzero8 : Operand → List ℕ → List Line
unfolding jzero_ops is_int
jzero8 op lbl = jzero_ops op lbl (is_int op)

jnzero_ops : Operand → List ℕ → Option ℤ → List Line
unfolding decided
jnzero_ops op lbl (some n) = decided (not (is 0 n)) lbl
jnzero_ops op lbl none = get_oper op ++ plain (alu or_a (reg a)) ∷ jp when_nz lbl ∷ []

unfoldable pub jnzero8 : Operand → List ℕ → List Line
unfolding jnzero_ops is_int
jnzero8 op lbl = jnzero_ops op lbl (is_int op)

jgezerou_ops : Operand → List ℕ → Option ℤ → List Line
jgezerou_ops op lbl (some n) = jp always lbl ∷ []
jgezerou_ops op lbl none = get_oper op ++ jp always lbl ∷ []

unfoldable pub jgezerou8 : Operand → List ℕ → List Line
unfolding jgezerou_ops is_int
jgezerou8 op lbl = jgezerou_ops op lbl (is_int op)

abbrev is_natural : ℤ → Bool
is_natural (pos n) = true
is_natural (negsuc n) = false

jgezeroi_ops : Operand → List ℕ → Option ℤ → List Line
unfolding decided
jgezeroi_ops op lbl (some n) = decided (is_natural n) lbl
jgezeroi_ops op lbl none = get_oper op ++ plain (alu add (reg a)) ∷ jp when_nc lbl ∷ []

unfoldable pub jgezeroi8 : Operand → List ℕ → List Line
unfolding jgezeroi_ops is_int
jgezeroi8 op lbl = jgezeroi_ops op lbl (is_int op)

unfoldable pub ret8 : Operand → List ℕ → List Line
ret8 op lbl = get_oper op ++ plain pragma_require_a ∷ jp always lbl ∷ []

unfoldable pub param8 : Operand → List Line
param8 op = get_oper op ++ push_af

unfoldable pub fparam8 : Operand → List Line
fparam8 op = get_oper op
