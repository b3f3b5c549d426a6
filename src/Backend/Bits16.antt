-- ===== src/Backend/Bits16.antt =====
-- src/arch/z80/backend/_16bit.py: the code for operations on words, in HL and DE.
pub mod Fetch
pub mod Word
pub mod Given
pub mod Pushes
pub mod Sums
pub mod Bounds
pub mod Compare
pub mod Single
use zxbasic.Prelude.{
  ℕ, ◌+◌, ◌-◌, ◌/◌, ◌%◌, Bool, true, false, not, ◌==◌, ltb, List, [], ◌∷◌, ◌++◌, Option, none, some,
  if◌then◌else◌, replicate,
}
use zxbasic.Prelude.Int.{ℤ, pos, negsuc}
use zxbasic.Backend.Machine.{
  Reg8, Reg16, af, de, hl, Address, number, symbol, reg, at_reg, byte, or_a, xor_a, sub, sbc, ld,
  ld_word, ld_number, ld_symbol, alu, inc_word, dec_word, add_hl, sbc_hl, push, pop, ccf, always,
  when_z, when_nz, when_nc, Routine, band16_call, load_de_de, Line, plain, jp, call, word_of,
}
use zxbasic.Backend.Operand.{Operand, Base, int, name, is_int, is_global, is_id, ld_a, ld_h}
use zxbasic.Backend.Bits8.Arithmetic.{int_ops, is, push_af}

-- `int16`
abbrev pub int16 : ℤ → ℕ
int16 n = word_of n

abbrev pub push_hl : List Line
push_hl = plain (push hl) ∷ []

-- The first operand of `get_oper`, into HL. A name that is indirect is followed once more.
follow_hl : Bool → List Line
follow_hl false = []
follow_hl true =
    ld_a (at_reg hl)
    ∷ plain (inc_word hl)
    ∷ ld_h (at_reg hl)
    ∷ plain (ld (reg Reg8.l) (reg Reg8.a))
    ∷ []

abbrev pub first_hl : List ℕ → List Line
first_hl x = if is_id x then plain (ld_word hl (symbol x)) ∷ [] else plain (pop hl) ∷ []

unfoldable pub fetch_hl : Bool → Bool → Base → List Line
unfolding follow_hl is_id
fetch_hl true immediate (int n) = plain (ld_word hl (number n)) ∷ []
fetch_hl false immediate (int n) = plain (ld_number hl (int16 n)) ∷ []
fetch_hl true true (name x) = plain (ld_word hl (symbol x)) ∷ []
fetch_hl false true (name x) = plain (ld_symbol hl x) ∷ []
fetch_hl indirect false (name x) = first_hl x ++ follow_hl indirect

-- The second, into DE. The mark `*` of an immediate name is ignored.
follow_de : Bool → List Line
follow_de false = []
follow_de true = call load_de_de ∷ []

abbrev pub first_de : List ℕ → List Line
first_de x = if is_id x then plain (ld_word de (symbol x)) ∷ [] else plain (pop de) ∷ []

unfoldable pub fetch_de : Bool → Bool → Base → List Line
unfolding follow_de is_id
fetch_de true immediate (int n) = plain (ld_word de (number n)) ∷ []
fetch_de false immediate (int n) = plain (ld_number de (int16 n)) ∷ []
fetch_de indirect true (name x) = plain (ld_symbol de x) ∷ []
fetch_de indirect false (name x) = first_de x ++ follow_de indirect

unfoldable pub get_oper16 : Operand → List Line
get_oper16 op = fetch_hl op.indirect op.immediate op.base

unfoldable pub get_opers16 : Operand → Operand → List Line
get_opers16 op1 op2 = fetch_de op2.indirect op2.immediate op2.base ++ get_oper16 op1

unfoldable pub get_opers16_reversed : Operand → Operand → List Line
get_opers16_reversed op1 op2 = get_oper16 op2 ++ fetch_de op1.indirect op1.immediate op1.base

-- `add16`
add_word : ℕ → List Line
add_word n =
    if n == 0
    then push_hl
    else if ltb n 4
    then replicate n (plain (inc_word hl)) ++ push_hl
    else if ltb 65531 n
    then replicate (65536 - n) (plain (dec_word hl)) ++ push_hl
    else plain (ld_number de n) ∷ plain (add_hl de) ∷ push_hl

add16_ops : Operand → Operand → Option (Operand × ℤ) → List Line
unfolding add_word
add16_ops op1 op2 (some (op, n)) = get_oper16 op ++ add_word (int16 n)
add16_ops op1 op2 none =
    (if is_global op2 then get_opers16 op2 op1 else get_opers16 op1 op2)
    ++ plain (add_hl de) ∷ push_hl

unfoldable pub add16 : Operand → Operand → List Line
unfolding add16_ops int_ops
add16 op1 op2 = add16_ops op1 op2 (int_ops op1 op2)

-- `sub16`; `ld de, -n` is the word that is 65536 less n.
sub_word : ℕ → List Line
sub_word n =
    if n == 0
    then push_hl
    else if ltb n 4
    then replicate n (plain (dec_word hl)) ++ push_hl
    else if ltb 65531 n
    then replicate (65536 - n) (plain (inc_word hl)) ++ push_hl
    else plain (ld_number de (65536 - n)) ∷ plain (add_hl de) ∷ push_hl

-- HL less DE, with the carry reset
abbrev pub subtract_de : List Line
subtract_de = plain (alu or_a (reg Reg8.a)) ∷ plain (sbc_hl de) ∷ []

sub16_ops : Operand → Operand → Option ℤ → List Line
unfolding sub_word
sub16_ops op1 op2 (some n) = get_oper16 op1 ++ sub_word (int16 n)
sub16_ops op1 op2 none =
    (if is_global op2 then get_opers16_reversed op2 op1 else get_opers16 op1 op2)
    ++ subtract_de
    ++ push_hl

unfoldable pub sub16 : Operand → Operand → List Line
unfolding sub16_ops is_int
sub16 op1 op2 = sub16_ops op1 op2 (is_int op2)

-- The comparisons push AF.
abbrev pub carry_out : List Line
carry_out = plain (alu sbc (reg Reg8.a)) ∷ push_af

abbrev pub no_carry_out : List Line
no_carry_out = plain ccf ∷ carry_out

unfoldable pub ltu16 : Operand → Operand → List Line
ltu16 op1 op2 = get_opers16 op1 op2 ++ (subtract_de ++ carry_out)

unfoldable pub gtu16 : Operand → Operand → List Line
gtu16 op1 op2 = get_opers16_reversed op1 op2 ++ (subtract_de ++ carry_out)

unfoldable pub leu16 : Operand → Operand → List Line
leu16 op1 op2 = get_opers16_reversed op1 op2 ++ (subtract_de ++ no_carry_out)

unfoldable pub geu16 : Operand → Operand → List Line
geu16 op1 op2 = get_opers16 op1 op2 ++ (subtract_de ++ no_carry_out)

-- Whether HL is 0 is seen from A after that.
abbrev pub test_hl : List Line
test_hl = ld_a (reg Reg8.h) ∷ plain (alu or_a (reg Reg8.l)) ∷ []

unfoldable pub ne16 : Operand → Operand → List Line
ne16 op1 op2 = get_opers16 op1 op2 ++ (subtract_de ++ test_hl ++ push_af)

unfoldable pub not16 : Operand → List Line
not16 op =
    get_oper16 op ++ (test_hl ++ plain (alu sub (byte 1)) ∷ plain (alu sbc (reg Reg8.a)) ∷ push_af)

unfoldable pub load16 : Operand → List Line
load16 op = get_oper16 op ++ push_hl

unfoldable pub param16 : Operand → List Line
param16 op = get_oper16 op ++ push_hl

unfoldable pub fparam16 : Operand → List Line
fparam16 op = get_oper16 op

-- `band16`: with the constant 65535 there is no code at all.
band16_ops : Operand → Operand → Option (Operand × ℤ) → List Line
band16_ops op1 op2 (some (op, n)) =
    if is 65535 n
    then []
    else if is 0 n
    then get_oper16 op ++ plain (ld_number hl 0) ∷ push_hl
    else get_opers16 op (record { indirect = false; immediate = false; base = int n })
      ++ call band16_call ∷ push_hl
band16_ops op1 op2 none = get_opers16 op1 op2 ++ call band16_call ∷ push_hl

unfoldable pub band16 : Operand → Operand → List Line
unfolding band16_ops int_ops
band16 op1 op2 = band16_ops op1 op2 (int_ops op1 op2)
