-- ===== src/Backend/Operand.antt =====
-- src/arch/z80/backend/_8bit.py and common.py: the operands of a quad, and the lines that fetch them.
pub mod Meaning
pub mod Values
pub mod Fixed
pub mod Pushes
pub mod Fetched
pub mod Branches
pub mod Unlabelled
pub mod FetchA
pub mod FetchH
use zxbasic.Prelude.{
  ℕ, ◌-◌, ◌%◌, Bool, true, false, not, ◌&&◌, ◌==◌, List, [], ◌∷◌, ◌++◌, Option, none, some,
  if◌then◌else◌,
}
use zxbasic.Prelude.Int.{ℤ, pos, negsuc}
use zxbasic.Backend.Machine.{
  Reg8, Reg16, Address, number, number_minus_one, symbol, symbol_minus_one, Place, reg, at_reg,
  at_address, byte, value_of, xor_a, ld, ld_word, ld_symbol, alu, pop, Line, plain,
}

-- The text of an operand behind its marks: an integer or a name.
pub data Base : Type 0 where
  int : ℤ → Base
  name : List ℕ → Base

-- `*` is `indirect` and `#`, which comes after it, is `immediate`.
pub record Operand : Type 0 where
  pub indirect : Bool
  pub immediate : Bool
  pub base : Base

abbrev pub direct : Base → Operand
direct x = record { indirect = false; immediate = false; base = x }

-- `is_int(op)` of a whole operand: with a mark it is none.
as_int : Bool → Bool → Base → Option ℤ
as_int false false (int n) = some n
as_int false false (name x) = none
as_int false true x = none
as_int true immediate x = none

unfoldable pub is_int : Operand → Option ℤ
unfolding as_int
is_int op = as_int op.indirect op.immediate op.base

unfoldable pub is_id : List ℕ → Bool
is_id [] = false
is_id (c ∷ cs) = c == b'_'

-- `op[0] == "_"`
starts_id : Bool → Bool → Base → Bool
unfolding is_id
starts_id false false (int n) = false
starts_id false false (name x) = is_id x
starts_id false true x = false
starts_id true immediate x = false

unfoldable pub is_global : Operand → Bool
unfolding starts_id
is_global op = starts_id op.indirect op.immediate op.base

unfoldable pub int8 : ℤ → ℕ
int8 (pos n) = n % 256
int8 (negsuc n) = 255 - n % 256

abbrev is_0 : ℤ → Bool
is_0 (pos n) = n == 0
is_0 (negsuc n) = false

abbrev pub ld_a : Place → Line
ld_a from = plain (ld (reg Reg8.a) from)

abbrev pub ld_h : Place → Line
ld_h from = plain (ld (reg Reg8.h) from)

-- The first operand of `get_oper`, into A. `idx` is the register pair for an address.
unfoldable pub fetch_a : Reg16 → Bool → Bool → Base → List Line
unfolding int8 is_id
fetch_a idx true immediate (int n) = ld_a (at_address (number n)) ∷ []
fetch_a idx false immediate (int n) =
    if is_0 n then plain (alu xor_a (reg Reg8.a)) ∷ [] else ld_a (byte (int8 n)) ∷ []
fetch_a idx true true (name x) = ld_a (at_address (symbol x)) ∷ []
fetch_a idx false true (name x) = ld_a (value_of x) ∷ []
fetch_a idx true false (name x) =
    if is_id x
    then plain (ld_word idx (symbol x)) ∷ ld_a (at_reg idx) ∷ []
    else plain (pop idx) ∷ ld_a (at_reg idx) ∷ []
fetch_a idx false false (name x) =
    if is_id x then ld_a (at_address (symbol x)) ∷ [] else plain (pop Reg16.af) ∷ []

-- The second one, into H. A name that is indirect is followed once more at the end.
follow : Bool → List Line
follow true = ld_h (at_reg Reg16.hl) ∷ []
follow false = []

fetch_name : Bool → Bool → List ℕ → List Line
unfolding is_id
fetch_name true true x = plain (ld_symbol Reg16.hl x) ∷ ld_h (at_reg Reg16.hl) ∷ []
fetch_name false true x = ld_h (value_of x) ∷ []
fetch_name true false x =
    if is_id x
    then plain (ld_word Reg16.hl (symbol x)) ∷ ld_h (at_reg Reg16.hl) ∷ []
    else plain (pop Reg16.hl) ∷ []
fetch_name false false x =
    if is_id x
    then plain (ld_word Reg16.hl (symbol_minus_one x)) ∷ []
    else plain (pop Reg16.hl) ∷ []

unfoldable pub fetch_h : Bool → Bool → Base → List Line
unfolding int8 fetch_name follow
fetch_h true immediate (int n) = plain (ld_word Reg16.hl (number_minus_one n)) ∷ []
fetch_h false immediate (int n) = ld_h (byte (int8 n)) ∷ []
fetch_h indirect immediate (name x) = fetch_name indirect immediate x ++ follow indirect

-- `get_oper(op)`
unfoldable pub get_oper : Operand → List Line
unfolding fetch_a
get_oper op = fetch_a Reg16.hl op.indirect op.immediate op.base

-- `get_oper(op1, op2)` and `get_oper(op1, op2, reversed_=True)`
unfoldable pub get_opers : Operand → Operand → List Line
unfolding fetch_a fetch_h
get_opers op1 op2 =
    fetch_h op2.indirect op2.immediate op2.base
    ++ fetch_a Reg16.hl op1.indirect op1.immediate op1.base

unfoldable pub get_opers_reversed : Operand → Operand → List Line
unfolding fetch_a fetch_h
get_opers_reversed op1 op2 =
    fetch_a Reg16.bc op2.indirect op2.immediate op2.base
    ++ fetch_h op1.indirect op1.immediate op1.base
