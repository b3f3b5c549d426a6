-- ===== src/Backend/Machine/Lines.antt =====
-- The lines of assembler that src/arch/z80/backend emits, each as data for one line of its texts.
use zxbasic.Prelude.{ℕ, List}
use zxbasic.Prelude.Int.{ℤ}

pub data Reg8 : Type 0 where
  a b c d e h l : Reg8

pub data Reg16 : Type 0 where
  af bc de hl : Reg16

-- An address: a number or a symbol, and either less one.
pub data Address : Type 0 where
  number : ℤ → Address
  number_minus_one : ℤ → Address
  symbol : List ℕ → Address
  symbol_minus_one : List ℕ → Address

-- What an instruction reads or writes a byte of: a register, memory, a constant, the value of a symbol.
pub data Place : Type 0 where
  reg : Reg8 → Place
  at_reg : Reg16 → Place
  at_address : Address → Place
  byte : ℕ → Place
  value_of : List ℕ → Place

pub data Alu : Type 0 where
  add sub cp sbc and_a or_a xor_a : Alu

-- The temporary labels of src/api/tmp_labels.py are numbered.
pub data Instruction : Type 0 where
  ld : Place → Place → Instruction
  ld_word : Reg16 → Address → Instruction
  ld_symbol : Reg16 → List ℕ → Instruction
  alu : Alu → Place → Instruction
  inc dec srl sra : Reg8 → Instruction
  ld_number : Reg16 → ℕ → Instruction
  inc_word dec_word push pop add_hl sbc_hl : Reg16 → Instruction
  neg cpl ccf : Instruction
  pragma_require_a : Instruction

pub data Condition : Type 0 where
  always when_z when_nz when_nc : Condition

-- The routines of the runtime library that are called.
pub data Routine : Type 0 where
  mul8_fast divu8_fast divi8_fast modu8_fast modi8_fast : Routine
  lti8_call lei8_call xor8_call abs8_call band16_call load_de_de : Routine

pub data Line : Type 0 where
  plain : Instruction → Line
  label : ℕ → Line
  djnz jr_z : ℕ → Line
  jp : Condition → List ℕ → Line
  call : Routine → Line
