-- ===== src/Zxbasm/Opcodes/Entry.antt =====
-- src/zxbasm/z80.py: `Opcode`, with the key under which the dictionary `Z80SET` holds it.
use zxbasic.Prelude.{ℕ}
use Prim.Native.String.{String}

pub record Opcode : Type 0 where
  pub key : String
  pub asm : String
  pub t : ℕ
  pub size : ℕ
  pub opcode : String

abbrev pub entry : String → String → ℕ → ℕ → String → Opcode
entry key asm t size code = record { key = key; asm = asm; t = t; size = size; opcode = code }
