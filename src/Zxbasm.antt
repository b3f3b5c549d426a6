-- ===== src/Zxbasm.antt =====
-- src/zxbasm: the assembler.
pub mod Opcodes
pub mod Instruction
pub mod Expr
pub mod Label
pub mod Memory
pub mod Asm
