-- ===== src/Backend.antt =====
-- src/arch/z80/backend: the generator of Z80 code.
pub mod Machine
pub mod Operand
pub mod Bits8
pub mod Bits16
