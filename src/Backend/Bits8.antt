-- ===== src/Backend/Bits8.antt =====
-- src/arch/z80/backend/_8bit.py: the code for the operations on bytes. Each result is pushed as AF.
pub mod Arithmetic
pub mod Compare
pub mod Logic
pub mod Shift
pub mod Transfer
