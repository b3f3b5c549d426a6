-- ===== src/Outfmt.antt =====
-- src/outfmt: the files that the assembler's binary is written to.
pub mod Tape
pub mod Rle
pub mod Snapshot
pub mod Z80
pub mod Sna
