-- ===== src/Outfmt/Z80.antt =====
-- src/outfmt/z80.py: `Z80Emitter`, 48K snapshots in version 1 of the .Z80 format.
pub mod Header
pub mod ReadBack
use zxbasic.Prelude.{
  ℕ, ◌-◌, suc, ◌*◌, ◌/◌, ◌^◌, Bool, true, ◌&&◌, List, [], ◌∷◌, ◌++◌, Option, none, some, length,
  take, ltb, ◌==◌, if◌then◌else◌,
}
use Prim.Native.Nat.{bit_and, bit_or}
use zxbasic.Prelude.Int.{ℤ, pos, ◌-ℤ◌}
use zxbasic.Prelude.Monad.{◌>>=◌}
use zxbasic.Outfmt.Rle.{compress, end_marker}
use zxbasic.Outfmt.Snapshot.{Snapshot, gen_snapshot, ram_size}

abbrev flag : ℕ → ℕ
flag iff = if iff == 0 then 0 else 1

-- The thirty bytes of the header.
abbrev pub header : Snapshot → List ℕ
header s =
    s.a
    ∷ s.f
    ∷ s.c
    ∷ s.b
    ∷ s.l
    ∷ s.h
    ∷ s.pcl
    ∷ s.pch
    ∷ s.spl
    ∷ s.sph
    ∷ s.i
    ∷ bit_and s.r 0x7F
    ∷ bit_or (bit_or (bit_and s.r 0x80 / 2 ^ 7) (bit_and s.out_fe 7 * 2 ^ 1)) 0x20
    ∷ s.e
    ∷ s.d
    ∷ s.c2
    ∷ s.b2
    ∷ s.e2
    ∷ s.d2
    ∷ s.l2
    ∷ s.h2
    ∷ s.a2
    ∷ s.f2
    ∷ s.iyl
    ∷ s.iyh
    ∷ s.ixl
    ∷ s.ixh
    ∷ flag s.iff1
    ∷ flag s.iff2
    ∷ bit_and s.im 3
    ∷ []

-- `bytes(...)` raises ValueError for a number above 255.
unfoldable pub fit_bytes : List ℕ → Bool
fit_bytes [] = true
fit_bytes (b ∷ bs) = ltb b 256 && fit_bytes bs

unfoldable pub as_bytes : List ℕ → Option (List ℕ)
unfolding fit_bytes
as_bytes bs = if fit_bytes bs then some bs else none

-- The memory that the loop reads, up to `idx == 49152`; on a shorter one `mem[idx]` is an
-- IndexError.
unfoldable pub scanned : List ℕ → Option (List ℕ)
scanned mem = if ltb (length mem) ram_size then none else some (take ram_size mem)

-- The file for a snapshot. The scan of the memory is given a fuel of one more than its length. The
-- memory is a bytearray, so what is written of it are bytes.
unfoldable pub write : Snapshot → Option (List ℕ)
write s = do
  head ← as_bytes (header s)
  mem ← scanned s.mem
  out ← compress (suc ram_size) mem
  some (head ++ (out ++ end_marker))

unfoldable pub generate : Option (List ℕ) → ℤ → ℕ → List ℕ → Option (List ℕ)
generate loader_bytes clear_addr entry_point program_bytes = do
  s ← gen_snapshot loader_bytes clear_addr entry_point program_bytes
  write s

-- What `emit` writes to the file; it ignores the loader.
unfoldable pub emit : ℕ → List ℕ → Option (List ℕ)
emit entry_point program_bytes = generate none (pos entry_point -ℤ pos 1) entry_point program_bytes
