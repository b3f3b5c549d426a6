-- ===== src/Outfmt/Sna.antt =====
-- src/outfmt/sna.py: `SnaEmitter`, 48K snapshots in the .SNA format. PC goes on the stack.
pub mod ReadBack
use zxbasic.Prelude.{
  ℕ, zero, suc, ◌+◌, ◌-◌, ◌*◌, ◌/◌, ◌%◌, List, [], ◌∷◌, ◌++◌, Option, none, some, length, set, ltb,
  ◌==◌, if◌then◌else◌,
}
use Prim.Native.Nat.{bit_and}
use zxbasic.Prelude.Int.{ℤ, pos, negsuc, ◌+ℤ◌, ◌-ℤ◌}
use zxbasic.Prelude.Monad.{◌>>=◌, ◌>>◌, assert}
use zxbasic.Outfmt.Snapshot.{Snapshot, gen_snapshot, low_word}

-- `data[i] = v` raises when the index, counted from the end if negative, is out of range.
unfoldable pub set_item : List ℕ → ℤ → ℕ → Option (List ℕ)
set_item bytes (pos i) v = if ltb i (length bytes) then some (set bytes i v) else none
set_item bytes (negsuc k) v =
    if ltb k (length bytes) then some (set bytes (length bytes - suc k) v) else none

-- The stack pointer less two. `SP >> 8` is no byte, and the constructor of the bytes raises, when
-- it is negative.
unfoldable pub pushed_sp : Snapshot → Option ℕ
pushed_sp s = let sp = s.sph * 256 + s.spl in if ltb sp 2 then none else some (sp - 2)

abbrev pub header : Snapshot → ℕ → List ℕ
header s sp =
    s.i
    ∷ s.l2
    ∷ s.h2
    ∷ s.e2
    ∷ s.d2
    ∷ s.c2
    ∷ s.b2
    ∷ s.f2
    ∷ s.a2
    ∷ s.l
    ∷ s.h
    ∷ s.e
    ∷ s.d
    ∷ s.c
    ∷ s.b
    ∷ s.iyl
    ∷ s.iyh
    ∷ s.ixl
    ∷ s.ixh
    ∷ (if s.iff1 == 0 then 0 else 4)
    ∷ s.r
    ∷ s.f
    ∷ s.a
    ∷ sp % 256
    ∷ sp / 256
    ∷ s.im
    ∷ bit_and s.out_fe 7
    ∷ []

abbrev pub header_len : ℕ
header_len = 27

unfoldable pub write : Snapshot → Option (List ℕ)
write s = do
  sp ← pushed_sp s
  let sna_data = header s sp ++ s.mem
  sna_data ← set_item sna_data (pos sp -ℤ pos 16384 +ℤ pos 0 +ℤ pos header_len) s.pcl
  set_item sna_data (pos sp -ℤ pos 16384 +ℤ pos 1 +ℤ pos header_len) s.pch

unfoldable pub generate : Option (List ℕ) → ℤ → ℕ → List ℕ → Option (List ℕ)
generate loader_bytes clear_addr entry_point program_bytes = do
  s ← gen_snapshot loader_bytes clear_addr entry_point program_bytes
  write s

-- What `emit` writes to the file; it ignores the loader.
unfoldable pub emit : ℕ → List ℕ → Option (List ℕ)
emit entry_point program_bytes = generate none (pos entry_point -ℤ pos 1) entry_point program_bytes
