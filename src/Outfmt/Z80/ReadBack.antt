-- ===== src/Outfmt/Z80/ReadBack.antt =====
-- The .Z80 file of src/outfmt/z80.py, read back by the layout that its docstring documents.
use zxbasic.Prelude.{
  ℕ, ◌/◌, ◌%◌, ◌^◌, ◌<◌, ◌==◌, ◌↔◌, true, false, Option, [], ◌∷◌, ltb, if◌then◌else◌, take, IsBytes,
  ap, suc, ◌+◌, ◌-◌, ◌*◌, ◌≤◌, List, some, length, drop, get_or, ◌≡◌, refl, arith,
}
use zxbasic.Prelude.Int.{pos, ◌-ℤ◌}
use zxbasic.Prelude.Monad.{Returns, Returns-some}
use zxbasic.Outfmt.Rle.Expand.{expand}
use zxbasic.Outfmt.Rle.RoundTrip.{expand-compress}
use zxbasic.Outfmt.Snapshot.{Snapshot, default_loader, ram_size}
use zxbasic.Outfmt.Snapshot.Contents.{IsReady, fields, final_regions, gen_snapshot-default}
use zxbasic.Outfmt.Snapshot.Memory.{pos-sub}
use zxbasic.Outfmt.Z80.{header, flag, as_bytes, scanned, write, generate, emit}
use zxbasic.Outfmt.Z80.Header.{low_bits_of_r, mode_bits, flags_byte, header-fits}

-- A little endian word of the header.
abbrev word_of : List ℕ → ℕ → ℕ
word_of file offset = get_or file offset 0 + 256 * get_or file (offset + 1) 0

-- Bits of byte 12 of the header.
abbrev bits_of : List ℕ → ℕ → ℕ → ℕ
bits_of file place count = get_or file 12 0 / 2 ^ place % 2 ^ count

-- The 48 KB behind the header: if bit 5 of byte 12 marks the block as compressed it is expanded, and
-- else it is taken as it is.
abbrev pub stored_memory : List ℕ → Option (List ℕ)
stored_memory file =
    if bits_of file 5 1 == 1 then expand (drop 30 file) else some (take 49152 (drop 30 file))

-- What a loader that follows the documented layout gets from the file.
pub record Loads (s : Snapshot) (file : List ℕ) : Type 0 where
  pub af : (get_or file 0 0 ≡ s.a) × (get_or file 1 0 ≡ s.f)
  pub bc : word_of file 2 ≡ s.c + 256 * s.b
  pub hl : word_of file 4 ≡ s.l + 256 * s.h
  pub program_counter : word_of file 6 ≡ s.pcl + 256 * s.pch
  pub stack_pointer : word_of file 8 ≡ s.spl + 256 * s.sph
  pub interrupt : get_or file 10 0 ≡ s.i
  pub refresh : get_or file 11 0 % 128 + 128 * bits_of file 0 1 ≡ s.r
  pub border : bits_of file 1 3 ≡ s.out_fe % 8
  pub no_sam_rom : bits_of file 4 1 ≡ 0
  pub de : word_of file 13 ≡ s.e + 256 * s.d
  pub bc' : word_of file 15 ≡ s.c2 + 256 * s.b2
  pub de' : word_of file 17 ≡ s.e2 + 256 * s.d2
  pub hl' : word_of file 19 ≡ s.l2 + 256 * s.h2
  pub af' : (get_or file 21 0 ≡ s.a2) × (get_or file 22 0 ≡ s.f2)
  pub iy : word_of file 23 ≡ s.iyl + 256 * s.iyh
  pub ix : word_of file 25 ≡ s.ixl + 256 * s.ixh
  pub flipflops : ((get_or file 27 0 ≡ 0) ↔ (s.iff1 ≡ 0)) × ((get_or file 28 0 ≡ 0) ↔ (s.iff2 ≡ 0))
  pub interrupt_mode : get_or file 29 0 ≡ s.im % 4
  pub memory : stored_memory file ≡ some s.mem

flag_iff : (n : ℕ) → (flag n ≡ 0) ↔ (n ≡ 0)
flag_iff n = ground arith

take-length : (xs : List ℕ) → take (length xs) xs ≡ xs
take-length [] = refl
take-length (x ∷ xs) = ap (◌∷◌ x) (take-length xs)

scanned-full : (mem : List ℕ) → length mem ≡ ram_size → scanned mem ≡ some mem
unfolding scanned
scanned-full mem full =
    let long : ltb (length mem) ram_size ≡ false = ground arith in
    let whole : take ram_size mem ≡ mem = rw full at (take-length mem) in rw (long, whole)

-- The file for a snapshot of 49152 bytes of memory whose fields are bytes is written, and a loader
-- that follows the documented layout gets back the register pairs, R, the program counter, the stack
-- pointer, the border, the interrupt flipflops and mode, and, by the mark that says whether it is
-- compressed, the whole memory.
pub write-Loads :
    (s : Snapshot) → length s.mem ≡ ram_size → IsBytes (fields s) → Returns (Loads s) (write s)
unfolding write as_bytes
write-Loads s full fit =
    let (out, returns, expands) = expand-compress (suc ram_size) s.mem (omega (arith, full)) in
    let r : s.r < 256 = omega arith in
    let o : s.out_fe < 256 = omega arith in
    let m : s.im < 256 = omega arith in
    let byte_12 = flags_byte s.r s.out_fe r o in
    let marked : (bits_of (header s) 5 1 == 1) ≡ true = rw byte_12 (ground arith) in
    rw (header-fits s fit, scanned-full s.mem full, returns)
      (Returns-some (Loads s) _ (record {
        af = (refl, refl);
        bc = refl;
        hl = refl;
        program_counter = refl;
        stack_pointer = refl;
        interrupt = refl;
        refresh = rw (byte_12, low_bits_of_r s.r r) (omega arith);
        border = rw byte_12 (omega arith);
        no_sam_rom = rw byte_12 (omega arith);
        de = refl;
        bc' = refl;
        de' = refl;
        hl' = refl;
        af' = (refl, refl);
        iy = refl;
        ix = refl;
        flipflops = (flag_iff s.iff1, flag_iff s.iff2);
        interrupt_mode = mode_bits s.im m;
        memory = rw marked expands;
      }))

-- The whole path of `emit`. A program that starts at an address from 23782 to 65368 and ends in
-- the RAM is written to a .Z80 file from which a loader that follows the documented layout gets a
-- machine that is ready to run it: the memory holds the program at its entry point, the default
-- BASIC line of 19 bytes, the stack and the pointers, and SP and PC are the prepared ones.
pub emit-Loads :
    (entry : ℕ) (program : List ℕ)
    → 23782 ≤ entry
    → entry ≤ 65368
    → entry + length program ≤ 65536
    → (loader : List ℕ) × (default_loader entry ≡ some loader)
      × (length loader ≡ 19)
      × (s : Snapshot) × IsReady (final_regions (entry - 1) loader entry program) (entry - 1 - 3) s
      × Returns (Loads s) (emit entry program)
unfolding emit generate
emit-Loads entry program low high fits =
    let (loader, made, nineteen, r) = gen_snapshot-default entry program low high fits in
    let minus : pos entry -ℤ pos 1 ≡ pos (entry - 1) = pos-sub entry 1 (omega arith) in
    (
      loader,
      made,
      nineteen,
      r.value,
      r.holds,
      rw minus (rw r.returns (write-Loads r.value r.holds.memory.size r.holds.fields_fit)),
    )
