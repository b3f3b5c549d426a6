-- ===== src/Tests/OutfmtRuns.antt =====
-- src/outfmt: runs, and the theorems at concrete inputs.
use zxbasic.Prelude.{
  ℕ, ◌≤◌, IsBytes, ◌+◌, ◌-◌, ◌*◌, ◌<◌, List, [], ◌∷◌, ◌++◌, map, none, some, length, drop,
  get_elem?, ◌≡◌, refl, arith,
}
use zxbasic.Prelude.Int.{pos}
use zxbasic.Prelude.Monad.{Returns}
use zxbasic.Outfmt.Rle.{compress, end_marker}
use zxbasic.Outfmt.Rle.Expand.{expand}
use zxbasic.Outfmt.Rle.Bounds.{compress_bounds}
use zxbasic.Outfmt.Rle.RoundTrip.{expand-compress}
use zxbasic.Outfmt.Tape.{tzx, tap, emit, low_byte, standard_block, out_bytes}
use zxbasic.Outfmt.Tape.Reader.{read_blocks, signature}
use zxbasic.Outfmt.Tape.RoundTrip.{read_blocks-emit, tape_blocks}
use zxbasic.Outfmt.Snapshot.{
  Snapshot, gen_snapshot, default_loader, loader_or_default, word, ram_size,
}
use zxbasic.Outfmt.Snapshot.Contents.{
  IsReady, final_regions, Layout, gen_snapshot-IsReady, length-zeros,
}
use zxbasic.Outfmt.Snapshot.Tables.{zeros}
use zxbasic.Outfmt.Z80
use zxbasic.Outfmt.Z80.ReadBack.{Loads, write-Loads, emit-Loads}
use zxbasic.Outfmt.Sna
use zxbasic.Outfmt.Sna.ReadBack.{Restores, write-Restores, emit-Restores}

-- The examples of the docstring of src/outfmt/z80.py.
compress_runs :
    (compress 9 (1 ∷ 1 ∷ 1 ∷ 1 ∷ 1 ∷ 1 ∷ 1 ∷ []) ≡ some (0xED ∷ 0xED ∷ 7 ∷ 1 ∷ []))
    × (compress 9 (0xED ∷ 0xED ∷ 0x22 ∷ 0x22 ∷ [])
        ≡ some (0xED ∷ 0xED ∷ 2 ∷ 0xED ∷ 0x22 ∷ 0x22 ∷ []))
    × (compress 9 (0xED ∷ 0 ∷ 0 ∷ 0 ∷ 0 ∷ 0 ∷ 0 ∷ []) ≡ some (0xED ∷ 0 ∷ 0xED ∷ 0xED ∷ 5 ∷ 0 ∷ []))
unfolding compress
compress_runs = (refl, refl, refl)

abbrev sample_memory : List ℕ
sample_memory = 1 ∷ 1 ∷ 1 ∷ 1 ∷ 1 ∷ 1 ∷ 0xED ∷ 0 ∷ 0xED ∷ 0xED ∷ 5 ∷ 0xED ∷ []

expand-compress_example :
    (out : List ℕ) × (compress 13 sample_memory ≡ some out)
    × (expand (out ++ end_marker) ≡ some sample_memory)
expand-compress_example = expand-compress 13 sample_memory (omega arith)

abbrev sample_stream : List ℕ
sample_stream = 0xED ∷ 0xED ∷ 6 ∷ 1 ∷ 0xED ∷ 0 ∷ 0xED ∷ 0xED ∷ 2 ∷ 0xED ∷ 5 ∷ 0xED ∷ []

sample_run : compress 13 sample_memory ≡ some sample_stream
unfolding compress
sample_run = refl

compress_bounds_example :
    (out : List ℕ) × (compress 13 sample_memory ≡ some out) × IsBytes out × (length out ≤ 24)
compress_bounds_example = compress_bounds 13 sample_memory (omega arith) (omega arith)

abbrev title : List ℕ
title = b'h' ∷ b'i' ∷ []

block_run : standard_block tap (3 ∷ 5 ∷ []) [] ≡ 3 ∷ 0 ∷ 3 ∷ 5 ∷ 6 ∷ []
unfolding standard_block out_bytes
block_run = refl

abbrev sample_blocks : List (List ℕ)
sample_blocks =
    tape_blocks title (some (7 ∷ [])) 32768 (201 ∷ []) ((title, 1 ∷ 2 ∷ []) ∷ []) ((9 ∷ []) ∷ [])

read_blocks-emit_example :
    (rest : List ℕ) × (emit tzx title
        (some (7 ∷ []))
        32768
        (201 ∷ [])
        ((title, 1 ∷ 2 ∷ []) ∷ [])
        ((9 ∷ []) ∷ [])
      ≡ signature tzx ++ rest)
    × (read_blocks tzx (length sample_blocks) rest ≡ some (map (map low_byte) sample_blocks))
read_blocks-emit_example =
    read_blocks-emit tzx title (some (7 ∷ [])) 32768 (201 ∷ []) ((title, 1 ∷ 2 ∷ []) ∷ [])
      ((9 ∷ []) ∷ []) (omega arith)

-- The line `10 IF USR 32768 THEN`.
abbrev line_32768 : List ℕ
line_32768 =
    0 ∷ 0x0A ∷ 15 ∷ 0 ∷ 0xFA ∷ 0xC0 ∷ b'3' ∷ b'2' ∷ b'7' ∷ b'6' ∷ b'8' ∷ 0x0E ∷ 0 ∷ 0 ∷ 0 ∷ 0x80 ∷ 0
    ∷ 0xCB ∷ 0x0D ∷ []

default_loader_run : loader_or_default none 32768 ≡ some line_32768
unfolding loader_or_default default_loader word
default_loader_run = refl

sample-Layout : Layout 32767 line_32768 32768 (201 ∷ [])
sample-Layout = record {
  stack_above = omega arith;
  stack_below = omega arith;
  stack_below_udg = omega arith;
  program_fits = omega arith;
}

gen_snapshot-IsReady_example :
    Returns
      (IsReady (final_regions 32767 line_32768 32768 (201 ∷ [])) 32764)
      (gen_snapshot none (pos 32767) 32768 (201 ∷ []))
gen_snapshot-IsReady_example =
    gen_snapshot-IsReady none 32767 line_32768 32768 (201 ∷ []) default_loader_run sample-Layout

abbrev sample_snapshot : List ℕ → Snapshot
sample_snapshot memory = record {
  a = 1;
  a2 = 2;
  b = 3;
  b2 = 4;
  c = 5;
  c2 = 6;
  d = 7;
  d2 = 8;
  e = 9;
  e2 = 10;
  h = 11;
  h2 = 12;
  l = 13;
  l2 = 14;
  f = 15;
  f2 = 16;
  r = 17;
  ixl = 18;
  ixh = 19;
  iyh = 0x5C;
  iyl = 0x3A;
  i = 0x3F;
  w = 0;
  z = 0;
  iff1 = 1;
  iff2 = 1;
  pch = 0x1B;
  pcl = 0x9E;
  sph = 0x7F;
  spl = 0xFC;
  im = 1;
  out_fe = 0x0F;
  mem = memory;
}

write-Loads_example :
    Returns
      (Loads (sample_snapshot (zeros ram_size)))
      (Z80.write (sample_snapshot (zeros ram_size)))
write-Loads_example =
    write-Loads (sample_snapshot (zeros ram_size)) (length-zeros ram_size) (omega arith)

emit-Loads_example :
    (loader : List ℕ) × (default_loader 32768 ≡ some loader)
    × (length loader ≡ 19)
    × (s : Snapshot) × IsReady (final_regions 32767 loader 32768 (201 ∷ [])) 32764 s
    × Returns (Loads s) (Z80.emit 32768 (201 ∷ []))
emit-Loads_example = emit-Loads 32768 (201 ∷ []) (omega arith) (omega arith) (omega arith)

write-Restores_example :
    Returns
      (Restores (sample_snapshot (zeros ram_size)) 32762)
      (Sna.write (sample_snapshot (zeros ram_size)))
write-Restores_example =
    write-Restores (sample_snapshot (zeros ram_size)) (length-zeros ram_size) (omega arith)
      (omega arith)

emit-Restores_example :
    (loader : List ℕ) × (default_loader 32768 ≡ some loader)
    × (length loader ≡ 19)
    × (s : Snapshot) × IsReady (final_regions 32767 loader 32768 (201 ∷ [])) 32764 s
    × Returns
        (λ file.
          Restores s (s.sph * 256 + s.spl - 2) file
          × ((k : ℕ)
              → k < 1
              → get_elem? (drop 27 file) (32768 + k - 16384) ≡ get_elem? {A = ℕ} (201 ∷ []) k))
        (Sna.emit 32768 (201 ∷ []))
emit-Restores_example = emit-Restores 32768 (201 ∷ []) (omega arith) (omega arith) (omega arith)
