-- ===== src/Outfmt/Rle.antt =====
-- src/outfmt/z80.py: the run-length compression in `Z80Emitter.generate`. The scanned memory is the
-- list of the bytes from `idx` on, so that `idx == 49152` is the test for the empty list: Z80 passes it
-- exactly 49152 bytes.
pub mod Expand
pub mod RoundTrip
pub mod Bounds
use zxbasic.Prelude.{
  ℕ, zero, suc, ◌+◌, Bool, not, ◌&&◌, List, [], ◌∷◌, ◌++◌, Option, none, some, ltb, ◌==◌,
  if◌then◌else◌, replicate,
}
use mathlib.Core.Option

-- The inner loop: the length of the run of `b`, at most 255, and the memory behind it.
unfoldable pub find_run : ℕ → ℕ → List ℕ → ℕ × List ℕ
find_run b runlength [] = (runlength, [])
find_run b runlength (x ∷ mem) =
    let longer = find_run b (runlength + 1) mem in
    if runlength == 255
    then (runlength, x ∷ mem)
    else if not (b == x)
    then (runlength, x ∷ mem)
    else longer

-- A run that does not qualify is written out; any other is a count and a byte behind ED ED.
unfoldable pub write_run : ℕ → ℕ → List ℕ
write_run runlength b =
    if ltb runlength 5 && not (b == 0xED)
    then replicate runlength b
    else 0xED ∷ 0xED ∷ runlength ∷ b ∷ []

-- The outer loop. Each round takes at least one byte, so a fuel of the memory's length and one
-- more is enough; `none` means that the fuel ran out.
unfoldable pub compress : ℕ → List ℕ → Option (List ℕ)
unfolding find_run write_run
compress zero mem = none
compress (suc fuel) [] = some []
compress (suc fuel) (b ∷ []) = some (b ∷ [])
compress (suc fuel) (b ∷ x ∷ mem) =
    let run = find_run b 1 (x ∷ mem) in
    let repeated = Option.map (λ out. write_run run.0 b ++ out) (compress fuel run.1) in
    let verbatim = Option.map (λ out. b ∷ x ∷ out) (compress fuel mem) in
    let single = Option.map (λ out. b ∷ out) (compress fuel (x ∷ mem)) in
    if b == x then repeated else if b == 0xED then verbatim else single

abbrev pub end_marker : List ℕ
end_marker = 0 ∷ 0xED ∷ 0xED ∷ 0 ∷ []
