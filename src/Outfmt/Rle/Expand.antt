-- ===== src/Outfmt/Rle/Expand.antt =====
-- The format of the compressed stream as the docstring of `Z80Emitter.generate` gives it: how a
-- loader expands the bytes, up to the end marker 00 ED ED 00. Nothing here is the emitter's code.
use zxbasic.Prelude.{
  ℕ, ◌&&◌, List, [], ◌∷◌, ◌++◌, Option, none, some, ◌==◌, if◌then◌else◌, replicate,
}
use mathlib.Core.Option

-- `none`: the stream ends with no end marker.
unfoldable pub expand : List ℕ → Option (List ℕ)
expand (a ∷ b ∷ c ∷ d ∷ rest) =
    let block = Option.map (λ out. replicate c d ++ out) (expand rest) in
    let plain = Option.map (λ out. a ∷ out) (expand (b ∷ c ∷ d ∷ rest)) in
    if a == 0 && (b == 0xED && (c == 0xED && d == 0))
    then some []
    else if a == 0xED && b == 0xED
    then block
    else plain
expand _ = none
