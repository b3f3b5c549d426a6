-- ===== src/Outfmt/Tape/Reader.antt =====
-- A reader of tapes, written from the TZX and TAP formats: a block is its length, its bytes and a
-- checksum that makes the exclusive or of all of them 0. Nothing here is the emitter's code.
use zxbasic.Prelude.{
  ℕ, zero, suc, ◌+◌, ◌*◌, List, [], ◌∷◌, Option, none, some, ltb, ◌==◌, if◌then◌else◌, bit_xor,
  length, take, drop,
}
use zxbasic.Outfmt.Tape.{Format, tzx, tap}

abbrev pub xor_all : ℕ → List ℕ → ℕ
xor_all acc [] = acc
xor_all acc (b ∷ bs) = xor_all (bit_xor acc b) bs

-- All but the last: the payload in front of the checksum.
abbrev pub payload : List ℕ → List ℕ
payload [] = []
payload (b ∷ []) = []
payload (b ∷ c ∷ bs) = b ∷ payload (c ∷ bs)

-- The block behind its length. `none`: the tape ends too early, or the checksum is wrong.
unfoldable pub read_data : ℕ → List ℕ → Option (List ℕ × List ℕ)
read_data n s =
    if ltb (length s) n
    then none
    else if xor_all 0 (take n s) == 0
    then some (payload (take n s), drop n s)
    else none

unfoldable pub read_length : List ℕ → Option (List ℕ × List ℕ)
read_length (l ∷ h ∷ s) = read_data (l + 256 * h) s
read_length _ = none

-- One block of the tape, and the tape behind it. A TZX standard block has the identifier 10h and
-- two bytes of pause in front.
unfoldable pub read_block : Format → List ℕ → Option (List ℕ × List ℕ)
read_block tap s = read_length s
read_block tzx (id ∷ p ∷ q ∷ s) = if id == 0x10 then read_length s else none
read_block tzx _ = none

-- All blocks up to the end of the tape; the fuel is a bound on their number.
unfoldable pub read_blocks : Format → ℕ → List ℕ → Option (List (List ℕ))
read_blocks format fuel [] = some []
read_blocks format zero (b ∷ s) = none
read_blocks format (suc fuel) (b ∷ s) = elim (read_block format (b ∷ s)) [
  | none ↦ none
  | some (block, rest) ↦ elim (read_blocks format fuel rest) [
    | none ↦ none
    | some blocks ↦ some (block ∷ blocks)
  ]
]

abbrev pub signature : Format → List ℕ
signature tzx = b'Z' ∷ b'X' ∷ b'T' ∷ b'a' ∷ b'p' ∷ b'e' ∷ b'!' ∷ 0x1A ∷ 1 ∷ 21 ∷ []
signature tap = []
