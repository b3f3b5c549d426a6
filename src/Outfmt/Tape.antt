-- ===== src/Outfmt/Tape.antt =====
-- src/outfmt/tzx.py and src/outfmt/tap.py. A `TZX` or `TAP` object is its class, `Format`, and its
-- `output`; a method takes the output so far and returns the new one. `TAP` derives from `TZX` and
-- overrides `__init__` and `standard_block`, so those two dispatch on the class and the other
-- methods call them. The bytes written to the file are the final output.
pub mod Reader
pub mod RoundTrip
use zxbasic.Prelude.{
  ℕ, zero, suc, ◌+◌, ◌/◌, ◌%◌, List, [], ◌∷◌, ◌++◌, Option, none, some, map, bit_xor, length, take,
  replicate,
}

pub data Format : Type 0 where
  tzx tap : Format

abbrev pub block_standard : ℕ
block_standard = 0x10

abbrev pub block_type_header : ℕ
block_type_header = 0

abbrev pub block_type_data : ℕ
block_type_data = 0xFF

abbrev pub header_type_basic : ℕ
header_type_basic = 0

abbrev pub header_type_code : ℕ
header_type_code = 3

-- `value & 0x00FF` and `(value & 0xFF00) >> 8`
abbrev pub lh : ℕ → List ℕ
lh value = value % 256 ∷ value / 256 % 256 ∷ []

-- `int(i) & 0xFF`
abbrev pub low_byte : ℕ → ℕ
low_byte i = i % 256

abbrev pub out : List ℕ → List ℕ → List ℕ
out l output = output ++ map low_byte l

-- The loop of `standard_block`: the checksum and the output after all bytes.
unfoldable pub out_bytes : ℕ → List ℕ → List ℕ → ℕ × List ℕ
out_bytes checksum [] output = (checksum, output)
out_bytes checksum (i ∷ bytes) output =
    out_bytes (bit_xor checksum (low_byte i)) bytes (out (i ∷ []) output)

-- `TAP.__init__` restarts the output.
unfoldable pub init_tap : List ℕ
init_tap = []

unfoldable pub init : Format → List ℕ
unfolding init_tap
init tzx = out (1 ∷ 21 ∷ []) (out (0x1A ∷ []) (b'Z' ∷ b'X' ∷ b'T' ∷ b'a' ∷ b'p' ∷ b'e' ∷ b'!' ∷ []))
init tap = init_tap

-- `TAP.standard_block`: the length, the bytes and the checksum.
unfoldable pub standard_block_tap : List ℕ → List ℕ → List ℕ
standard_block_tap bytes output =
    let (checksum, written) = out_bytes 0 bytes (out (lh (length bytes + 1)) output) in
    out (checksum ∷ []) written

-- `TZX.standard_block` puts the identifier and the pause in front.
unfoldable pub standard_block : Format → List ℕ → List ℕ → List ℕ
unfolding standard_block_tap
standard_block tzx bytes output =
    let started = out (lh 1000) (out (block_standard ∷ []) output) in
    let (checksum, written) = out_bytes 0 bytes (out (lh (length bytes + 1)) started) in
    out (checksum ∷ []) written
standard_block tap bytes output = standard_block_tap bytes output

-- `(title + 10 * " ")[:10]`; a title is the list of its code points.
abbrev pub pad_title : List ℕ → List ℕ
pad_title title = take 10 (title ++ replicate 10 b' ')

abbrev pub header_bytes : ℕ → List ℕ → ℕ → ℕ → ℕ → List ℕ
header_bytes type title length param1 param2 =
    (block_type_header ∷ type ∷ []) ++ (pad_title title ++ (lh length ++ (lh param1 ++ lh param2)))

unfoldable pub save_header : Format → ℕ → List ℕ → ℕ → ℕ → ℕ → List ℕ → List ℕ
save_header format type title length param1 param2 =
    standard_block format (header_bytes type title length param1 param2)

unfoldable pub standard_bytes_header : Format → List ℕ → ℕ → ℕ → List ℕ → List ℕ
standard_bytes_header format title addr length =
    save_header format header_type_code title length addr 32768

unfoldable pub standard_program_header : Format → List ℕ → ℕ → ℕ → List ℕ → List ℕ
standard_program_header format title length line =
    save_header format header_type_basic title length line length

unfoldable pub save_code : Format → List ℕ → ℕ → List ℕ → List ℕ → List ℕ
save_code format title addr bytes output =
    standard_block format (block_type_data ∷ map low_byte bytes)
      (standard_bytes_header format title addr (length bytes) output)

unfoldable pub save_program : Format → List ℕ → List ℕ → ℕ → List ℕ → List ℕ
save_program format title bytes line output =
    standard_block format (block_type_data ∷ map low_byte bytes)
      (standard_program_header format title (length bytes) line output)

-- The two loops of `emit`.
unfoldable pub save_aux : Format → List (List ℕ × List ℕ) → List ℕ → List ℕ
save_aux format [] output = output
save_aux format ((name, block) ∷ blocks) output =
    save_aux format blocks (save_code format name 0 block output)

unfoldable pub save_headless : Format → List (List ℕ) → List ℕ → List ℕ
save_headless format [] output = output
save_headless format (block ∷ blocks) output =
    save_headless format blocks (standard_block format block output)

abbrev pub loader_title : List ℕ
loader_title = b'l' ∷ b'o' ∷ b'a' ∷ b'd' ∷ b'e' ∷ b'r' ∷ []

abbrev pub save_loader : Format → Option (List ℕ) → List ℕ → List ℕ
save_loader format none output = output
save_loader format (some bytes) output = save_program format loader_title bytes 1 output

-- `emit`, on the output of `__init__`; the result is what `dump` writes to the file.
unfoldable pub emit :
    Format → List ℕ → Option (List ℕ) → ℕ → List ℕ → List (List ℕ × List ℕ) → List (List ℕ) → List ℕ
emit format program_name loader_bytes entry_point program_bytes aux_bin aux_headless =
    let start = save_loader format loader_bytes (init format) in
    let program = save_code format program_name entry_point program_bytes start in
    save_headless format aux_headless (save_aux format aux_bin program)
