-- ===== src/Zxbasm/Instruction.antt =====
-- src/zxbasm/asm_instruction.py: `AsmInstruction`, the encoding of one instruction.
pub mod Outcome
pub mod Encoding
pub mod Table
pub mod Numbers
pub mod Sharing
use zxbasic.Prelude.{
  ℕ, zero, suc, ◌+◌, ◌-◌, ◌*◌, ◌/◌, ◌%◌, ◌^◌, Bool, true, false, not, ◌&&◌, ◌||◌, List, [], ◌∷◌,
  ◌++◌, Option, none, some, map, length, drop, leb, ltb, ◌==◌, if◌then◌else◌,
}
use zxbasic.Prelude.Int.{ℤ, pos, negsuc}
use zxbasic.Prelude.Text.{codes, equal, upper, split_by, before}
use zxbasic.Zxbasm.Opcodes.Entry.{Opcode}
use zxbasic.Zxbasm.Opcodes.{z80set, find_opcode}
use Outcome.{
  Result, ok, err, ◌>>=◌, invalid_mnemonic, invalid_arg, mismatch_size, index_error, type_error,
  value_error,
}

-- An argument: an integer, an unresolved object such as an expression, or None.
pub data Arg : Type 0 where
  int : ℤ → Arg
  object : Arg
  unset : Arg

-- `x & ((2 << (n_bytes * 8)) - 1)`, of the two's complement of `x`
abbrev pub masked : ℤ → ℕ → ℕ
masked (pos x) n_bytes = x % 2 ^ (n_bytes * 8 + 1)
masked (negsuc x) n_bytes = 2 ^ (n_bytes * 8 + 1) - 1 - x % 2 ^ (n_bytes * 8 + 1)

-- The loop of `num2bytes`.
unfoldable pub little_endian : ℕ → ℕ → List ℕ
little_endian zero x = []
little_endian (suc n) x = x % 256 ∷ little_endian n (x / 256)

unfoldable pub zero_bytes : ℕ → List ℕ
zero_bytes zero = []
zero_bytes (suc n) = 0 ∷ zero_bytes n

unfoldable pub num2bytes : Arg → ℕ → List ℕ
unfolding little_endian zero_bytes
num2bytes (int x) n_bytes = little_endian n_bytes (masked x n_bytes)
num2bytes object n_bytes = zero_bytes n_bytes
num2bytes unset n_bytes = zero_bytes n_bytes

-- The characters of a word, `\w`
abbrev is_word : ℕ → Bool
is_word c =
    leb b'0' c && leb c b'9' || leb b'A' c && leb c b'Z' || c == b'_' || leb b'a' c && leb c b'z'

all_n : List ℕ → Bool
all_n [] = true
all_n (c ∷ cs) = c == b'N' && all_n cs

-- A match of `\bN+\b` is a whole word of the letter N. The lengths of all of them, in order.
unfoldable pub arg_lengths : List (List ℕ) → List ℕ
unfolding all_n
arg_lengths [] = []
arg_lengths (w ∷ ws) =
    let rest = arg_lengths ws in if not (equal w []) && all_n w then length w ∷ rest else rest

unfoldable pub find_args : List ℕ → List ℕ
unfolding arg_lengths
find_args asm = arg_lengths (split_by (λ c. not (is_word c)) asm)

pub record AsmInstruction : Type 0 where
  pub mnemo : List ℕ
  pub asm : List ℕ
  pub size : ℕ
  pub t : ℕ
  pub opcode : List ℕ
  pub argbytes : List ℕ
  pub arg : List Arg
  pub arg_num : ℕ

-- The object for an entry of the table.
unfoldable pub from_opcode : List ℕ → List Arg → Opcode → AsmInstruction
unfolding find_args
from_opcode asm arg z80 = record {
  mnemo = map upper asm;
  asm = asm;
  size = z80.size;
  t = z80.t;
  opcode = codes z80.opcode;
  argbytes = find_args asm;
  arg = arg;
  arg_num = length (find_args asm);
}

abbrev from_found : List ℕ → List Arg → Option Opcode → Result AsmInstruction
from_found asm arg none = err invalid_mnemonic
from_found asm arg (some z80) = ok (from_opcode asm arg z80)

-- `__init__`: the comment is cut off, and the upper case of the rest is looked up.
unfoldable pub init : List ℕ → List Arg → Result AsmInstruction
init text arg =
    let asm = before b';' text in from_found asm arg (find_opcode (map upper asm) z80set)

abbrev any_unset : List Arg → Bool
any_unset [] = false
any_unset (unset ∷ args) = true
any_unset (int x ∷ args) = any_unset args
any_unset (object ∷ args) = any_unset args

abbrev all_ints : List Arg → Bool
all_ints [] = true
all_ints (int x ∷ args) = all_ints args
all_ints (object ∷ args) = false
all_ints (unset ∷ args) = false

-- `none` is Python's None.
unfoldable pub argval : List Arg → Result (Option (List Arg))
argval arg =
    if any_unset arg then ok none else if all_ints arg then ok (some arg) else err invalid_arg

get_arg : List Arg → ℕ → Result Arg
get_arg [] i = err index_error
get_arg (a ∷ args) zero = ok a
get_arg (a ∷ args) (suc i) = get_arg args i

-- `self.argval()[argi]`
unfoldable pub arg_at : List Arg → ℕ → Result Arg
unfolding get_arg
arg_at arg argi = do
  values ← argval arg
  elim values [ none ↦ err type_error | some args ↦ get_arg args argi ]

abbrev hex_digit : ℕ → Option ℕ
hex_digit c =
    if leb b'0' c && leb c b'9'
    then some (c - b'0')
    else if leb b'A' c && leb c b'F'
    then some (c - 55)
    else if leb b'a' c && leb c b'f'
    then some (c - 87)
    else none

-- `int(q, 16)`, of a text of digits; the texts are those of the table.
unfoldable pub hex_value : ℕ → List ℕ → Option ℕ
hex_value acc [] = some acc
hex_value acc (c ∷ cs) = elim (hex_digit c) [ none ↦ none | some d ↦ hex_value (acc * 16 + d) cs ]

unfoldable pub opcode_byte : List ℕ → Result (List ℕ)
opcode_byte [] = err value_error
opcode_byte (c ∷ cs) = elim (hex_value 0 (c ∷ cs)) [ none ↦ err value_error | some b ↦ ok (b ∷ []) ]

-- `len(op)` further pops succeed.
pops : ℕ → List (List ℕ) → Result (List (List ℕ))
pops zero op = ok op
pops (suc n) [] = err index_error
pops (suc n) (q ∷ op) = pops n op

-- The loop of `bytes`, on the parts of the opcode text that are left. Each round takes a part, so
-- a fuel of their number is enough.
unfoldable pub bytes_loop : ℕ → List (List ℕ) → List ℕ → List Arg → ℕ → Result (List ℕ)
unfolding pops opcode_byte
bytes_loop fuel [] argbytes arg argi = ok []
bytes_loop zero (q ∷ op) argbytes arg argi = err value_error
bytes_loop (suc fuel) (q ∷ op) argbytes arg argi =
    let with_arg : Result (List ℕ) = elim argbytes [
      | [] ↦ err index_error
      | n ∷ later ↦ do
        op ← pops (n - 1) op
        value ← arg_at arg argi
        rest ← bytes_loop fuel op later arg (argi + 1)
        ok (num2bytes value n ++ rest)
    ] in
    let plain : Result (List ℕ) = do
      first ← opcode_byte q
      rest ← bytes_loop fuel op argbytes arg argi
      ok (first ++ rest)
    in if equal q (codes "XX") then with_arg else plain

abbrev pub all_bytes : List ℕ → Bool
all_bytes [] = true
all_bytes (b ∷ bs) = ltb b 256 && all_bytes bs

-- The size is checked, and every byte must be one.
unfoldable pub checked : ℕ → List ℕ → Result (List ℕ)
checked size result =
    if not (length result == size)
    then err mismatch_size
    else if all_bytes result
    then ok result
    else err value_error

-- `bytes`
unfoldable pub bytes : AsmInstruction → Result (List ℕ)
unfolding bytes_loop checked
bytes i = do
  let op = split_by (λ c. c == b' ') i.opcode
  result ← bytes_loop (length op) op i.argbytes i.arg 0
  checked i.size result
