-- ===== src/Outfmt/Snapshot.antt =====
-- src/outfmt/gensnapshot.py: the machine state that the snapshot formats store. The constructor
-- patches a memory image of 49152 bytes, the RAM from 16384 on; a failed assertion or a
-- `ValueError` is `none`.
pub mod Tables
pub mod Memory
pub mod Contents
use zxbasic.Prelude.{
  ℕ, zero, suc, ◌+◌, ◌-◌, ◌*◌, ◌/◌, ◌%◌, List, [], ◌∷◌, ◌++◌, Option, none, some, length, take,
  drop, ltb, ◌==◌, if◌then◌else◌,
}
use Prim.Native.Nat.{min, max}
use zxbasic.Prelude.Int.{ℤ, pos, negsuc, ◌+ℤ◌, ◌-ℤ◌}
use zxbasic.Prelude.Monad.{◌>>=◌, ◌>>◌, assert}
use Tables.{system_variables, chans_data, edit_line, stack_bytes, udg_bytes, zeros, attributes}

-- A bound of a Python slice, in a sequence of length `n`.
abbrev pub slice_bound : ℤ → ℕ → ℕ
slice_bound (pos i) n = min i n
slice_bound (negsuc k) n = n - suc k

-- `mem[i:j] = bytes`
unfoldable pub set_slice : List ℕ → ℕ → ℕ → List ℕ → List ℕ
set_slice mem i j bytes = take i mem ++ (bytes ++ drop (max i j) mem)

abbrev pub ram_size : ℕ
ram_size = 49152

-- What is patched in are bytes, as the annotation says; so the assignment to the bytearray raises no
-- ValueError.
unfoldable pub patch_addr : ℤ → List ℕ → List ℕ → Option (List ℕ)
patch_addr addr bytes mem =
    let i = slice_bound (addr -ℤ pos 16384) (length mem) in
    let j = slice_bound (addr -ℤ pos 16384 +ℤ pos (length bytes)) (length mem) in
    let mem' = set_slice mem i j bytes in if length mem' == ram_size then some mem' else none

-- `bytes((x % 256, x >> 8))` raises when the high byte is not a byte.
unfoldable pub word : ℤ → Option (List ℕ)
word (pos x) = if ltb (x / 256) 256 then some (x % 256 ∷ x / 256 ∷ []) else none
word (negsuc x) = none

-- `x & 0xFFFF`
abbrev pub low_word : ℤ → ℕ
low_word (pos x) = x % 65536
low_word (negsuc x) = 65535 - x % 65536

-- `b"%05d" % n`, for a number of at most five digits.
abbrev five_digits : ℕ → List ℕ
five_digits n =
    (n / 10000 + b'0')
    ∷ (n / 1000 % 10 + b'0')
    ∷ (n / 100 % 10 + b'0')
    ∷ (n / 10 % 10 + b'0')
    ∷ (n % 10 + b'0')
    ∷ []

-- The line `10 IF USR <mc_addr> THEN` that is made when there is no loader: its number, its length
-- patched in, IF USR, the address in digits and as a five byte integer, THEN and the newline. An
-- address of six digits or more has failed in `word` before its digits are of any consequence.
unfoldable pub default_loader : ℕ → Option (List ℕ)
default_loader mc_addr = do
  addr ← word (pos mc_addr)
  let body = five_digits mc_addr ++ (0x0E ∷ 0 ∷ 0 ∷ (addr ++ 0 ∷ [])) ++ 0xCB ∷ 0x0D ∷ []
  size ← word (pos (2 + length body))
  some (0 ∷ 0x0A ∷ (size ++ (0xFA ∷ 0xC0 ∷ body)))

unfoldable pub loader_or_default : Option (List ℕ) → ℕ → Option (List ℕ)
loader_or_default none mc_addr = default_loader mc_addr
loader_or_default (some bytes) mc_addr = some bytes

abbrev pub basic_start : ℕ
basic_start = 23755

-- The image before the system variables that depend on the arguments are patched.
unfoldable pub blank_memory : Option (List ℕ)
blank_memory = do
  mem ← patch_addr (pos 0x5800) attributes (zeros ram_size)
  mem ← patch_addr (pos 0x5C00) system_variables mem
  patch_addr (pos 23734) chans_data mem

unfoldable pub patch_word : ℕ → ℤ → List ℕ → Option (List ℕ)
patch_word addr x mem = do bytes ← word x; patch_addr (pos addr) bytes mem

-- ERR_SP, VARS, E_LINE, WORKSP, STKBOT, STKEND and RAMTOP
unfoldable pub patch_pointers : ℤ → ℕ → List ℕ → Option (List ℕ)
patch_pointers clear_addr basic_end mem = do
  mem ← patch_word 23613 (clear_addr -ℤ pos 3) mem
  mem ← patch_word 23627 (pos basic_end) mem
  mem ← patch_word 23641 (pos (basic_end + 1)) mem
  mem ← patch_word 23649 (pos (basic_end + 4)) mem
  mem ← patch_word 23651 (pos (basic_end + 4)) mem
  mem ← patch_word 23653 (pos (basic_end + 4)) mem
  patch_word 23730 clear_addr mem

-- The BASIC program, the areas behind it, the stack, the graphics, and the compiled code, last.
unfoldable pub patch_contents : ℤ → List ℕ → ℕ → List ℕ → List ℕ → Option (List ℕ)
patch_contents clear_addr loader mc_addr mc_bytes mem = do
  mem ← patch_addr (pos basic_start) loader mem
  mem ← patch_addr (pos (basic_start + length loader)) edit_line mem
  mem ← patch_addr (clear_addr -ℤ pos 3) stack_bytes mem
  mem ← patch_addr (pos 65368) udg_bytes mem
  assert (ltb (mc_addr + length mc_bytes) 65537)
  patch_addr (pos mc_addr) mc_bytes mem

unfoldable pub image : Option (List ℕ) → ℤ → ℕ → List ℕ → Option (List ℕ)
image loader_bytes clear_addr mc_addr mc_bytes = do
  mem ← blank_memory
  loader ← loader_or_default loader_bytes mc_addr
  mem ← patch_addr (pos basic_start) (zeros (65368 - basic_start)) mem
  mem ← patch_pointers clear_addr (basic_start + length loader) mem
  patch_contents clear_addr loader mc_addr mc_bytes mem

-- The registers and the memory. `cycles`, `halted` and `eilast`, which no format stores, are left
-- out.
pub record Snapshot : Type 0 where
  pub a : ℕ
  pub a2 : ℕ
  pub b : ℕ
  pub b2 : ℕ
  pub c : ℕ
  pub c2 : ℕ
  pub d : ℕ
  pub d2 : ℕ
  pub e : ℕ
  pub e2 : ℕ
  pub h : ℕ
  pub h2 : ℕ
  pub l : ℕ
  pub l2 : ℕ
  pub f : ℕ
  pub f2 : ℕ
  pub r : ℕ
  pub ixl : ℕ
  pub ixh : ℕ
  pub iyh : ℕ
  pub iyl : ℕ
  pub i : ℕ
  pub w : ℕ
  pub z : ℕ
  pub iff1 : ℕ
  pub iff2 : ℕ
  pub pch : ℕ
  pub pcl : ℕ
  pub sph : ℕ
  pub spl : ℕ
  pub im : ℕ
  pub out_fe : ℕ
  pub mem : List ℕ

unfoldable pub gen_snapshot : Option (List ℕ) → ℤ → ℕ → List ℕ → Option Snapshot
gen_snapshot loader_bytes clear_addr mc_addr mc_bytes = do
  mem ← image loader_bytes clear_addr mc_addr mc_bytes
  let sp = low_word (clear_addr -ℤ pos 3)
  some (record {
    a = 0;
    a2 = 0;
    b = 0;
    b2 = 0;
    c = 0;
    c2 = 0;
    d = 0;
    d2 = 0;
    e = 0;
    e2 = 0;
    h = 0;
    h2 = 0;
    l = 0;
    l2 = 0;
    f = 0;
    f2 = 0;
    r = 0;
    ixl = 0;
    ixh = 0;
    iyh = 0x5C;
    iyl = 0x3A;
    i = 0x3F;
    w = 0;
    z = 0;
    iff1 = 1;
    iff2 = 1;
    pch = 0x1B;
    pcl = 0x9E;
    sph = sp / 256;
    spl = sp % 256;
    im = 1;
    out_fe = 0x0F;
    mem = mem;
  })
