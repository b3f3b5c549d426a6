-- ===== src/Outfmt/Z80/Header.antt =====
-- The thirty bytes of the header in src/outfmt/z80.py, as numbers.
use Prim.Native.Nat.{bit_and, bit_or}
use zxbasic.Prelude.{
  ℕ, ◌+◌, ◌*◌, ◌/◌, ◌%◌, ◌^◌, ◌<◌, ◌≡◌, refl, true, ◌==◌, ==_iff, all_below, all_below-true, List,
  [], ◌∷◌, arith, IsBytes, ltb,
}
use zxbasic.Prelude.Bits.{byte_law}
use zxbasic.Outfmt.Snapshot.{Snapshot}
use zxbasic.Outfmt.Snapshot.Contents.{fields}
use zxbasic.Outfmt.Z80.{header, fit_bytes, flag}

pub low_bits_of_r : (r : ℕ) → r < 256 → bit_and r 0x7F ≡ r % 128
low_bits_of_r = byte_law (λ r. bit_and r 0x7F) (λ r. r % 128) refl

high_bit_of_r : (r : ℕ) → r < 256 → bit_and r 0x80 / 2 ^ 7 ≡ r / 128
high_bit_of_r = byte_law (λ r. bit_and r 0x80 / 2 ^ 7) (λ r. r / 128) refl

border_bits : (o : ℕ) → o < 256 → bit_and o 7 * 2 ^ 1 ≡ o % 8 * 2
border_bits = byte_law (λ o. bit_and o 7 * 2 ^ 1) (λ o. o % 8 * 2) refl

pub mode_bits : (m : ℕ) → m < 256 → bit_and m 3 ≡ m % 4
mode_bits = byte_law (λ m. bit_and m 3) (λ m. m % 4) refl

joined_all :
    all_below 2 (λ a. all_below 8 (λ c. bit_or (bit_or a (c * 2)) 0x20 == 32 + c * 2 + a)) ≡ true
joined_all = refl

joined : (a c : ℕ) → a < 2 → c < 8 → bit_or (bit_or a (c * 2)) 0x20 ≡ 32 + c * 2 + a
joined a c h k = (==_iff _ _).0 (
    all_below-true 8 (λ (x : ℕ). bit_or (bit_or a (x * 2)) 0x20 == 32 + x * 2 + a)
      (all_below-true 2
        (λ (y : ℕ). all_below 8 (λ x. bit_or (bit_or y (x * 2)) 0x20 == 32 + x * 2 + y)) joined_all
        a h)
      c k)

-- Byte 12: bit 7 of R, the border, and the mark of a compressed memory
pub flags_byte :
    (r o : ℕ)
    → r < 256
    → o < 256
    → bit_or (bit_or (bit_and r 0x80 / 2 ^ 7) (bit_and o 7 * 2 ^ 1)) 0x20 ≡ 32 + o % 8 * 2 + r / 128
flags_byte r o h k =
    rw (high_bit_of_r r h, border_bits o k) (joined (r / 128) (o % 8) (omega arith) (omega arith))

fit_bytes-true : (xs : List ℕ) → IsBytes xs → fit_bytes xs ≡ true
unfolding fit_bytes
fit_bytes-true [] h = refl
fit_bytes-true (x ∷ xs) h =
    let below : ltb x 256 ≡ true = ground (arith, h.0) in rw (below, fit_bytes-true xs h.1)

flag-lt : (n : ℕ) → flag n < 256
flag-lt n = ground arith

pub header-fits : (s : Snapshot) → IsBytes (fields s) → fit_bytes (header s) ≡ true
header-fits s h =
    let r : s.r < 256 = omega arith in
    let o : s.out_fe < 256 = omega arith in
    let m : s.im < 256 = omega arith in
    let refresh : bit_and s.r 0x7F < 256 = rw (low_bits_of_r s.r r) (omega arith) in
    let border : bit_or (bit_or (bit_and s.r 0x80 / 2 ^ 7) (bit_and s.out_fe 7 * 2 ^ 1)) 0x20
        < 256 =
      rw (flags_byte s.r s.out_fe r o) (omega arith) in
    let mode : bit_and s.im 3 < 256 = rw (mode_bits s.im m) (omega arith) in
    fit_bytes-true (header s) (omega (arith, refresh, border, mode, flag-lt s.iff1, flag-lt s.iff2))
