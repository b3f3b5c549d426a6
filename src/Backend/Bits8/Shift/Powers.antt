-- ===== src/Backend/Bits8/Shift/Powers.antt =====
-- src/arch/z80/backend/_8bit.py: the shifts multiply and divide by powers of two.
use native.Mathlib.Nat.{pow-suc, pow-succ', div-div-eq-div-mul, div-one}
use zxbasic.Prelude.{
  ℕ, zero, suc, ◌+◌, ◌-◌, ◌*◌, ◌/◌, ◌%◌, ◌^◌, inl, inr, ◌<◌, ◌≡◌, refl, sym, ap, ◌∙◌, true, false,
  leb, if◌then◌else◌, arith, Bool-cases,
}
use zxbasic.Backend.Machine.{reg, alu, add, srl, sra, plain, after_label, Platform, Cpu, exec}
use zxbasic.Backend.Operand.{Operand, is_int}
use zxbasic.Backend.Operand.Meaning.{Stack, Runs}
use zxbasic.Backend.Operand.Pushes.{Pushes, Pushes-≡}
use zxbasic.Backend.Operand.Fetched.{Given, Given-lt}
use zxbasic.Backend.Operand.Unlabelled.{Unlabelled}
use zxbasic.Backend.Bits8.Arithmetic.{a}
use zxbasic.Backend.Bits8.Shift.{shru8, shri8, shl8}
use zxbasic.Backend.Bits8.Shift.Loops.{iterate, OneShift, shift_ops-Pushes}

abbrev half : ℕ → ℕ
half x = x / 2

abbrev twice : ℕ → ℕ
twice x = (x + x) % 256

abbrev signed_half : ℕ → ℕ
signed_half x = x / 2 + (if leb 128 x then 128 else 0)

srl-OneShift : (p : Platform) → OneShift p (plain (srl a)) half
unfolding exec Runs Unlabelled after_label
srl-OneShift p = record {
  effect = λ t. _;
  runs = λ whole t fuel code. refl;
  in_a = λ t. refl;
  b_kept = λ t. refl;
  stack_kept = λ t. refl;
  memory_kept = λ t. refl;
  unlabelled = λ n code. refl;
  zero_kept = refl;
}

sra-OneShift : (p : Platform) → OneShift p (plain (sra a)) signed_half
unfolding exec Runs Unlabelled after_label
sra-OneShift p = record {
  effect = λ t. _;
  runs = λ whole t fuel code. refl;
  in_a = λ t. refl;
  b_kept = λ t. refl;
  stack_kept = λ t. refl;
  memory_kept = λ t. refl;
  unlabelled = λ n code. refl;
  zero_kept = refl;
}

add_a-OneShift : (p : Platform) → OneShift p (plain (alu add (reg a))) twice
unfolding exec Runs Unlabelled after_label
add_a-OneShift p = record {
  effect = λ t. _;
  runs = λ whole t fuel code. refl;
  in_a = λ t. refl;
  b_kept = λ t. refl;
  stack_kept = λ t. refl;
  memory_kept = λ t. refl;
  unlabelled = λ n code. refl;
  zero_kept = refl;
}

iterate-half : (n v : ℕ) → iterate half n v ≡ v / 2 ^ n
iterate-half zero v = sym (div-one v)
iterate-half (suc n) v =
    iterate-half n (half v)
    ∙ div-div-eq-div-mul v 2 (2 ^ n)
    ∙ ap (λ (x : ℕ). v / x) (omega (arith, pow-suc 2 n))

iterate-twice-lt : (n v : ℕ) → v < 256 → iterate twice n v < 256
iterate-twice-lt zero v l = l
iterate-twice-lt (suc n) v l = iterate-twice-lt n (twice v) (omega arith)

iterate-twice : (n v : ℕ) → iterate twice n v % 256 ≡ v * 2 ^ n % 256
iterate-twice zero v = omega arith
iterate-twice (suc n) v =
    let q = (v + v) / 256 in
    let r = (v + v) % 256 in
    let e : v + v ≡ r + q * 256 = omega arith in
    let scaled : (v + v) * 2 ^ n ≡ (r + q * 256) * 2 ^ n = ap (λ (t : ℕ). t * 2 ^ n) e in
    let power : v * 2 ^ suc n ≡ v * (2 ^ n * 2) = ap (λ (t : ℕ). v * t) (pow-suc 2 n) in
    iterate-twice n (twice v) ∙ omega (arith, scaled, power)

iterate-signed_half :
    (n v : ℕ)
    → v < 256
    → iterate signed_half n v ≡ (if leb 128 v then 255 - (255 - v) / 2 ^ n else v / 2 ^ n)
iterate-signed_half zero v l = ground arith
iterate-signed_half (suc n) v l =
    let halves : (x : ℕ) → x / 2 / 2 ^ n ≡ x / 2 ^ suc n =
      λ x. div-div-eq-div-mul x 2 (2 ^ n) ∙ ap (λ (y : ℕ). x / y) (sym (pow-succ' 2 n)) in
    iterate-signed_half n (signed_half v) (ground arith) ∙ (elim (Bool-cases (leb 128 v)) [
      | inl k ↦
          let e : 255 - signed_half v ≡ (255 - v) / 2 = ground arith in
          let high : leb 128 (signed_half v) ≡ true = ground arith in
          rw (high, e, k, halves (255 - v)) refl
      | inr k ↦
          let low : leb 128 (signed_half v) ≡ false = ground arith in
          let e : signed_half v ≡ v / 2 = ground arith in rw (low, e, k, halves v) refl
    ])

-- An arithmetic shift to the right by n places
abbrev pub signed_shift : ℕ → ℕ → ℕ
signed_shift v n = if leb 128 v then 255 - (255 - v) / 2 ^ n else v / 2 ^ n

-- The codes of `shru8`, `shri8` and `shl8` run to their ends with 256 jumps at most, take the two
-- operands (not indirect ones) and push, with v and n for their values: v / 2 ^ n; the same of the
-- signed value, rounded down; and v * 2 ^ n modulo 256. That holds for the unrolled code, the loop and
-- the shift of the constant 0, and for any numbers of the temporary labels; the memory is as it was.
pub shift-Pushes :
    (p : Platform)
    → (s : Cpu) → (lbl : ℕ) → (op1 op2 : Operand) → (v n : ℕ) → (rest : Stack)
    → Given p s op1 op2 v n rest
    → Pushes p (shru8 lbl op1 op2).0 256 (shru8 lbl op1 op2).0 s (v / 2 ^ n) rest
      × Pushes p (shri8 lbl op1 op2).0 256 (shri8 lbl op1 op2).0 s (signed_shift v n) rest
      × Pushes p (shl8 lbl op1 op2).0 256 (shl8 lbl op1 op2).0 s (v * 2 ^ n % 256) rest
unfolding shru8 shri8 shl8
shift-Pushes p s lbl op1 op2 v n rest g =
    let (l, l') = Given-lt p s op1 op2 v n rest g in
    (
      Pushes-≡ p _ 256 _ s _ _ rest _
          (shift_ops-Pushes p (plain (srl a)) half (srl-OneShift p) s op1 op2 4 lbl v n rest
            (omega arith) g (is_int op2) refl)
          (iterate-half n v) refl,
      Pushes-≡ p _ 256 _ s _ _ rest _
          (shift_ops-Pushes p (plain (sra a)) signed_half (sra-OneShift p) s op1 op2 4 lbl v n rest
            (omega arith) g (is_int op2) refl)
          (iterate-signed_half n v l) refl,
      Pushes-≡ p _ 256 _ s _ _ rest _
          (shift_ops-Pushes p (plain (alu add (reg a))) twice (add_a-OneShift p) s op1 op2 6 lbl v n
            rest (omega arith) g (is_int op2) refl)
          (omega (arith, iterate-twice n v, iterate-twice-lt n v l)) refl,
    )
