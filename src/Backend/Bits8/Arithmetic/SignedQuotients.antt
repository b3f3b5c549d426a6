-- ===== src/Backend/Bits8/Arithmetic/SignedQuotients.antt =====
-- src/arch/z80/backend/_8bit.py: `divi8` pushes the quotient of two signed bytes.
use native.Mathlib.Nat.{zero-div, mod-lt, div-le_self}
use zxbasic.Prelude.{
  ℕ, ◌+◌, ◌-◌, ◌/◌, ◌%◌, ◌<◌, ◌≤◌, ◌≡◌, refl, sym, ap, ◌∙◌, true, ◌==◌, leb, [], ◌∷◌, Option, none,
  some, if◌then◌else◌, arith, some_eq, ◌⊎◌, all_below, all_below-true, Bool, not, false, Bool-cases,
  inl, inr,
}
use zxbasic.Prelude.Int.{ℤ}
use zxbasic.Backend.Machine.{sra, plain, divi8_fast, Platform, Cpu, exec}
use zxbasic.Backend.Operand.{Operand, int8, is_int}
use zxbasic.Backend.Operand.Meaning.{Stack, Runs}
use zxbasic.Backend.Operand.Pushes.{Pushes, lines-Pushes}
use zxbasic.Backend.Operand.Fetched.{Given, Given-lt, one-Pushes, int_second}
use zxbasic.Backend.Bits8.Arithmetic.{push_af, a, div_int, div_ops, divi8}
use zxbasic.Backend.Bits8.Arithmetic.Products.{Computes}
use Prim.Native.Nat.{bit_xor}
use zxbasic.Backend.Bits8.Arithmetic.Quotients.{IsPositive, IsGeneral, div_ops-Pushes}

-- The magnitude of a signed byte, and its quotient by another, rounded towards 0
abbrev pub magnitude : ℕ → ℕ
magnitude x = if leb 128 x then 256 - x else x

abbrev pub negated : ℕ → ℕ
negated q = (256 - q) % 256

abbrev pub signed_quotient : ℕ → ℕ → ℕ
signed_quotient x y =
    let q = magnitude x / magnitude y in
    if leb 128 x then (if leb 128 y then q else negated q) else (if leb 128 y then negated q else q)

-- DIVI8_FAST of src/lib/arch/zx48k/runtime/arith/div8.asm, on A and H: the quotient of the magnitudes,
-- negated if bit 7 of `xor` is set. Its arguments are the divisor, which C keeps, and L, which holds
-- the remainder behind the call of DIVU8_FAST.
unfoldable pub runtime_quotient : ℕ → ℕ → ℕ
runtime_quotient x y =
    let q = magnitude x / magnitude y in
    let l = magnitude x % magnitude y in if leb 128 (bit_xor y l) then negated q else q

-- The remainder has no bit 7, so that the sign is that of the divisor.
agrees : Bool → Bool → Bool
agrees true b = b
agrees false b = not b

agrees-≡ : (a b : Bool) → agrees a b ≡ true → a ≡ b
unfolding agrees
agrees-≡ true b h = sym h
agrees-≡ false true h = cc
agrees-≡ false false h = refl

xor_sign_all :
    all_below 256 (λ y. all_below 128 (λ l. agrees (leb 128 (bit_xor y l)) (leb 128 y))) ≡ true
unfolding agrees
xor_sign_all = refl

xor_sign : (y l : ℕ) → y < 256 → l < 128 → leb 128 (bit_xor y l) ≡ leb 128 y
xor_sign y l b c = agrees-≡ _ _ (
    all_below-true 128 (λ (x : ℕ). agrees (leb 128 (bit_xor y x)) (leb 128 y))
      (all_below-true 256
        (λ (z : ℕ). all_below 128 (λ x. agrees (leb 128 (bit_xor z x)) (leb 128 z))) xor_sign_all y
        b)
      l c)

magnitude_positive : (y : ℕ) → y < 256 → 0 < y → (0 < magnitude y) × (magnitude y ≤ 128)
magnitude_positive y b h = (ground arith, ground arith)

magnitude_high : (x : ℕ) → 128 ≤ x → magnitude x ≤ 128
magnitude_high x h = ground arith

runtime_quotient-sign :
    (x y : ℕ)
    → y < 256
    → 0 < y
    → runtime_quotient x y
      ≡ (if leb 128 y then negated (magnitude x / magnitude y) else (magnitude x / magnitude y))
unfolding runtime_quotient
runtime_quotient-sign x y b h =
    let (m, le) = magnitude_positive y b h in
    let small = mod-lt (magnitude x) m in
    let l : magnitude x % magnitude y < 128 = omega (arith, small, le) in
    rw (xor_sign y (magnitude x % magnitude y) b l) refl

runtime_quotient-zero : (v : ℕ) → v < 256 → 0 < v → runtime_quotient 0 v ≡ 0
runtime_quotient-zero v b h =
    runtime_quotient-sign 0 v b h ∙ rw (zero-div (magnitude v)) (if_same (leb 128 v))
  where
    if_same : (c : Bool) → (if c then negated 0 else 0) ≡ 0
    if_same true = refl
    if_same false = refl

negations :
    (x y q : ℕ)
    → 128 ≤ x
    → q < 256
    → (if leb 128 y then negated q else q)
      ≡ negated (
          if leb 128 x
          then (if leb 128 y then q else negated q)
          else (if leb 128 y then negated q else q))
negations x y q h k = ground arith

-- Of a dividend that is not negative the routine gives the signed quotient, and of a negative one
-- that quotient negated.
runtime_quotient-signed :
    (x y : ℕ)
    → y < 256
    → 0 < y
    → (x < 128 → runtime_quotient x y ≡ signed_quotient x y)
      × (128 ≤ x → runtime_quotient x y ≡ negated (signed_quotient x y))
runtime_quotient-signed x y b h =
    let e = runtime_quotient-sign x y b h in
    let q = div-le_self (magnitude x) (magnitude y) in
    (
      λ k. e ∙ ground arith,
      λ k. e ∙ negations x y (magnitude x / magnitude y) k (omega (arith, q, magnitude_high x k)),
    )

signed_one : (x : ℕ) → x < 128 → x ≡ signed_quotient x 1
signed_one x h = ground arith

signed_two : (x : ℕ) → x < 128 → x / 2 + (if leb 128 x then 128 else 0) ≡ signed_quotient x 2
signed_two x h = ground arith

-- What `divi8` pushes, with the constant that the second operand is, if it is one
abbrev divi8_value : Option ℤ → ℕ → ℕ → ℕ
divi8_value none v1 v2 = runtime_quotient v1 v2
divi8_value (some n) v1 v2 =
    if int8 n == 1
    then v1
    else if int8 n == 2
    then v1 / 2 + (if leb 128 v1 then 128 else 0)
    else runtime_quotient v1 v2

value_one : (o : Option ℤ) (v1 v2 : ℕ) (n : ℤ) → o ≡ some n → int8 n ≡ 1 → divi8_value o v1 v2 ≡ v1
value_one none v1 v2 n e q = cc
value_one (some m) v1 v2 n e q = ground (arith, ap int8 (some_eq e))

value_two :
    (o : Option ℤ) (v1 v2 : ℕ) (n : ℤ)
    → o ≡ some n
    → int8 n ≡ 2
    → divi8_value o v1 v2 ≡ v1 / 2 + (if leb 128 v1 then 128 else 0)
value_two none v1 v2 n e q = cc
value_two (some m) v1 v2 n e q = ground (arith, ap int8 (some_eq e))

value_general :
    (o : Option ℤ) (v1 v2 : ℕ) → IsGeneral o → divi8_value o v1 v2 ≡ runtime_quotient v1 v2
value_general none v1 v2 h = refl
value_general (some m) v1 v2 h = ground arith

value_signed :
    (o : Option ℤ) (v1 v2 : ℕ)
    → ((n : ℤ) → o ≡ some n → int8 n ≡ v2)
    → v2 < 256
    → 0 < v2
    → v1 < 128
    → divi8_value o v1 v2 ≡ signed_quotient v1 v2
value_signed none v1 v2 i b h k = (runtime_quotient-signed v1 v2 b h).0 k
value_signed (some m) v1 v2 i b h k =
    let same = i m refl in
    elim (Bool-cases (int8 m == 1)) [
      | inl one ↦ let e : v2 ≡ 1 = ground arith in rw (one, e) (signed_one v1 k)
      | inr more ↦ elim (Bool-cases (int8 m == 2)) [
        | inl two ↦ let e : v2 ≡ 2 = ground arith in rw (more, two, e) (signed_two v1 k)
        | inr other ↦ rw (more, other) ((runtime_quotient-signed v1 v2 b h).0 k)
      ]
    ]

-- `divi8` of two operands (not indirect ones, the second not 0), where the routine DIVI8_FAST puts in A
-- what the source of the runtime library computes, and leaves the stack and the memory alone. The
-- code runs to its end with no jump, takes the operands and pushes one byte; the memory is as it was.
-- If the first value is not negative, the byte is the quotient of the signed values, rounded towards
-- 0, also by the constants 1 and 2, which spare the call. By the constant 1 it is the first value. If
-- the first value is negative and the second operand no constant 1 or 2, the byte is that quotient
-- with the wrong sign: the routine takes the sign of the divisor alone.
pub divi8-Pushes :
    (p : Platform)
    → Computes p divi8_fast IsPositive runtime_quotient
    → (s : Cpu) → (op1 op2 : Operand) → (v1 v2 : ℕ) → (rest : Stack) → Given p s op1 op2 v1 v2 rest
    → 0 < v2
    → (w : ℕ) × Pushes p (divi8 op1 op2) 0 (divi8 op1 op2) s w rest
      × (v1 < 128 → w ≡ signed_quotient v1 v2)
      × ((n : ℤ) → is_int op2 ≡ some n → int8 n ≡ 1 → w ≡ v1)
      × (128 ≤ v1 → IsGeneral (is_int op2) → w ≡ negated (signed_quotient v1 v2))
unfolding divi8 Runs exec
divi8-Pushes p c s op1 op2 v1 v2 rest g pos2 =
    let (lt1, lt2) = Given-lt p s op1 op2 v1 v2 rest g in
    let o = is_int op2 in
    (
      divi8_value o v1 v2,
      div_ops-Pushes p (divi8 op1 op2) divi8_fast runtime_quotient c runtime_quotient-zero
          (plain (sra a)) s op1 op2 v1 v2 rest g pos2 o refl (divi8_value o v1 v2)
          (value_one o v1 v2)
          (λ n e q t a_t.
            lines-Pushes p _ (plain (sra a) ∷ []) t _ (λ fuel code. refl) refl refl _
              (rw a_t (sym (value_two o v1 v2 n e q))))
          (value_general o v1 v2),
      value_signed o v1 v2 (λ n e. (int_second p s op1 op2 v1 v2 rest n e g).0) lt2 pos2,
      value_one o v1 v2,
      λ k general. value_general o v1 v2 general ∙ (runtime_quotient-signed v1 v2 lt2 pos2).1 k,
    )

-- By the constant 2 the code of `divi8`, which calls no routine, runs to its end with no jump, takes
-- the operands (not indirect ones) and pushes the half of the signed value, rounded down; the memory
-- is as it was. That is the quotient of the signed values, rounded towards 0, where the first is not
-- negative or is even, and one less where it is negative and odd.
pub divi8_two-Pushes :
    (p : Platform)
    → (s : Cpu) → (op1 op2 : Operand) → (v1 v2 : ℕ) → (rest : Stack) → Given p s op1 op2 v1 v2 rest
    → (n : ℤ) → is_int op2 ≡ some n
    → int8 n ≡ 2
    → (w : ℕ) × Pushes p (divi8 op1 op2) 0 (divi8 op1 op2) s w rest
      × (v1 < 128 ⊎ (v1 % 2 ≡ 0) → w ≡ signed_quotient v1 2)
      × (128 ≤ v1 → v1 % 2 ≡ 1 → (w + 1) % 256 ≡ signed_quotient v1 2)
unfolding divi8 div_ops div_int Runs exec
divi8_two-Pushes p s op1 op2 v1 v2 rest g n e q =
    let (lt1, lt2) = Given-lt p s op1 op2 v1 v2 rest g in
    (
      v1 / 2 + (if leb 128 v1 then 128 else 0),
      halves (is_int op2) e,
      λ k. ground arith,
      λ k odd. ground arith,
    )
  where
    halves :
        (o : Option ℤ)
        → o ≡ some n
        → Pushes p
            (divi8 op1 op2)
            0
            (div_ops divi8_fast (plain (sra a)) op1 op2 o)
            s
            (v1 / 2 + (if leb 128 v1 then 128 else 0))
            rest
    halves none k = cc
    halves (some m) k =
        let two : int8 m ≡ 2 = ap int8 (some_eq k) ∙ q in
        rw two (
          one-Pushes p (divi8 op1 op2) 0 (plain (sra a) ∷ push_af) op1 s v1 _ rest
            (int_second p s op1 op2 v1 v2 rest m (e ∙ sym k) g).1
            (λ t a_t.
              lines-Pushes p (divi8 op1 op2) (plain (sra a) ∷ []) t _ (λ fuel code. refl) refl refl
                _ (rw a_t refl)))
