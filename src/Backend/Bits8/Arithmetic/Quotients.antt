-- ===== src/Backend/Bits8/Arithmetic/Quotients.antt =====
-- src/arch/z80/backend/_8bit.py: `divu8` and `divi8` push the quotient of two bytes.
use native.Mathlib.Nat.{zero-div}
use zxbasic.Prelude.Xor.{bit_xor_self}
use zxbasic.Prelude.{
  ℕ, ◌/◌, ◌<◌, ◌≡◌, ◌≢◌, refl, sym, ap, ◌∙◌, true, ◌&&◌, ◌==◌, List, [], ◌∷◌, Option, none, some,
  arith, some_eq, ==_iff, and_parts,
}
use zxbasic.Prelude.Int.{ℤ}
use zxbasic.Backend.Machine.{
  Routine, reg, byte, alu, xor_a, srl, plain, call, divu8_fast, Platform, Cpu, Line, exec,
}
use zxbasic.Backend.Operand.{Operand, int8, ld_h, is_int, is_global}
use zxbasic.Backend.Operand.Meaning.{Stack, Runs}
use zxbasic.Backend.Operand.Fixed.{is_global-Fixed}
use zxbasic.Backend.Operand.Pushes.{
  Pushes, Runs-Pushes, push_af-Pushes, Pushes-≡, lines-Pushes, if_elim,
}
use zxbasic.Backend.Operand.Fetched.{
  Given, Given-lt, one-Pushes, both-Pushes, int_first, int_second,
}
use zxbasic.Backend.Bits8.Arithmetic.{
  push_af, a, is_zero_int, divide_names, div_int, div_ops, divu8, ordered,
}
use zxbasic.Backend.Bits8.Arithmetic.Operands.{is_0-int8, ordered_lem}
use zxbasic.Backend.Bits8.Arithmetic.Products.{Computes, call-Pushes}

abbrev pub IsPositive : ℕ → Type 0
IsPositive n = 0 < n

is_zero_int-lem : (o : Option ℤ) → is_zero_int o ≡ true → (n : ℤ) × (o ≡ some n) × (int8 n ≡ 0)
is_zero_int-lem none k = cc
is_zero_int-lem (some n) k = (n, refl, is_0-int8 n k)

-- The call, or 0 if the first operand is 0 and the second needs no fetch
pub divide_names-Pushes :
    (p : Platform)
    → (whole : List Line) → (r : Routine) → (f : ℕ → ℕ → ℕ) → Computes p r IsPositive f
    → ((v : ℕ) → v < 256 → 0 < v → f 0 v ≡ 0)
    → (s : Cpu) → (op1 op2 : Operand) → (v1 v2 : ℕ) → (rest : Stack) → Given p s op1 op2 v1 v2 rest
    → 0 < v2
    → Pushes p whole 0 (divide_names r op1 op2) s (f v1 v2) rest
unfolding divide_names Runs exec
divide_names-Pushes p whole r f c zero_by s op1 op2 v1 v2 rest g pos2 =
    let (lt1, lt2) = Given-lt p s op1 op2 v1 v2 rest g in
    if_elim (λ (code : List Line). Pushes p whole 0 code s (f v1 v2) rest)
      (is_global op2 && is_zero_int (is_int op1)) _ _
      (λ k.
        let (glob, z) = and_parts (is_global op2) (is_zero_int (is_int op1)) k in
        let (n, e, n0) = is_zero_int-lem (is_int op1) z in
        let (i, e2) = int_first p s op1 op2 v1 v2 rest n e g in
        let (v, fixed) = is_global-Fixed p s.memory op2 glob in
        let st : s.stack ≡ rest =
          ap (λ (x : ℕ × Stack). x.1) (some_eq (sym (fixed s.stack) ∙ e2)) in
        Pushes-≡ p whole 0 _ s 0 _ s.stack _
          (lines-Pushes p whole (plain (alu xor_a (reg a)) ∷ []) s _ (λ fuel code. refl) refl refl 0
            (bit_xor_self s.a))
          (sym (zero_by v2 lt2 pos2) ∙ ap (λ (x : ℕ). f x v2) (sym n0 ∙ i)) st)
      (λ k.
        both-Pushes p whole 0 (ordered op1 op2) (call r ∷ push_af) s v1 v2 _ rest
          (ordered_lem p whole s op1 op2 v1 v2 rest g)
          (λ t a_t h_t.
            Pushes-≡ p whole 0 _ t _ _ t.stack _
              (call-Pushes p whole r IsPositive f c t (rw h_t pos2)) (rw (a_t, h_t) refl) refl))

-- By a constant: nothing for 1, a shift for 2, else the call
div_int-Pushes :
    (p : Platform)
    → (whole : List Line) → (r : Routine) → (f : ℕ → ℕ → ℕ) → Computes p r IsPositive f
    → (shift : Line) → (n w : ℕ) → 0 < n
    → (t : Cpu) → (n ≡ 1 → w ≡ t.a)
    → (n ≡ 2 → Pushes p whole 0 (shift ∷ push_af) t w t.stack)
    → (n ≢ 1 → n ≢ 2 → w ≡ f t.a n)
    → Pushes p whole 0 (div_int r shift n) t w t.stack
unfolding div_int exec Runs
div_int-Pushes p whole r f c shift n w pos_n t one two other =
    let P : List Line → Type 0 = λ code. Pushes p whole 0 code t w t.stack in
    if_elim P (n == 1) _ _
      (λ k.
        Pushes-≡ p whole 0 push_af t t.a _ t.stack _ (push_af-Pushes p whole t)
          (sym (one ((==_iff n 1).0 k))) refl)
      (λ k.
        if_elim P (n == 2) _ _ (λ k2. two (ground arith))
          (λ k2.
            Runs-Pushes p whole 0 (ld_h (byte n) ∷ []) (call r ∷ push_af) t (record t { h = n })
              (λ fuel code. refl) refl _ _
              (Pushes-≡ p whole 0 _ (record t { h = n }) _ _ t.stack _
                (call-Pushes p whole r IsPositive f c (record t { h = n }) pos_n)
                (sym (other (ground arith) (ground arith))) refl)))

-- The divisor is no constant 1 or 2.
abbrev pub IsGeneral : Option ℤ → Type 0
IsGeneral none = Unit
IsGeneral (some n) = (int8 n ≢ 1) × (int8 n ≢ 2)

pub div_ops-Pushes :
    (p : Platform)
    → (whole : List Line) → (r : Routine) → (f : ℕ → ℕ → ℕ) → Computes p r IsPositive f
    → ((v : ℕ) → v < 256 → 0 < v → f 0 v ≡ 0)
    → (shift : Line) → (s : Cpu) → (op1 op2 : Operand) → (v1 v2 : ℕ) → (rest : Stack)
    → Given p s op1 op2 v1 v2 rest
    → 0 < v2
    → (o : Option ℤ) → is_int op2 ≡ o
    → (w : ℕ) → ((n : ℤ) → o ≡ some n → int8 n ≡ 1 → w ≡ v1)
    → ((n : ℤ)
        → o ≡ some n
        → int8 n ≡ 2
        → (t : Cpu) → t.a ≡ v1
        → Pushes p whole 0 (shift ∷ push_af) t w t.stack)
    → (IsGeneral o → w ≡ f v1 v2)
    → Pushes p whole 0 (div_ops r shift op1 op2 o) s w rest
unfolding div_ops
div_ops-Pushes p whole r f c zero_by shift s op1 op2 v1 v2 rest g pos2 none k w one two other =
    Pushes-≡ p whole 0 _ s _ _ rest _
      (divide_names-Pushes p whole r f c zero_by s op1 op2 v1 v2 rest g pos2) (sym (other tt)) refl
div_ops-Pushes p whole r f c zero_by shift s op1 op2 v1 v2 rest g pos2 (some n) k w one two other =
    let (i, e) = int_second p s op1 op2 v1 v2 rest n k g in
    one-Pushes p whole 0 (div_int r shift (int8 n)) op1 s v1 _ rest e (λ t a_t.
      div_int-Pushes p whole r f c shift (int8 n) w (omega arith) t (λ q. one n refl q ∙ sym a_t)
        (λ q. two n refl q t a_t) (λ q q'. other (q, q') ∙ rw (a_t, i) refl))

-- Where the routine DIVU8_FAST divides A by H, if H is not 0, and leaves the stack and the memory
-- alone, the code of `divu8` runs to its end with no jump, takes the two operands (not indirect ones,
-- the second not 0) and pushes the quotient of their values; the memory is as it was.
pub divu8-Pushes :
    (p : Platform)
    → Computes p divu8_fast IsPositive ◌/◌
    → (s : Cpu) → (op1 op2 : Operand) → (v1 v2 : ℕ) → (rest : Stack) → Given p s op1 op2 v1 v2 rest
    → 0 < v2
    → Pushes p (divu8 op1 op2) 0 (divu8 op1 op2) s (v1 / v2) rest
unfolding divu8 Runs exec
divu8-Pushes p c s op1 op2 v1 v2 rest g pos2 =
    div_ops-Pushes p (divu8 op1 op2) divu8_fast ◌/◌ c (λ v l q. zero-div v) (plain (srl a)) s op1
      op2 v1 v2 rest g pos2 (is_int op2) refl (v1 / v2)
      (λ n e q. rw (sym (int_second p s op1 op2 v1 v2 rest n e g).0 ∙ q) (omega arith))
      (λ n e q t a_t.
        lines-Pushes p _ (plain (srl a) ∷ []) t _ (λ fuel code. refl) refl refl _
          (rw (a_t, sym (int_second p s op1 op2 v1 v2 rest n e g).0 ∙ q) refl))
      (λ h. refl)
