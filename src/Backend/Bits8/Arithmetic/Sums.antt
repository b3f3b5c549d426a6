-- ===== src/Backend/Bits8/Arithmetic/Sums.antt =====
-- src/arch/z80/backend/_8bit.py: `add8` and `sub8` push the sum and the difference of a byte.
use zxbasic.Prelude.{
  ℕ, ◌+◌, ◌-◌, ◌%◌, ◌<◌, ◌≡◌, refl, ◌==◌, List, ◌∷◌, ◌++◌, Option, none, some, arith,
}
use zxbasic.Prelude.Int.{ℤ}
use zxbasic.Backend.Machine.{
  Reg8, reg, byte, alu, add, sub, inc, dec, neg, plain, Platform, Cpu, Line, exec,
}
use zxbasic.Backend.Operand.{Operand, int8, is_int}
use zxbasic.Backend.Operand.Meaning.{Stack}
use zxbasic.Backend.Operand.Pushes.{Pushes, push_af-Pushes, plain-Pushes, Pushes-≡, if_elim}
use zxbasic.Backend.Operand.Fetched.{
  Given, Given-lt, one-Pushes, both-Pushes, int_first, int_second,
}
use zxbasic.Backend.Bits8.Arithmetic.{
  push_af, a, int_ops, is, add_int, add_ops, add8, sub_int, sub_name, sub_ops, sub8, ordered,
}
use zxbasic.Backend.Bits8.Arithmetic.Operands.{is_0-int8, int_ops-values, both_orders, ordered_lem}

add_int-Pushes :
    (p : Platform)
    → (whole : List Line) → (n : ℤ) → (t : Cpu) → t.a < 256
    → Pushes p whole 0 (add_int n) t ((t.a + int8 n) % 256) t.stack
unfolding add_int exec
add_int-Pushes p whole n t b =
    let P : List Line → Type 0 = λ code. Pushes p whole 0 code t ((t.a + int8 n) % 256) t.stack in
    if_elim P (is 0 n) _ _
      (λ k.
        Pushes-≡ p whole 0 push_af t t.a _ t.stack _ (push_af-Pushes p whole t)
          (omega (arith, is_0-int8 n k)) refl)
      (λ k.
        if_elim P (int8 n == 1) _ _
          (λ k. plain-Pushes p whole (inc a) t _ (λ fuel code. refl) refl refl _ (ground arith))
          (λ k.
            if_elim P (int8 n == 255) _ _
              (λ k. plain-Pushes p whole (dec a) t _ (λ fuel code. refl) refl refl _ (ground arith))
              (λ k.
                plain-Pushes p whole (alu add (byte (int8 n))) t _ (λ fuel code. refl) refl refl _
                  refl)))

add_ops-Pushes :
    (p : Platform)
    → (whole : List Line) → (s : Cpu) → (op1 op2 : Operand) → (v1 v2 : ℕ) → (rest : Stack)
    → Given p s op1 op2 v1 v2 rest
    → (o : Option (Operand × ℤ)) → int_ops op1 op2 ≡ o
    → Pushes p whole 0 (add_ops op1 op2 o) s ((v1 + v2) % 256) rest
unfolding add_ops exec
add_ops-Pushes p whole s op1 op2 v1 v2 rest g (some (op, n)) k =
    let (w, e, one) = int_ops-values p s op1 op2 v1 v2 rest g op n k in
    let (lt1, lt2) = Given-lt p s op1 op2 v1 v2 rest g in
    one-Pushes p whole 0 (add_int n) op s w _ rest e (λ t a_t.
      Pushes-≡ p whole 0 (add_int n) t _ _ t.stack _ (add_int-Pushes p whole n t (omega arith))
        (omega arith) refl)
add_ops-Pushes p whole s op1 op2 v1 v2 rest g none k =
    both_orders p whole s op1 op2 v1 v2 rest g (plain (alu add (reg Reg8.h)) ∷ push_af) _
      (λ t a_t h_t.
        plain-Pushes p whole (alu add (reg Reg8.h)) t _ (λ fuel code. refl) refl refl _
          (omega arith))
      (λ t a_t h_t.
        plain-Pushes p whole (alu add (reg Reg8.h)) t _ (λ fuel code. refl) refl refl _
          (omega arith))

-- The code of `add8` runs to its end with no jump, takes the two operands (not indirect ones) and
-- pushes the sum of their values, less 256 if it is above a byte; the memory is as it was.
pub add8-Pushes :
    (p : Platform)
    → (s : Cpu) → (op1 op2 : Operand) → (v1 v2 : ℕ) → (rest : Stack) → Given p s op1 op2 v1 v2 rest
    → Pushes p (add8 op1 op2) 0 (add8 op1 op2) s ((v1 + v2) % 256) rest
unfolding add8
add8-Pushes p s op1 op2 v1 v2 rest g =
    add_ops-Pushes p (add8 op1 op2) s op1 op2 v1 v2 rest g (int_ops op1 op2) refl

sub_int-Pushes :
    (p : Platform)
    → (whole : List Line) → (n : ℕ) → (t : Cpu) → t.a < 256
    → n < 256
    → Pushes p whole 0 (sub_int n) t ((t.a + 256 - n) % 256) t.stack
unfolding sub_int exec
sub_int-Pushes p whole n t b l =
    let P : List Line → Type 0 = λ code. Pushes p whole 0 code t ((t.a + 256 - n) % 256) t.stack in
    if_elim P (n == 0) _ _
      (λ k.
        Pushes-≡ p whole 0 push_af t t.a _ t.stack _ (push_af-Pushes p whole t) (ground arith) refl)
      (λ k.
        if_elim P (n == 1) _ _
          (λ k. plain-Pushes p whole (dec a) t _ (λ fuel code. refl) refl refl _ (ground arith))
          (λ k.
            if_elim P (n == 255) _ _
              (λ k. plain-Pushes p whole (inc a) t _ (λ fuel code. refl) refl refl _ (ground arith))
              (λ k.
                plain-Pushes p whole (alu sub (byte n)) t _ (λ fuel code. refl) refl refl _ refl)))

sub_h-Pushes :
    (p : Platform)
    → (whole : List Line) → (s : Cpu) → (op1 op2 : Operand) → (v1 v2 : ℕ) → (rest : Stack)
    → Given p s op1 op2 v1 v2 rest
    → Pushes p whole 0
        (ordered op1 op2 ++ plain (alu sub (reg Reg8.h)) ∷ push_af)
        s
        ((v1 + 256 - v2) % 256)
        rest
unfolding exec
sub_h-Pushes p whole s op1 op2 v1 v2 rest g =
    both-Pushes p whole 0 (ordered op1 op2) _ s v1 v2 _ rest
      (ordered_lem p whole s op1 op2 v1 v2 rest g)
      (λ t a_t h_t.
        plain-Pushes p whole (alu sub (reg Reg8.h)) t _ (λ fuel code. refl) refl refl _
          (omega arith))

sub_name-Pushes :
    (p : Platform)
    → (whole : List Line) → (s : Cpu) → (op1 op2 : Operand) → (v1 v2 : ℕ) → (rest : Stack)
    → Given p s op1 op2 v1 v2 rest
    → (o : Option ℤ) → is_int op1 ≡ o
    → Pushes p whole 0 (sub_name op1 op2 o) s ((v1 + 256 - v2) % 256) rest
unfolding sub_name exec
sub_name-Pushes p whole s op1 op2 v1 v2 rest g none k = sub_h-Pushes p whole s op1 op2 v1 v2 rest g
sub_name-Pushes p whole s op1 op2 v1 v2 rest g (some n) k =
    let (i, e) = int_first p s op1 op2 v1 v2 rest n k g in
    let (lt1, lt2) = Given-lt p s op1 op2 v1 v2 rest g in
    if_elim (λ (code : List Line). Pushes p whole 0 code s ((v1 + 256 - v2) % 256) rest)
      (int8 n == 0) _ _
      (λ z.
        one-Pushes p whole 0 (plain neg ∷ push_af) op2 s v2 _ rest e
          (λ t a_t. plain-Pushes p whole neg t _ (λ fuel code. refl) refl refl _ (ground arith)))
      (λ z. sub_h-Pushes p whole s op1 op2 v1 v2 rest g)

sub_ops-Pushes :
    (p : Platform)
    → (whole : List Line) → (s : Cpu) → (op1 op2 : Operand) → (v1 v2 : ℕ) → (rest : Stack)
    → Given p s op1 op2 v1 v2 rest
    → (o : Option ℤ) → is_int op2 ≡ o
    → Pushes p whole 0 (sub_ops op1 op2 o) s ((v1 + 256 - v2) % 256) rest
unfolding sub_ops
sub_ops-Pushes p whole s op1 op2 v1 v2 rest g none k =
    sub_name-Pushes p whole s op1 op2 v1 v2 rest g (is_int op1) refl
sub_ops-Pushes p whole s op1 op2 v1 v2 rest g (some n) k =
    let (i, e) = int_second p s op1 op2 v1 v2 rest n k g in
    let (lt1, lt2) = Given-lt p s op1 op2 v1 v2 rest g in
    one-Pushes p whole 0 (sub_int (int8 n)) op1 s v1 _ rest e (λ t a_t.
      Pushes-≡ p whole 0 (sub_int (int8 n)) t _ _ t.stack _
        (sub_int-Pushes p whole (int8 n) t (omega arith) (omega arith)) (omega arith) refl)

-- The code of `sub8` runs to its end with no jump, takes the two operands (not indirect ones) and
-- pushes the first value less the second, plus 256 if that is negative; the memory is as it was.
pub sub8-Pushes :
    (p : Platform)
    → (s : Cpu) → (op1 op2 : Operand) → (v1 v2 : ℕ) → (rest : Stack) → Given p s op1 op2 v1 v2 rest
    → Pushes p (sub8 op1 op2) 0 (sub8 op1 op2) s ((v1 + 256 - v2) % 256) rest
unfolding sub8
sub8-Pushes p s op1 op2 v1 v2 rest g =
    sub_ops-Pushes p (sub8 op1 op2) s op1 op2 v1 v2 rest g (is_int op2) refl
