-- ===== src/Backend/Bits8/Arithmetic/Products.antt =====
-- src/arch/z80/backend/_8bit.py: `mul8` pushes the product of two bytes.
use native.Mathlib.Nat.{mul_comm}
use zxbasic.Prelude.Xor.{bit_xor_self}
use zxbasic.Prelude.{
  ℕ, ◌*◌, ◌%◌, ◌<◌, ◌≡◌, refl, ap, ◌∙◌, true, List, [], ◌∷◌, Option, none, some, arith, inl, inr,
}
use zxbasic.Prelude.Int.{ℤ, pos, negsuc}
use zxbasic.Backend.Machine.{
  Routine, reg, byte, alu, add, xor_a, plain, call, mul8_fast, Platform, Cpu, Line, exec,
}
use zxbasic.Backend.Operand.{Operand, int8, ld_h}
use zxbasic.Backend.Operand.Meaning.{Stack, Runs}
use zxbasic.Backend.Operand.Pushes.{
  Pushes, Runs-Pushes, push_af-Pushes, plain-Pushes, Pushes-≡, lines-Pushes, if_elim,
}
use zxbasic.Backend.Operand.Fetched.{Given, Given-lt, one-Pushes}
use zxbasic.Backend.Bits8.Arithmetic.{push_af, a, int_ops, is, mul_int, mul_ops, mul8}
use zxbasic.Backend.Bits8.Arithmetic.Operands.{OneIs, is_0-int8, int_ops-values, both_orders}

-- A routine of the runtime library that puts `f` of A and H in A, where `ok` holds of H, and leaves
-- the stack and the memory alone.
pub record Computes (p : Platform) (r : Routine) (ok : ℕ → Type 0) (f : ℕ → ℕ → ℕ) : Type 0 where
  pub in_a : (s : Cpu) → ok s.h → (p.routine r s).a ≡ f s.a s.h
  pub stack_kept : (s : Cpu) → (p.routine r s).stack ≡ s.stack
  pub memory_kept : (s : Cpu) → (p.routine r s).memory ≡ s.memory

pub call-Pushes :
    (p : Platform)
    → (whole : List Line) → (r : Routine) → (ok : ℕ → Type 0) → (f : ℕ → ℕ → ℕ) → Computes p r ok f
    → (t : Cpu) → ok t.h
    → Pushes p whole 0 (call r ∷ push_af) t (f t.a t.h) t.stack
unfolding Runs exec
call-Pushes p whole r ok f c t h =
    lines-Pushes p whole (call r ∷ []) t (p.routine r t) (λ fuel code. refl) (c.memory_kept t)
      (c.stack_kept t) _ (c.in_a t h)

pub is-int8 : (k : ℕ) → k < 256 → (n : ℤ) → is k n ≡ true → int8 n ≡ k
unfolding int8
is-int8 k l (pos n) h = ground arith
is-int8 k l (negsuc n) h = ground arith

abbrev pub AlwaysOk : ℕ → Type 0
AlwaysOk h = Unit

abbrev pub product : ℕ → ℕ → ℕ
product x y = x * y % 256

mul_int-Pushes :
    (p : Platform)
    → (whole : List Line) → Computes p mul8_fast AlwaysOk product
    → (n : ℤ) → (t : Cpu) → t.a < 256
    → Pushes p whole 0 (mul_int n) t (product t.a (int8 n)) t.stack
unfolding mul_int exec Runs
mul_int-Pushes p whole c n t b =
    let P : List Line → Type 0 = λ code. Pushes p whole 0 code t (product t.a (int8 n)) t.stack in
    if_elim P (is 0 n) _ _
      (λ k.
        plain-Pushes p whole (alu xor_a (reg a)) t _ (λ fuel code. refl) refl refl _
          (bit_xor_self t.a ∙ rw (is_0-int8 n k) (omega arith)))
      (λ k.
        if_elim P (is 1 n) _ _
          (λ k.
            Pushes-≡ p whole 0 push_af t t.a _ t.stack _ (push_af-Pushes p whole t)
              (rw (is-int8 1 (omega arith) n k) (omega arith)) refl)
          (λ k.
            if_elim P (is 2 n) _ _
              (λ k.
                plain-Pushes p whole (alu add (reg a)) t _ (λ fuel code. refl) refl refl _
                  (rw (is-int8 2 (omega arith) n k) (omega arith)))
              (λ k.
                if_elim P (is 4 n) _ _
                  (λ k.
                    lines-Pushes p whole (plain (alu add (reg a)) ∷ plain (alu add (reg a)) ∷ []) t
                      _ (λ fuel code. refl) refl refl _
                      (rw (is-int8 4 (omega arith) n k) (omega arith)))
                  (λ k.
                    Runs-Pushes p whole 0 (ld_h (byte (int8 n)) ∷ []) (call mul8_fast ∷ push_af) t
                      (record t { h = int8 n }) (λ fuel code. refl) refl _ _
                      (call-Pushes p whole mul8_fast AlwaysOk product c (record t { h = int8 n })
                        tt)))))

OneIs-product : (w m v1 v2 : ℕ) → OneIs w m v1 v2 → product w m ≡ product v1 v2
OneIs-product w m v1 v2 (inl (e, k)) = rw (e, k) refl
OneIs-product w m v1 v2 (inr (e, k)) = rw (e, k, mul_comm v2 v1) refl

mul_ops-Pushes :
    (p : Platform)
    → (whole : List Line) → Computes p mul8_fast AlwaysOk product
    → (s : Cpu) → (op1 op2 : Operand) → (v1 v2 : ℕ) → (rest : Stack) → Given p s op1 op2 v1 v2 rest
    → (o : Option (Operand × ℤ)) → int_ops op1 op2 ≡ o
    → Pushes p whole 0 (mul_ops op1 op2 o) s (product v1 v2) rest
unfolding mul_ops
mul_ops-Pushes p whole c s op1 op2 v1 v2 rest g (some (op, n)) k =
    let (w, e, one) = int_ops-values p s op1 op2 v1 v2 rest g op n k in
    let (lt1, lt2) = Given-lt p s op1 op2 v1 v2 rest g in
    one-Pushes p whole 0 (mul_int n) op s w _ rest e (λ t a_t.
      Pushes-≡ p whole 0 (mul_int n) t _ _ t.stack _ (mul_int-Pushes p whole c n t (omega arith))
        (ap (λ (x : ℕ). product x (int8 n)) a_t ∙ OneIs-product w (int8 n) v1 v2 one) refl)
mul_ops-Pushes p whole c s op1 op2 v1 v2 rest g none k =
    both_orders p whole s op1 op2 v1 v2 rest g (call mul8_fast ∷ push_af) _
      (λ t a_t h_t.
        Pushes-≡ p whole 0 _ t _ _ t.stack _ (call-Pushes p whole mul8_fast AlwaysOk product c t tt)
          (OneIs-product t.a t.h v1 v2 (inl (a_t, h_t))) refl)
      (λ t a_t h_t.
        Pushes-≡ p whole 0 _ t _ _ t.stack _ (call-Pushes p whole mul8_fast AlwaysOk product c t tt)
          (OneIs-product t.a t.h v1 v2 (inr (a_t, h_t))) refl)

-- Where the routine MUL8_FAST multiplies A by H modulo 256 and leaves the stack and the memory alone,
-- the code of `mul8` runs to its end with no jump, takes the two operands (not indirect ones) and pushes
-- the product of their values modulo 256, also where a constant spares the call; the memory is as it was.
pub mul8-Pushes :
    (p : Platform)
    → Computes p mul8_fast AlwaysOk product
    → (s : Cpu) → (op1 op2 : Operand) → (v1 v2 : ℕ) → (rest : Stack) → Given p s op1 op2 v1 v2 rest
    → Pushes p (mul8 op1 op2) 0 (mul8 op1 op2) s (product v1 v2) rest
unfolding mul8
mul8-Pushes p c s op1 op2 v1 v2 rest g =
    mul_ops-Pushes p (mul8 op1 op2) c s op1 op2 v1 v2 rest g (int_ops op1 op2) refl
