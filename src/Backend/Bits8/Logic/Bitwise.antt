-- ===== src/Backend/Bits8/Logic/Bitwise.antt =====
-- src/arch/z80/backend/_8bit.py: the bitwise operations.
use Prim.Native.Nat.{bit_and, bit_or}
use zxbasic.Prelude.{bit_xor, inl, inr}
use zxbasic.Prelude.Bits.{
  bit_or-zero, zero-bit_or, bit_or-ones, ones-bit_or, bit_and-ones, ones-bit_and, bit_and-zero,
  zero-bit_and, bit_xor-zero, zero-bit_xor, bit_xor-ones, ones-bit_xor,
}
use zxbasic.Prelude.Xor.{bit_xor_self}
use zxbasic.Prelude.{ℕ, ◌-◌, ◌<◌, ◌≡◌, refl, sym, ap, ◌∙◌, List, [], ◌∷◌, Option, none, some, arith}
use zxbasic.Prelude.Int.{ℤ}
use zxbasic.Backend.Machine.{
  Reg8, reg, byte, alu, and_a, or_a, xor_a, cpl, plain, Platform, Cpu, Line, exec,
}
use zxbasic.Backend.Operand.{Operand, int8, ld_a}
use zxbasic.Backend.Operand.Meaning.{Stack, Runs}
use zxbasic.Backend.Operand.Pushes.{Pushes, push_af-Pushes, Pushes-≡, lines-Pushes, if_elim}
use zxbasic.Backend.Operand.Fetched.{Given, Given-lt, one-Pushes}
use zxbasic.Backend.Bits8.Arithmetic.{push_af, a, is, int_ops}
use zxbasic.Backend.Bits8.Arithmetic.Operands.{OneIs, is_0-int8, int_ops-values}
use zxbasic.Backend.Bits8.Arithmetic.Products.{is-int8}
use zxbasic.Backend.Bits8.Compare.Unsigned.{fetched-Pushes}
use zxbasic.Backend.Bits8.Logic.{alu_h, bor_ops, bor8, band_ops, band8, bxor_ops, bxor8}

-- What a constant on either side does to an operation
by_constant :
    (f : ℕ → ℕ → ℕ)
    → (k : ℕ) → (g : ℕ → ℕ) → ((v : ℕ) → v < 256 → f v k ≡ g v)
    → ((v : ℕ) → v < 256 → f k v ≡ g v)
    → (w m v1 v2 : ℕ) → v1 < 256
    → v2 < 256
    → OneIs w m v1 v2
    → m ≡ k
    → g w ≡ f v1 v2
by_constant f k g right left w m v1 v2 l1 l2 (inl (e, e2)) q =
    sym (ap (f v1) (sym e2 ∙ q) ∙ right v1 l1 ∙ ap g (sym e))
by_constant f k g right left w m v1 v2 l1 l2 (inr (e, e1)) q =
    sym (ap (λ (x : ℕ). f x v2) (sym e1 ∙ q) ∙ left v2 l2 ∙ ap g (sym e))

bor_h-Pushes :
    (p : Platform)
    → (whole : List Line) → (t : Cpu) → Pushes p whole 0 (alu_h or_a) t (bit_or t.a t.h) t.stack
unfolding alu_h exec Runs
bor_h-Pushes p whole t =
    lines-Pushes p whole (plain (alu or_a (reg Reg8.h)) ∷ []) t _ (λ fuel code. refl) refl refl _
      refl

bor_ops-Pushes :
    (p : Platform)
    → (whole : List Line) → (s : Cpu) → (op1 op2 : Operand) → (v1 v2 : ℕ) → (rest : Stack)
    → Given p s op1 op2 v1 v2 rest
    → (o : Option (Operand × ℤ)) → int_ops op1 op2 ≡ o
    → Pushes p whole 0 (bor_ops op1 op2 o) s (bit_or v1 v2) rest
unfolding bor_ops exec Runs
bor_ops-Pushes p whole s op1 op2 v1 v2 rest g none k =
    (fetched-Pushes p whole (alu_h or_a) bit_or (bor_h-Pushes p whole) s op1 op2 v1 v2 rest g).0
bor_ops-Pushes p whole s op1 op2 v1 v2 rest g (some (op, n)) k =
    let (w, e, one) = int_ops-values p s op1 op2 v1 v2 rest g op n k in
    let (l1, l2) = Given-lt p s op1 op2 v1 v2 rest g in
    let P : List Line → Type 0 = λ code. Pushes p whole 0 code s (bit_or v1 v2) rest in
    if_elim P (is 0 n) _ _
      (λ z. one-Pushes p whole 0 push_af op s w _ rest e (λ t a_t.
        Pushes-≡ p whole 0 push_af t _ _ t.stack _ (push_af-Pushes p whole t)
          (a_t
            ∙ by_constant bit_or 0 (λ v. v) bit_or-zero zero-bit_or w (int8 n) v1 v2 l1 l2 one
                (is_0-int8 n z))
          refl))
      (λ z.
        if_elim P (is 255 n) _ _
          (λ z. one-Pushes p whole 0 (ld_a (byte 255) ∷ push_af) op s w _ rest e (λ t a_t.
            lines-Pushes p whole (ld_a (byte 255) ∷ []) t _ (λ fuel code. refl) refl refl _
              (by_constant bit_or 255 (λ v. 255) bit_or-ones ones-bit_or w (int8 n) v1 v2 l1 l2 one
                (is-int8 255 (omega arith) n z))))
          (λ z.
            (fetched-Pushes p whole (alu_h or_a) bit_or (bor_h-Pushes p whole) s op1 op2 v1 v2 rest
              g).0))

band_h-Pushes :
    (p : Platform)
    → (whole : List Line) → (t : Cpu) → Pushes p whole 0 (alu_h and_a) t (bit_and t.a t.h) t.stack
unfolding alu_h exec Runs
band_h-Pushes p whole t =
    lines-Pushes p whole (plain (alu and_a (reg Reg8.h)) ∷ []) t _ (λ fuel code. refl) refl refl _
      refl

band_ops-Pushes :
    (p : Platform)
    → (whole : List Line) → (s : Cpu) → (op1 op2 : Operand) → (v1 v2 : ℕ) → (rest : Stack)
    → Given p s op1 op2 v1 v2 rest
    → (o : Option (Operand × ℤ)) → int_ops op1 op2 ≡ o
    → Pushes p whole 0 (band_ops op1 op2 o) s (bit_and v1 v2) rest
unfolding band_ops exec Runs
band_ops-Pushes p whole s op1 op2 v1 v2 rest g none k =
    (fetched-Pushes p whole (alu_h and_a) bit_and (band_h-Pushes p whole) s op1 op2 v1 v2 rest g).0
band_ops-Pushes p whole s op1 op2 v1 v2 rest g (some (op, n)) k =
    let (w, e, one) = int_ops-values p s op1 op2 v1 v2 rest g op n k in
    let (l1, l2) = Given-lt p s op1 op2 v1 v2 rest g in
    let P : List Line → Type 0 = λ code. Pushes p whole 0 code s (bit_and v1 v2) rest in
    if_elim P (is 255 n) _ _
      (λ z. one-Pushes p whole 0 push_af op s w _ rest e (λ t a_t.
        Pushes-≡ p whole 0 push_af t _ _ t.stack _ (push_af-Pushes p whole t)
          (a_t
            ∙ by_constant bit_and 255 (λ v. v) bit_and-ones ones-bit_and w (int8 n) v1 v2 l1 l2 one
                (is-int8 255 (omega arith) n z))
          refl))
      (λ z.
        if_elim P (is 0 n) _ _
          (λ z. one-Pushes p whole 0 (plain (alu xor_a (reg a)) ∷ push_af) op s w _ rest e (λ t a_t.
            lines-Pushes p whole (plain (alu xor_a (reg a)) ∷ []) t _ (λ fuel code. refl) refl refl
              _
              (bit_xor_self t.a
                ∙ by_constant bit_and 0 (λ v. 0) bit_and-zero zero-bit_and w (int8 n) v1 v2 l1 l2
                    one (is_0-int8 n z))))
          (λ z.
            (fetched-Pushes p whole (alu_h and_a) bit_and (band_h-Pushes p whole) s op1 op2 v1 v2
              rest g).0))

bxor_h-Pushes :
    (p : Platform)
    → (whole : List Line) → (t : Cpu) → Pushes p whole 0 (alu_h xor_a) t (bit_xor t.a t.h) t.stack
unfolding alu_h exec Runs
bxor_h-Pushes p whole t =
    lines-Pushes p whole (plain (alu xor_a (reg Reg8.h)) ∷ []) t _ (λ fuel code. refl) refl refl _
      refl

bxor_ops-Pushes :
    (p : Platform)
    → (whole : List Line) → (s : Cpu) → (op1 op2 : Operand) → (v1 v2 : ℕ) → (rest : Stack)
    → Given p s op1 op2 v1 v2 rest
    → (o : Option (Operand × ℤ)) → int_ops op1 op2 ≡ o
    → Pushes p whole 0 (bxor_ops op1 op2 o) s (bit_xor v1 v2) rest
unfolding bxor_ops exec Runs
bxor_ops-Pushes p whole s op1 op2 v1 v2 rest g none k =
    (fetched-Pushes p whole (alu_h xor_a) bit_xor (bxor_h-Pushes p whole) s op1 op2 v1 v2 rest g).0
bxor_ops-Pushes p whole s op1 op2 v1 v2 rest g (some (op, n)) k =
    let (w, e, one) = int_ops-values p s op1 op2 v1 v2 rest g op n k in
    let (l1, l2) = Given-lt p s op1 op2 v1 v2 rest g in
    let P : List Line → Type 0 = λ code. Pushes p whole 0 code s (bit_xor v1 v2) rest in
    if_elim P (is 0 n) _ _
      (λ z. one-Pushes p whole 0 push_af op s w _ rest e (λ t a_t.
        Pushes-≡ p whole 0 push_af t _ _ t.stack _ (push_af-Pushes p whole t)
          (a_t
            ∙ by_constant bit_xor 0 (λ v. v) bit_xor-zero zero-bit_xor w (int8 n) v1 v2 l1 l2 one
                (is_0-int8 n z))
          refl))
      (λ z.
        if_elim P (is 255 n) _ _
          (λ z. one-Pushes p whole 0 (plain cpl ∷ push_af) op s w _ rest e (λ t a_t.
            lines-Pushes p whole (plain cpl ∷ []) t _ (λ fuel code. refl) refl refl _
              (ap (λ (x : ℕ). 255 - x) a_t
                ∙ by_constant bit_xor 255 (λ v. 255 - v) bit_xor-ones ones-bit_xor w (int8 n) v1 v2
                    l1 l2 one (is-int8 255 (omega arith) n z))))
          (λ z.
            (fetched-Pushes p whole (alu_h xor_a) bit_xor (bxor_h-Pushes p whole) s op1 op2 v1 v2
              rest g).0))

-- The codes of `bor8`, `band8` and `bxor8` run to their ends with no jump, take the two operands (not
-- indirect ones) and push the bitwise or, and, and exclusive or of their values, also where a constant
-- spares the operation; the memory is as it was.
pub bitwise-Pushes :
    (p : Platform)
    → (s : Cpu) → (op1 op2 : Operand) → (v1 v2 : ℕ) → (rest : Stack) → Given p s op1 op2 v1 v2 rest
    → Pushes p (bor8 op1 op2) 0 (bor8 op1 op2) s (bit_or v1 v2) rest
      × Pushes p (band8 op1 op2) 0 (band8 op1 op2) s (bit_and v1 v2) rest
      × Pushes p (bxor8 op1 op2) 0 (bxor8 op1 op2) s (bit_xor v1 v2) rest
unfolding bor8 band8 bxor8
bitwise-Pushes p s op1 op2 v1 v2 rest g = (
  bor_ops-Pushes p (bor8 op1 op2) s op1 op2 v1 v2 rest g (int_ops op1 op2) refl,
  band_ops-Pushes p (band8 op1 op2) s op1 op2 v1 v2 rest g (int_ops op1 op2) refl,
  bxor_ops-Pushes p (bxor8 op1 op2) s op1 op2 v1 v2 rest g (int_ops op1 op2) refl,
)
