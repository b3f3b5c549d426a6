-- ===== src/Backend/Bits8/Compare/Equal.antt =====
-- src/arch/z80/backend/_8bit.py: equality of bytes, and the comparisons of signed ones.
use zxbasic.Prelude.{
  ℕ, ◌+◌, ◌-◌, ◌%◌, ◌<◌, ◌≡◌, ◌↔◌, refl, ap, ◌==◌, ltb, leb, List, [], ◌∷◌, ◌++◌, Option, none,
  some, arith, append_assoc,
}
use zxbasic.Prelude.Int.{ℤ}
use zxbasic.Backend.Machine.{
  byte, alu, sub, dec, plain, bit, lti8_call, lei8_call, Platform, Cpu, Line, exec, flags,
}
use zxbasic.Backend.Operand.{Operand, int8, is_int, get_oper, get_opers}
use zxbasic.Backend.Operand.Meaning.{Stack, Runs}
use zxbasic.Backend.Operand.Pushes.{
  Pushes, Runs-Pushes, push_af-Pushes, Pushes-≡, lines-Pushes, if_elim,
}
use zxbasic.Backend.Operand.Fetched.{Given, Given-lt, one-Pushes, int_second}
use zxbasic.Backend.Bits8.Arithmetic.{push_af, a}
use zxbasic.Backend.Bits8.Arithmetic.Products.{Computes, AlwaysOk, call-Pushes}
use zxbasic.Backend.Bits8.Compare.{
  sub_h, sbc_a, eq8, ne8, differ, differ_int, lti8, gti8, lei8, gei8,
}
use zxbasic.Backend.Bits8.Compare.Unsigned.{truth, fetched-Pushes}

abbrev difference : ℕ → ℕ → ℕ
difference x y = (x + 256 - y) % 256

-- The difference comes into A, and then there are other lines.
differ-Pushes :
    (p : Platform)
    → (whole code : List Line) → (f : ℕ → ℕ)
    → ((t : Cpu) → t.a < 256 → Pushes p whole 0 code t (f t.a) t.stack)
    → (s : Cpu) → (op1 op2 : Operand) → (v1 v2 : ℕ) → (rest : Stack) → Given p s op1 op2 v1 v2 rest
    → (o : Option ℤ) → is_int op2 ≡ o
    → Pushes p whole 0 (differ op1 op2 o ++ code) s (f (difference v1 v2)) rest
unfolding differ differ_int exec Runs
differ-Pushes p whole code f run s op1 op2 v1 v2 rest g none k =
    rw (append_assoc (get_opers op1 op2) (sub_h ∷ []) code)
      (fetched-Pushes p whole (sub_h ∷ code) (λ x y. f (difference x y))
        (λ t.
          Runs-Pushes p whole 0 (sub_h ∷ []) code t _ (λ fuel code'. refl) refl _ _
            (run _ (omega arith)))
        s op1 op2 v1 v2 rest g).0
differ-Pushes p whole code f run s op1 op2 v1 v2 rest g (some n) k =
    let (i, e) = int_second p s op1 op2 v1 v2 rest n k g in
    let (lt1, lt2) = Given-lt p s op1 op2 v1 v2 rest g in
    rw (append_assoc (get_oper op1) (differ_int (int8 n)) code) (
      one-Pushes p whole 0 (differ_int (int8 n) ++ code) op1 s v1 _ rest e (λ t a_t.
        let P : List Line → Type 0 =
          λ lines. Pushes p whole 0 (lines ++ code) t (f (difference v1 v2)) t.stack in
        if_elim P (int8 n == 0) _ _
          (λ z.
            Pushes-≡ p whole 0 code t _ _ t.stack _ (run t (omega arith)) (ap f (ground arith))
              refl)
          (λ z.
            if_elim P (int8 n == 1) _ _
              (λ z.
                Runs-Pushes p whole 0 (plain (dec a) ∷ []) code t _ (λ fuel code'. refl) refl _ _
                  (Pushes-≡ p whole 0 code _ _ _ t.stack _ (run _ (omega arith))
                    (ap f (ground arith)) refl))
              (λ z.
                Runs-Pushes p whole 0 (plain (alu sub (byte (int8 n))) ∷ []) code t _
                  (λ fuel code'. refl) refl _ _
                  (Pushes-≡ p whole 0 code _ _ _ t.stack _ (run _ (omega arith))
                    (ap f (ground arith)) refl)))))

zero_test-Pushes :
    (p : Platform)
    → (whole : List Line) → (t : Cpu) → t.a < 256
    → Pushes p whole 0 (plain (alu sub (byte 1)) ∷ sbc_a ∷ push_af) t (truth (t.a == 0)) t.stack
unfolding exec Runs flags
zero_test-Pushes p whole t l =
    lines-Pushes p whole (plain (alu sub (byte 1)) ∷ sbc_a ∷ []) t _ (λ fuel code. refl) refl refl _
      (ground arith)

-- The codes of `eq8` and `ne8` run to their ends with no jump and take the two operands (not indirect
-- ones). `eq8` pushes 255 exactly if the values are equal and 0 otherwise; `ne8` pushes 0 exactly if
-- they are equal. The memory is as it was.
pub equal-Pushes :
    (p : Platform)
    → (s : Cpu) → (op1 op2 : Operand) → (v1 v2 : ℕ) → (rest : Stack) → Given p s op1 op2 v1 v2 rest
    → Pushes p (eq8 op1 op2) 0 (eq8 op1 op2) s (truth (v1 == v2)) rest
      × ((w : ℕ) × Pushes p (ne8 op1 op2) 0 (ne8 op1 op2) s w rest × ((w ≡ 0) ↔ (v1 ≡ v2)))
unfolding eq8 ne8
equal-Pushes p s op1 op2 v1 v2 rest g =
    let (lt1, lt2) = Given-lt p s op1 op2 v1 v2 rest g in
    (
      Pushes-≡ p (eq8 op1 op2) 0 _ s _ _ rest _
          (differ-Pushes p (eq8 op1 op2) _ (λ x. truth (x == 0)) (zero_test-Pushes p (eq8 op1 op2))
            s op1 op2 v1 v2 rest g (is_int op2) refl)
          (ground arith) refl,
      (
        difference v1 v2,
        differ-Pushes p (ne8 op1 op2) push_af (λ x. x) (λ t l. push_af-Pushes p (ne8 op1 op2) t) s
            op1 op2 v1 v2 rest g (is_int op2) refl,
        ground arith,
      ),
    )

-- The order of signed bytes is that of the bytes with the sign bit turned.
abbrev pub signed_below : ℕ → ℕ → ℕ
signed_below x y = bit (ltb ((x + 128) % 256) ((y + 128) % 256))

abbrev pub signed_not_above : ℕ → ℕ → ℕ
signed_not_above x y = bit (leb ((x + 128) % 256) ((y + 128) % 256))

-- Where the routines LTI8 and LEI8 put 1 in A if A is below H, or not above H, as signed bytes, else
-- 0, and leave the stack and the memory alone, the codes of `lti8`, `gti8`, `lei8` and `gei8` run to
-- their ends with no jump, take the two operands (not indirect ones) and push 1 exactly if the first
-- signed value is below the second, above, not above and not below, and 0 otherwise.
pub signed-Pushes :
    (p : Platform)
    → Computes p lti8_call AlwaysOk signed_below
    → Computes p lei8_call AlwaysOk signed_not_above
    → (s : Cpu) → (op1 op2 : Operand) → (v1 v2 : ℕ) → (rest : Stack) → Given p s op1 op2 v1 v2 rest
    → Pushes p (lti8 op1 op2) 0 (lti8 op1 op2) s (signed_below v1 v2) rest
      × Pushes p (gti8 op1 op2) 0 (gti8 op1 op2) s (signed_below v2 v1) rest
      × Pushes p (lei8 op1 op2) 0 (lei8 op1 op2) s (signed_not_above v1 v2) rest
      × Pushes p (gei8 op1 op2) 0 (gei8 op1 op2) s (signed_not_above v2 v1) rest
unfolding lti8 gti8 lei8 gei8
signed-Pushes p lt le s op1 op2 v1 v2 rest g = (
  (fetched-Pushes p _ _ signed_below (λ t. call-Pushes p _ lti8_call AlwaysOk signed_below lt t tt)
      s op1 op2 v1 v2 rest g).0,
  (fetched-Pushes p _ _ signed_below (λ t. call-Pushes p _ lti8_call AlwaysOk signed_below lt t tt)
      s op1 op2 v1 v2 rest g).1,
  (fetched-Pushes p _ _ signed_not_above
      (λ t. call-Pushes p _ lei8_call AlwaysOk signed_not_above le t tt) s op1 op2 v1 v2 rest g).0,
  (fetched-Pushes p _ _ signed_not_above
      (λ t. call-Pushes p _ lei8_call AlwaysOk signed_not_above le t tt) s op1 op2 v1 v2 rest g).1,
)
