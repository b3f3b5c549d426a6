-- ===== src/Backend/Bits8/Compare/Unsigned.antt =====
-- src/arch/z80/backend/_8bit.py: the comparisons of unsigned bytes.
use zxbasic.Prelude.{
  ℕ, ◌≡◌, refl, Bool, ◌==◌, ltb, leb, List, [], ◌∷◌, ◌++◌, Option, none, some, if◌then◌else◌, arith,
  append_assoc,
}
use zxbasic.Prelude.Int.{ℤ}
use zxbasic.Backend.Machine.{
  Reg8, reg, byte, alu, sub, cp, ccf, plain, Platform, Cpu, Line, exec, flags,
}
use zxbasic.Backend.Operand.{Operand, int8, is_int, get_oper, get_opers, get_opers_reversed}
use zxbasic.Backend.Operand.Meaning.{Stack, Runs}
use zxbasic.Backend.Operand.Pushes.{Pushes, Pushes-≡, lines-Pushes, if_elim}
use zxbasic.Backend.Operand.Fetched.{
  Given, one-Pushes, both-Pushes, Given-LoadsBoth, Given-LoadsBoth_reversed, int_second,
}
use zxbasic.Backend.Bits8.Arithmetic.{push_af, a}
use zxbasic.Backend.Bits8.Compare.{sub_h, sbc_a, ltu8, gtu8, leu8, geu8, above, above_int}

-- A truth value as the generated code has it: 255 or 0
abbrev pub truth : Bool → ℕ
truth b = if b then 255 else 0

below-Pushes :
    (p : Platform)
    → (whole : List Line) → (t : Cpu)
    → Pushes p whole 0
        (plain (alu cp (reg Reg8.h)) ∷ sbc_a ∷ push_af)
        t
        (truth (ltb t.a t.h))
        t.stack
unfolding exec Runs flags
below-Pushes p whole t =
    lines-Pushes p whole (plain (alu cp (reg Reg8.h)) ∷ sbc_a ∷ []) t _ (λ fuel code. refl) refl
      refl _ (ground arith)

not_below-Pushes :
    (p : Platform)
    → (whole : List Line) → (t : Cpu)
    → Pushes p whole 0 (sub_h ∷ plain ccf ∷ sbc_a ∷ push_af) t (truth (leb t.h t.a)) t.stack
unfolding exec Runs flags
not_below-Pushes p whole t =
    lines-Pushes p whole (sub_h ∷ plain ccf ∷ sbc_a ∷ []) t _ (λ fuel code. refl) refl refl _
      (ground arith)

-- Both operands are fetched, either way round, and then come lines that take what is in A and H.
pub fetched-Pushes :
    (p : Platform)
    → (whole : List Line) → (code : List Line) → (f : ℕ → ℕ → ℕ)
    → ((t : Cpu) → Pushes p whole 0 code t (f t.a t.h) t.stack)
    → (s : Cpu) → (op1 op2 : Operand) → (v1 v2 : ℕ) → (rest : Stack) → Given p s op1 op2 v1 v2 rest
    → Pushes p whole 0 (get_opers op1 op2 ++ code) s (f v1 v2) rest
      × Pushes p whole 0 (get_opers_reversed op1 op2 ++ code) s (f v2 v1) rest
fetched-Pushes p whole code f run s op1 op2 v1 v2 rest g = (
  both-Pushes p whole 0 (get_opers op1 op2) code s v1 v2 _ rest
      (Given-LoadsBoth p whole s op1 op2 v1 v2 rest g)
      (λ t a_t h_t. Pushes-≡ p whole 0 code t _ _ t.stack _ (run t) (rw (a_t, h_t) refl) refl),
  both-Pushes p whole 0 (get_opers_reversed op1 op2) code s v2 v1 _ rest
      (Given-LoadsBoth_reversed p whole s op1 op2 v1 v2 rest g)
      (λ t a_t h_t. Pushes-≡ p whole 0 code t _ _ t.stack _ (run t) (rw (a_t, h_t) refl) refl),
)

-- `geu8`, with a constant or without
above-Pushes :
    (p : Platform)
    → (whole : List Line) → (s : Cpu) → (op1 op2 : Operand) → (v1 v2 : ℕ) → (rest : Stack)
    → Given p s op1 op2 v1 v2 rest
    → (o : Option ℤ) → is_int op2 ≡ o
    → Pushes p whole 0 (above op1 op2 o ++ plain ccf ∷ sbc_a ∷ push_af) s (truth (leb v2 v1)) rest
unfolding above above_int exec Runs flags
above-Pushes p whole s op1 op2 v1 v2 rest g none k =
    rw (append_assoc (get_opers op1 op2) (sub_h ∷ []) (plain ccf ∷ sbc_a ∷ push_af))
      (fetched-Pushes p whole _ (λ x y. truth (leb y x)) (not_below-Pushes p whole) s op1 op2 v1 v2
        rest g).0
above-Pushes p whole s op1 op2 v1 v2 rest g (some n) k =
    let (i, e) = int_second p s op1 op2 v1 v2 rest n k g in
    rw (append_assoc (get_oper op1) (above_int (int8 n) ∷ []) (plain ccf ∷ sbc_a ∷ push_af)) (
      one-Pushes p whole 0 (above_int (int8 n) ∷ plain ccf ∷ sbc_a ∷ push_af) op1 s v1 _ rest e
        (λ t a_t.
          if_elim
            (λ (line : Line).
              Pushes p whole 0 (line ∷ plain ccf ∷ sbc_a ∷ push_af) t (truth (leb v2 v1)) t.stack)
            (int8 n == 0) _ _
            (λ z.
              lines-Pushes p whole (plain (alu cp (reg a)) ∷ plain ccf ∷ sbc_a ∷ []) t _
                (λ fuel code. refl) refl refl _ (ground arith))
            (λ z.
              lines-Pushes p whole (plain (alu sub (byte (int8 n))) ∷ plain ccf ∷ sbc_a ∷ []) t _
                (λ fuel code. refl) refl refl _ (ground arith))))

-- The codes of `ltu8`, `gtu8`, `leu8` and `geu8` run to their ends with no jump, take the two operands
-- (not indirect ones) and push 255 exactly if the first value is below the second, above, not above
-- and not below, and 0 otherwise; the memory is as it was.
pub unsigned-Pushes :
    (p : Platform)
    → (s : Cpu) → (op1 op2 : Operand) → (v1 v2 : ℕ) → (rest : Stack) → Given p s op1 op2 v1 v2 rest
    → Pushes p (ltu8 op1 op2) 0 (ltu8 op1 op2) s (truth (ltb v1 v2)) rest
      × Pushes p (gtu8 op1 op2) 0 (gtu8 op1 op2) s (truth (ltb v2 v1)) rest
      × Pushes p (leu8 op1 op2) 0 (leu8 op1 op2) s (truth (leb v1 v2)) rest
      × Pushes p (geu8 op1 op2) 0 (geu8 op1 op2) s (truth (leb v2 v1)) rest
unfolding ltu8 gtu8 leu8 geu8
unsigned-Pushes p s op1 op2 v1 v2 rest g = (
  (fetched-Pushes p (ltu8 op1 op2) _ (λ x y. truth (ltb x y)) (below-Pushes p (ltu8 op1 op2)) s op1
      op2 v1 v2 rest g).0,
  (fetched-Pushes p (gtu8 op1 op2) _ (λ x y. truth (ltb x y)) (below-Pushes p (gtu8 op1 op2)) s op1
      op2 v1 v2 rest g).1,
  (fetched-Pushes p (leu8 op1 op2) _ (λ x y. truth (leb y x)) (not_below-Pushes p (leu8 op1 op2)) s
      op1 op2 v1 v2 rest g).1,
  above-Pushes p (geu8 op1 op2) s op1 op2 v1 v2 rest g (is_int op2) refl,
)
