-- ===== src/Backend/Bits16/Compare.antt =====
-- src/arch/z80/backend/_16bit.py: the comparisons of unsigned words, and the operations on one word.
use Prim.Native.Nat.{bit_or}
use mathlib.Core.Path.{subst}
use zxbasic.Prelude.Bits.{bit_or_zero}
use zxbasic.Prelude.{
  ℕ, ◌+◌, ◌-◌, ◌/◌, ◌%◌, ◌≡◌, ◌↔◌, refl, ap, ltb, leb, List, [], ◌∷◌, ◌++◌, arith,
}
use zxbasic.Backend.Machine.{
  Reg8, reg, sbc, alu, ccf, plain, Platform, Cpu, Line, exec, flags, flags16, join,
}
use zxbasic.Backend.Operand.{Operand}
use zxbasic.Backend.Operand.Meaning.{Stack, Runs}
use zxbasic.Backend.Bits16.{get_opers16, get_opers16_reversed}
use zxbasic.Backend.Operand.Pushes.{Pushes, Runs-Pushes, lines-Pushes}
use zxbasic.Backend.Bits8.Arithmetic.{push_af}
use zxbasic.Backend.Bits8.Compare.Unsigned.{truth}
use zxbasic.Backend.Bits16.{
  subtract_de, carry_out, no_carry_out, test_hl, ltu16, gtu16, leu16, geu16, ne16,
}
use zxbasic.Backend.Bits16.Bounds.{GivenWords-lt}
use zxbasic.Backend.Bits16.Given.{
  GivenWords, LoadsPair, get_opers16-LoadsPair, get_opers16_reversed-LoadsPair,
}

-- Both operands are fetched, and then come lines that take what is in HL and DE.
pair-Pushes :
    (p : Platform)
    → (whole lines code : List Line) → (s : Cpu) → (v1 v2 w : ℕ) → (rest : Stack)
    → LoadsPair p whole lines s v1 v2 rest
    → ((t : Cpu) → join (t.h, t.l) ≡ v1 → join (t.d, t.e) ≡ v2 → Pushes p whole 0 code t w t.stack)
    → Pushes p whole 0 (lines ++ code) s w rest
pair-Pushes p whole lines code s v1 v2 w rest (t, runs, hl_t, de_t, stack_t, memory_t) f =
    Runs-Pushes p whole 0 lines code s t runs memory_t w rest
      (subst (Pushes p whole 0 code t w) stack_t (f t hl_t de_t))

below-Pushes :
    (p : Platform)
    → (whole : List Line) → (v1 v2 : ℕ) → (t : Cpu) → join (t.h, t.l) ≡ v1
    → join (t.d, t.e) ≡ v2
    → Pushes p whole 0 (subtract_de ++ carry_out) t (truth (ltb v1 v2)) t.stack
unfolding exec Runs flags flags16
below-Pushes p whole v1 v2 t hl_t de_t =
    lines-Pushes p whole (subtract_de ++ plain (alu sbc (reg Reg8.a)) ∷ []) t _ (λ fuel code. refl)
      refl refl _ (ground arith)

not_below-Pushes :
    (p : Platform)
    → (whole : List Line) → (v1 v2 : ℕ) → (t : Cpu) → join (t.h, t.l) ≡ v1
    → join (t.d, t.e) ≡ v2
    → Pushes p whole 0 (subtract_de ++ no_carry_out) t (truth (leb v2 v1)) t.stack
unfolding exec Runs flags flags16
not_below-Pushes p whole v1 v2 t hl_t de_t =
    lines-Pushes p whole (subtract_de ++ plain ccf ∷ plain (alu sbc (reg Reg8.a)) ∷ []) t _
      (λ fuel code. refl) refl refl _ (ground arith)

ne16_tail-Pushes :
    (p : Platform)
    → (whole : List Line) → (n v1 v2 : ℕ) → n ≡ (v1 + 65536 - v2) % 65536
    → (t : Cpu) → join (t.h, t.l) ≡ v1
    → join (t.d, t.e) ≡ v2
    → Pushes p whole 0 (subtract_de ++ test_hl ++ push_af) t (bit_or (n / 256) (n % 256)) t.stack
unfolding exec Runs flags flags16
ne16_tail-Pushes p whole n v1 v2 k t hl_t de_t =
    lines-Pushes p whole (subtract_de ++ test_hl) t _ (λ fuel code. refl) refl refl _
      (ap (λ (m : ℕ). bit_or (m / 256) (m % 256)) (ground arith))

-- The codes of `ltu16`, `gtu16`, `leu16`, `geu16` and `ne16` run to their ends with no jump, take the
-- two operands (not indirect ones) and push 255 as a byte exactly if the first value is below the
-- second, above, not above and not below, and else 0; and, for `ne16`, 0 exactly if the values are
-- equal. The memory is as it was.
pub unsigned16-Pushes :
    (p : Platform)
    → (s : Cpu) → (op1 op2 : Operand) → (v1 v2 : ℕ) → (rest : Stack)
    → GivenWords p s op1 op2 v1 v2 rest
    → Pushes p (ltu16 op1 op2) 0 (ltu16 op1 op2) s (truth (ltb v1 v2)) rest
      × Pushes p (gtu16 op1 op2) 0 (gtu16 op1 op2) s (truth (ltb v2 v1)) rest
      × Pushes p (leu16 op1 op2) 0 (leu16 op1 op2) s (truth (leb v1 v2)) rest
      × Pushes p (geu16 op1 op2) 0 (geu16 op1 op2) s (truth (leb v2 v1)) rest
      × ((w : ℕ) × Pushes p (ne16 op1 op2) 0 (ne16 op1 op2) s w rest × ((w ≡ 0) ↔ (v1 ≡ v2)))
unfolding ltu16 gtu16 leu16 geu16 ne16
unsigned16-Pushes p s op1 op2 v1 v2 rest g =
    let straight = λ (whole : List Line). get_opers16-LoadsPair p whole s op1 op2 v1 v2 rest g in
    let reversed =
      λ (whole : List Line). get_opers16_reversed-LoadsPair p whole s op1 op2 v1 v2 rest g in
    let (l1, l2) = GivenWords-lt p s op1 op2 v1 v2 rest g in
    let n = (v1 + 65536 - v2) % 65536 in
    (
      pair-Pushes p _ (get_opers16 op1 op2) (subtract_de ++ carry_out) s v1 v2 _ rest (straight _)
          (below-Pushes p _ v1 v2),
      pair-Pushes p _ (get_opers16_reversed op1 op2) (subtract_de ++ carry_out) s v2 v1 _ rest
          (reversed _) (below-Pushes p _ v2 v1),
      pair-Pushes p _ (get_opers16_reversed op1 op2) (subtract_de ++ no_carry_out) s v2 v1 _ rest
          (reversed _) (not_below-Pushes p _ v2 v1),
      pair-Pushes p _ (get_opers16 op1 op2) (subtract_de ++ no_carry_out) s v1 v2 _ rest
          (straight _) (not_below-Pushes p _ v1 v2),
      (
        bit_or (n / 256) (n % 256),
        pair-Pushes p _ (get_opers16 op1 op2) (subtract_de ++ test_hl ++ push_af) s v1 v2 _ rest
            (straight _) (ne16_tail-Pushes p _ n v1 v2 refl),
        (
          (λ z. let (high, low) = bit_or_zero (n / 256) (n % 256) z in omega arith),
          λ same. ap (λ (m : ℕ). bit_or (m / 256) (m % 256)) {x = n} {y = 0} (omega arith),
        ),
      ),
    )
