-- ===== src/Backend/Bits16/Single.antt =====
-- src/arch/z80/backend/_16bit.py: the operations on one word.
use Prim.Native.Nat.{bit_or}
use mathlib.Core.Path.{subst}
use zxbasic.Prelude.Bits.{bit_or_zero}
use zxbasic.Prelude.{
  ℕ, ◌+◌, ◌*◌, ◌≡◌, refl, sym, ◌∙◌, ◌==◌, List, [], ◌∷◌, ◌++◌, append-nil, some, arith, Bool-cases,
  inl, inr,
}
use zxbasic.Backend.Machine.{
  Reg8, reg, byte, sub, sbc, alu, plain, falls_through, Platform, Cpu, Line, exec, flags, join,
}
use zxbasic.Backend.Operand.{Operand}
use zxbasic.Backend.Operand.Meaning.{Stack, Runs}
use zxbasic.Backend.Bits16.{push_hl, get_oper16}
use zxbasic.Backend.Operand.Pushes.{Pushes, Runs-Pushes, lines-Pushes}
use zxbasic.Backend.Bits8.Arithmetic.{push_af}
use zxbasic.Backend.Bits8.Compare.Unsigned.{truth}
use zxbasic.Backend.Bits16.{test_hl, not16, load16, param16, fparam16}
use zxbasic.Backend.Bits16.Word.{word}
use zxbasic.Backend.Bits16.Given.{get_oper16-LoadsHl}
use zxbasic.Backend.Bits16.Pushes.{PushesWord, lines-PushesWord, one-PushesWord}

zero_word : (h l : ℕ) → (bit_or h l == 0) ≡ (h * 256 + l == 0)
zero_word h l = elim (Bool-cases (bit_or h l == 0)) [
  | inl z ↦ let (e, k) = bit_or_zero h l (ground arith) in ground arith
  | inr z ↦ elim (Bool-cases (h * 256 + l == 0)) [
    | inl q ↦
        let e : h ≡ 0 = ground arith in
        let k : l ≡ 0 = ground arith in
        let o : bit_or h l ≡ 0 = rw (e, k) refl in absurd (ground arith)
    | inr q ↦ z ∙ sym q
  ]
]

not16_tail-Pushes :
    (p : Platform)
    → (whole : List Line) → (v : ℕ) → (t : Cpu) → join (t.h, t.l) ≡ v
    → Pushes p whole 0
        (test_hl ++ plain (alu sub (byte 1)) ∷ plain (alu sbc (reg Reg8.a)) ∷ push_af)
        t
        (truth (v == 0))
        t.stack
unfolding exec Runs flags
not16_tail-Pushes p whole v t e =
    lines-Pushes p whole (test_hl ++ plain (alu sub (byte 1)) ∷ plain (alu sbc (reg Reg8.a)) ∷ []) t
      _ (λ fuel code. refl) refl refl _ (ground (arith, zero_word t.h t.l))

-- The codes of `load16` and `param16` run to their ends with no jump, take one operand of any kind and
-- push its value; that of `not16` pushes, as a byte, 255 if the value is 0 and else 0; and that of
-- `fparam16` leaves the value in HL. The memory is as it was.
pub single16-PushesWord :
    (p : Platform)
    → (s : Cpu) → (op : Operand) → (v : ℕ) → (rest : Stack)
    → word p s.memory s.stack op ≡ some (v, rest)
    → PushesWord p (load16 op) (load16 op) s v rest
      × PushesWord p (param16 op) (param16 op) s v rest
      × Pushes p (not16 op) 0 (not16 op) s (truth (v == 0)) rest
      × ((t : Cpu) × ((fuel : ℕ)
            → exec p (fparam16 op) fuel (fparam16 op) s ≡ some (falls_through t))
          × (join (t.h, t.l) ≡ v)
          × (t.stack ≡ rest)
          × (t.memory ≡ s.memory))
unfolding load16 param16 not16 fparam16 exec Runs
single16-PushesWord p s op v rest e = (
  one-PushesWord p _ push_hl op s v v rest e
      (λ t hl_t. lines-PushesWord p _ [] t t (λ fuel code. refl) v t.stack hl_t refl refl),
  one-PushesWord p _ push_hl op s v v rest e
      (λ t hl_t. lines-PushesWord p _ [] t t (λ fuel code. refl) v t.stack hl_t refl refl),
  (let (t, runs, hl_t, stack_t, memory_t, de_t) = get_oper16-LoadsHl p (not16 op) op s v rest e in
      Runs-Pushes p _ 0 (get_oper16 op) _ s t runs memory_t _ rest
        (subst (Pushes p _ 0 _ t (truth (v == 0))) stack_t (not16_tail-Pushes p _ v t hl_t))),
  (let (t, runs, hl_t, stack_t, memory_t, de_t) =
        get_oper16-LoadsHl p (fparam16 op) op s v rest e in
      (
        t,
        λ fuel.
            subst
              (λ (code : List Line). exec p (get_oper16 op) fuel code s ≡ some (falls_through t))
              (append-nil (get_oper16 op)) (runs fuel []),
        hl_t,
        stack_t,
        memory_t,
      )),
)
