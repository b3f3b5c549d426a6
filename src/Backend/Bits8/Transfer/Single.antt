-- ===== src/Backend/Bits8/Transfer/Single.antt =====
-- src/arch/z80/backend/_8bit.py: the operations on one operand, of any kind.
use mathlib.Core.Path.{subst}
use zxbasic.Prelude.{ℕ, ◌-◌, ◌%◌, ◌≡◌, refl, ◌==◌, List, [], ◌∷◌, some, arith, append-nil}
use zxbasic.Backend.Machine.{
  reg, byte, alu, sub, sbc, neg, cpl, plain, call, jp, Outcome, always, abs8_call, pragma_require_a,
  falls_through, jumps, Platform, Cpu, Line, exec, flags,
}
use zxbasic.Backend.Operand.{Operand, get_oper}
use zxbasic.Backend.Operand.Meaning.{Stack, Sound, value, Runs}
use zxbasic.Backend.Operand.Values.{value-lt}
use zxbasic.Backend.Operand.FetchH.{get_oper-LoadsA}
use zxbasic.Backend.Operand.Pushes.{Pushes, push_af-Pushes, Pushes-≡, lines-Pushes}
use zxbasic.Backend.Operand.Fetched.{one-Pushes}
use zxbasic.Backend.Bits8.Arithmetic.{push_af, a}
use zxbasic.Backend.Bits8.Arithmetic.Products.{Computes, AlwaysOk, call-Pushes}
use zxbasic.Backend.Bits8.Arithmetic.SignedQuotients.{magnitude}
use zxbasic.Backend.Bits8.Compare.Unsigned.{truth}
use zxbasic.Backend.Bits8.Logic.{not8, bnot8, neg8, abs8, inverted}
use zxbasic.Backend.Bits8.Transfer.{load8, param8, fparam8, ret8}

-- A is `v` at the end, which is the label, or the end of the code; `rest` is on the stack, and the
-- memory is as it was.
unfoldable pub EndsWith : Platform → List Line → Cpu → (Cpu → Outcome) → ℕ → Stack → Type 0
EndsWith p code s leave v rest =
    (t : Cpu) × ((fuel : ℕ) → exec p code fuel code s ≡ some (leave t))
    × (t.a ≡ v)
    × (t.stack ≡ rest)
    × (t.memory ≡ s.memory)

abbrev magnitude_of : ℕ → ℕ → ℕ
magnitude_of x y = magnitude x

-- The codes of `not8`, `bnot8`, `neg8`, `abs8` (where the routine ABS8 puts the magnitude of A in A and
-- leaves the stack and the memory alone), `load8` and `param8` run to their ends with no jump, take one
-- operand of any kind and push, with v for its value: 255 if v is 0 and else 0; 255 less v; -v modulo
-- 256; the magnitude of v; v; and v. Those of `fparam8` and `ret8` leave v in A, and that of `ret8` jumps
-- to the label. The memory is as it was.
pub single-Pushes :
    (p : Platform)
    → Computes p abs8_call AlwaysOk magnitude_of
    → (s : Cpu) → Sound p s
    → (op : Operand) → (lbl : List ℕ) → (v : ℕ) → (rest : Stack)
    → value p s.memory s.stack op ≡ some (v, rest)
    → Pushes p (not8 op) 0 (not8 op) s (truth (v == 0)) rest
      × Pushes p (bnot8 op) 0 (bnot8 op) s (255 - v) rest
      × Pushes p (neg8 op) 0 (neg8 op) s ((256 - v) % 256) rest
      × Pushes p (abs8 op) 0 (abs8 op) s (magnitude v) rest
      × Pushes p (load8 op) 0 (load8 op) s v rest
      × Pushes p (param8 op) 0 (param8 op) s v rest
      × EndsWith p (fparam8 op) s falls_through v rest
      × EndsWith p (ret8 op lbl) s (jumps lbl) v rest
unfolding not8 bnot8 neg8 abs8 load8 param8 fparam8 ret8 exec Runs flags EndsWith
single-Pushes p c s sound op lbl v rest e =
    let l = (value-lt p s.memory sound.memory-lt s.stack sound.stack-lt op v rest e).0 in
    (
      one-Pushes p _ 0 inverted op s v _ rest e (λ t a_t.
          lines-Pushes p _ (plain (alu sub (byte 1)) ∷ plain (alu sbc (reg a)) ∷ []) t _
            (λ fuel code. refl) refl refl _ (ground arith)),
      one-Pushes p _ 0 (plain cpl ∷ push_af) op s v _ rest e (λ t a_t.
          lines-Pushes p _ (plain cpl ∷ []) t _ (λ fuel code. refl) refl refl _ (rw a_t refl)),
      one-Pushes p _ 0 (plain neg ∷ push_af) op s v _ rest e (λ t a_t.
          lines-Pushes p _ (plain neg ∷ []) t _ (λ fuel code. refl) refl refl _ (rw a_t refl)),
      one-Pushes p _ 0 (call abs8_call ∷ push_af) op s v _ rest e (λ t a_t.
          Pushes-≡ p _ 0 _ t _ _ t.stack _ (call-Pushes p _ abs8_call AlwaysOk magnitude_of c t tt)
            (rw a_t refl) refl),
      one-Pushes p _ 0 push_af op s v _ rest e
          (λ t a_t. Pushes-≡ p _ 0 push_af t _ _ t.stack _ (push_af-Pushes p _ t) a_t refl),
      one-Pushes p _ 0 push_af op s v _ rest e
          (λ t a_t. Pushes-≡ p _ 0 push_af t _ _ t.stack _ (push_af-Pushes p _ t) a_t refl),
      (let (t, runs, a_t, stack_t, memory_t, kept) = get_oper-LoadsA p (fparam8 op) op s v rest e in
          (
            t,
            λ fuel.
                subst
                  (λ (code : List Line). exec p (get_oper op) fuel code s ≡ some (falls_through t))
                  (append-nil (get_oper op)) (runs fuel []),
            a_t,
            stack_t,
            memory_t,
          )),
      (let (t, runs, a_t, stack_t, memory_t, kept) =
            get_oper-LoadsA p (ret8 op lbl) op s v rest e in
          (
            t,
            λ fuel. runs fuel (plain pragma_require_a ∷ jp always lbl ∷ []),
            a_t,
            stack_t,
            memory_t,
          )),
    )
