-- ===== src/Backend/Bits8/Logic/Truth.antt =====
-- src/arch/z80/backend/_8bit.py: the logical operations.
use Prim.Native.Nat.{bit_or}
use zxbasic.Prelude.{◌⊎◌, inl, inr}
use zxbasic.Prelude.Bits.{bit_or_self, bit_or_zero}
use zxbasic.Prelude.Xor.{bit_xor_self}
use zxbasic.Prelude.{
  ℕ, ◌<◌, ◌≡◌, ◌≢◌, ◌↔◌, refl, ◌∙◌, true, ◌==◌, List, [], ◌∷◌, Option, none, some, if◌then◌else◌,
  arith, Bool-cases,
}
use zxbasic.Prelude.Int.{ℤ}
use zxbasic.Backend.Machine.{
  Reg8, reg, byte, alu, sub, or_a, xor_a, sbc, plain, label, jr_z, after_label, xor8_call, Platform,
  Cpu, Line, exec, flags,
}
use zxbasic.Backend.Operand.{Operand, int8, ld_a, get_opers}
use zxbasic.Backend.Operand.Meaning.{Stack, Runs}
use zxbasic.Backend.Operand.Pushes.{Pushes, Runs-Pushes, push_af-Pushes, Pushes-≡, lines-Pushes}
use zxbasic.Backend.Operand.Fetched.{Given, Given-lt, one-Pushes, both-Pushes, Given-LoadsBoth}
use zxbasic.Backend.Operand.Branches.{jr_z-Pushes, Pushes-mono}
use zxbasic.Backend.Operand.Unlabelled.{Unlabelled, get_opers-Unlabelled}
use zxbasic.Backend.Bits8.Arithmetic.{push_af, a, is, int_ops}
use zxbasic.Backend.Bits8.Arithmetic.Operands.{OneIs, is_0-int8, int_ops-values}
use zxbasic.Backend.Bits8.Arithmetic.Products.{Computes, AlwaysOk, call-Pushes}
use zxbasic.Backend.Bits8.Compare.Unsigned.{fetched-Pushes, truth}
use zxbasic.Backend.Bits8.Logic.{alu_h, or_ops, or8, and_ops, and8, xor_ops, xor8, inverted}

-- An integer operand is 0 exactly if its byte is, as it is for those of a byte's range.
unfoldable pub Narrow : Operand → Operand → Type 0
Narrow op1 op2 =
    (op : Operand) → (n : ℤ) → int_ops op1 op2 ≡ some (op, n) → int8 n ≡ 0 → is 0 n ≡ true

abbrev pub IsOr : ℕ → ℕ → ℕ → Type 0
IsOr w v1 v2 = (w ≡ 0) ↔ ((v1 ≡ 0) × (v2 ≡ 0))

abbrev pub IsAnd : ℕ → ℕ → ℕ → Type 0
IsAnd w v1 v2 = (w ≡ 0) ↔ ((v1 ≡ 0) ⊎ (v2 ≡ 0))

abbrev pub IsXor : ℕ → ℕ → ℕ → Type 0
IsXor w v1 v2 = (w ≡ 0) ↔ ((v1 ≡ 0) ↔ (v2 ≡ 0))

bit_or-IsOr : (x y : ℕ) → IsOr (bit_or x y) x y
bit_or-IsOr x y = (bit_or_zero x y, λ (p, q). rw (p, q) refl)

constant-IsOr : (w m v1 v2 : ℕ) → OneIs w m v1 v2 → m ≢ 0 → IsOr 1 v1 v2
constant-IsOr w m v1 v2 one h = ground arith

or_ops-Pushes :
    (p : Platform)
    → (whole : List Line) → (s : Cpu) → (op1 op2 : Operand) → (v1 v2 : ℕ) → (rest : Stack)
    → Given p s op1 op2 v1 v2 rest
    → Narrow op1 op2
    → (o : Option (Operand × ℤ)) → int_ops op1 op2 ≡ o
    → (w : ℕ) × Pushes p whole 0 (or_ops op1 op2 o) s w rest × IsOr w v1 v2
unfolding or_ops alu_h exec Runs Narrow
or_ops-Pushes p whole s op1 op2 v1 v2 rest g narrow none k = (
  bit_or v1 v2,
  (fetched-Pushes p whole _ bit_or
      (λ t.
        lines-Pushes p whole (plain (alu or_a (reg Reg8.h)) ∷ []) t _ (λ fuel code. refl) refl refl
          _ refl)
      s op1 op2 v1 v2 rest g).0,
  bit_or-IsOr v1 v2,
)
or_ops-Pushes p whole s op1 op2 v1 v2 rest g narrow (some (op, n)) k =
    let (w, e, one) = int_ops-values p s op1 op2 v1 v2 rest g op n k in
    let zero_is = narrow op n k in
    elim (Bool-cases (is 0 n)) [
      | inl z ↦ (
        w,
        rw z (
            one-Pushes p whole 0 push_af op s w w rest e (λ t a_t.
              Pushes-≡ p whole 0 push_af t _ _ t.stack _ (push_af-Pushes p whole t) a_t refl)),
        ground (arith, is_0-int8 n z),
      )
      | inr z ↦ (
        1,
        rw z (
            one-Pushes p whole 0 (ld_a (byte 1) ∷ push_af) op s w 1 rest e (λ t a_t.
              lines-Pushes p whole (ld_a (byte 1) ∷ []) t _ (λ fuel code. refl) refl refl 1 refl)),
        constant-IsOr w (int8 n) v1 v2 one (λ q. let r = narrow op n k q in cc),
      )
    ]

-- `and8` without a constant: the first value if it is 0, else the second
and_tail-Pushes :
    (p : Platform)
    → (whole : List Line) → (k : ℕ) → after_label k whole ≡ push_af
    → (t : Cpu) → t.a < 256
    → Pushes p whole 1
        (plain (alu or_a (reg a)) ∷ jr_z k ∷ ld_a (reg Reg8.h) ∷ label k ∷ push_af)
        t
        (if t.a == 0 then 0 else t.h)
        t.stack
unfolding exec Runs flags
and_tail-Pushes p whole k here t l =
    let u = record t { a = bit_or t.a t.a; f = flags (bit_or t.a t.a) 0 } in
    let same = bit_or_self t.a l in
    Runs-Pushes p whole 1 (plain (alu or_a (reg a)) ∷ []) _ t u (λ fuel code. refl) refl _ _
      (jr_z-Pushes p whole k 0 _ u _ t.stack
        (λ z. rw here (
          Pushes-≡ p whole 0 push_af u _ _ t.stack _ (push_af-Pushes p whole u) (ground arith)
            refl))
        (λ z. Pushes-mono p whole 0 1 (omega arith) _ u _ _ (
          lines-Pushes p whole (ld_a (reg Reg8.h) ∷ label k ∷ []) u _ (λ fuel code. refl) refl refl
            _ (ground arith))))

and_ops-Pushes :
    (p : Platform)
    → (s : Cpu) → (lbl : ℕ) → (op1 op2 : Operand) → (v1 v2 : ℕ) → (rest : Stack)
    → Given p s op1 op2 v1 v2 rest
    → Narrow op1 op2
    → (o : Option (Operand × ℤ)) → int_ops op1 op2 ≡ o
    → (w : ℕ) × Pushes p (and_ops lbl op1 op2 o).0 1 (and_ops lbl op1 op2 o).0 s w rest
      × IsAnd w v1 v2
unfolding and_ops exec Runs Narrow Unlabelled after_label
and_ops-Pushes p s lbl op1 op2 v1 v2 rest g narrow none k =
    let (l1, l2) = Given-lt p s op1 op2 v1 v2 rest g in
    let whole = (and_ops lbl op1 op2 none).0 in
    let tail : List Line =
      plain (alu or_a (reg a)) ∷ jr_z lbl ∷ ld_a (reg Reg8.h) ∷ label lbl ∷ push_af in
    let here : after_label lbl whole ≡ push_af =
      (get_opers-Unlabelled op1 op2).0 lbl tail ∙ ground arith in
    (
      (if v1 == 0 then 0 else v2),
      both-Pushes p whole 1 (get_opers op1 op2) tail s v1 v2 _ rest
          (Given-LoadsBoth p whole s op1 op2 v1 v2 rest g)
          (λ t a_t h_t.
            Pushes-≡ p whole 1 tail t _ _ t.stack _
              (and_tail-Pushes p whole lbl here t (omega arith)) (rw (a_t, h_t) refl) refl),
      ground arith,
    )
and_ops-Pushes p s lbl op1 op2 v1 v2 rest g narrow (some (op, n)) k =
    let (w, e, one) = int_ops-values p s op1 op2 v1 v2 rest g op n k in
    let zero_is = narrow op n k in
    let whole = (and_ops lbl op1 op2 (some (op, n))).0 in
    elim (Bool-cases (is 0 n)) [
      | inl z ↦ (
        0,
        rw z (
            Pushes-mono p _ 0 1 (omega arith) _ s 0 rest (
              one-Pushes p _ 0 (plain (alu xor_a (reg a)) ∷ push_af) op s w 0 rest e (λ t a_t.
                lines-Pushes p _ (plain (alu xor_a (reg a)) ∷ []) t _ (λ fuel code. refl) refl refl
                  0 (bit_xor_self t.a)))),
        ground (arith, is_0-int8 n z),
      )
      | inr z ↦
          let nonzero : int8 n ≢ 0 = λ q. let r = narrow op n k q in cc in
          (
            w,
            rw z (
                Pushes-mono p _ 0 1 (omega arith) _ s w rest (
                  one-Pushes p _ 0 push_af op s w w rest e (λ t a_t.
                    Pushes-≡ p _ 0 push_af t _ _ t.stack _ (push_af-Pushes p _ t) a_t refl))),
            ground arith,
          )
    ]

inverted-Pushes :
    (p : Platform)
    → (whole : List Line) → (t : Cpu) → t.a < 256
    → Pushes p whole 0 inverted t (truth (t.a == 0)) t.stack
unfolding exec Runs flags
inverted-Pushes p whole t l =
    lines-Pushes p whole (plain (alu sub (byte 1)) ∷ plain (alu sbc (reg a)) ∷ []) t _
      (λ fuel code. refl) refl refl _ (ground arith)

-- What XOR8 does
abbrev pub xor_truth : ℕ → ℕ → ℕ
xor_truth x y = if x == 0 then (if y == 0 then 0 else 255) else (if y == 0 then 255 else 0)

xor_ops-Pushes :
    (p : Platform)
    → (whole : List Line) → Computes p xor8_call AlwaysOk xor_truth
    → (s : Cpu) → (op1 op2 : Operand) → (v1 v2 : ℕ) → (rest : Stack) → Given p s op1 op2 v1 v2 rest
    → Narrow op1 op2
    → (o : Option (Operand × ℤ)) → int_ops op1 op2 ≡ o
    → (w : ℕ) × Pushes p whole 0 (xor_ops op1 op2 o) s w rest × IsXor w v1 v2
unfolding xor_ops Narrow
xor_ops-Pushes p whole c s op1 op2 v1 v2 rest g narrow none k = (
  xor_truth v1 v2,
  (fetched-Pushes p whole _ xor_truth (λ t. call-Pushes p whole xor8_call AlwaysOk xor_truth c t tt)
      s op1 op2 v1 v2 rest g).0,
  ground arith,
)
xor_ops-Pushes p whole c s op1 op2 v1 v2 rest g narrow (some (op, n)) k =
    let (w, e, one) = int_ops-values p s op1 op2 v1 v2 rest g op n k in
    let (l1, l2) = Given-lt p s op1 op2 v1 v2 rest g in
    let zero_is = narrow op n k in
    elim (Bool-cases (is 0 n)) [
      | inl z ↦ (
        w,
        rw z (
            one-Pushes p whole 0 push_af op s w w rest e (λ t a_t.
              Pushes-≡ p whole 0 push_af t _ _ t.stack _ (push_af-Pushes p whole t) a_t refl)),
        ground (arith, is_0-int8 n z),
      )
      | inr z ↦
          let nonzero : int8 n ≢ 0 = λ q. let r = narrow op n k q in cc in
          (
            truth (w == 0),
            rw z (
                one-Pushes p whole 0 inverted op s w _ rest e (λ t a_t.
                  Pushes-≡ p whole 0 inverted t _ _ t.stack _
                    (inverted-Pushes p whole t (ground arith)) (rw a_t refl) refl)),
            ground arith,
          )
    ]

-- The codes of `or8`, `and8` (which jumps once at most) and `xor8` run to their ends, take the two
-- operands (not indirect ones, and an integer is 0 exactly if its byte is) and push a value that is 0
-- exactly if, in turn, both values are 0, one of them is, and both or neither are. For the third, the
-- routine XOR8 puts 255 in A if one of A and H is 0 and the other is not, else 0, and leaves the stack
-- and the memory alone. The memory is as it was.
pub logical-Pushes :
    (p : Platform)
    → Computes p xor8_call AlwaysOk xor_truth
    → (s : Cpu) → (lbl : ℕ) → (op1 op2 : Operand) → (v1 v2 : ℕ) → (rest : Stack)
    → Given p s op1 op2 v1 v2 rest
    → Narrow op1 op2
    → ((w : ℕ) × Pushes p (or8 op1 op2) 0 (or8 op1 op2) s w rest × IsOr w v1 v2)
      × ((w : ℕ) × Pushes p (and8 lbl op1 op2).0 1 (and8 lbl op1 op2).0 s w rest × IsAnd w v1 v2)
      × ((w : ℕ) × Pushes p (xor8 op1 op2) 0 (xor8 op1 op2) s w rest × IsXor w v1 v2)
unfolding or8 and8 xor8
logical-Pushes p c s lbl op1 op2 v1 v2 rest g narrow = (
  or_ops-Pushes p (or8 op1 op2) s op1 op2 v1 v2 rest g narrow (int_ops op1 op2) refl,
  and_ops-Pushes p s lbl op1 op2 v1 v2 rest g narrow (int_ops op1 op2) refl,
  xor_ops-Pushes p (xor8 op1 op2) c s op1 op2 v1 v2 rest g narrow (int_ops op1 op2) refl,
)
