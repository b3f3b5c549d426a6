-- ===== src/Backend/Bits8/Shift/Loops.antt =====
-- src/arch/z80/backend/_8bit.py: the codes of the shifts, for any line that does one shift of A.
use Prim.Native.Nat.{bit_or}
use zxbasic.Prelude.{replicate}
use zxbasic.Prelude.Bits.{bit_or_self}
use zxbasic.Prelude.Xor.{bit_xor_self}
use zxbasic.Prelude.{
  ℕ, zero, suc, ◌+◌, ◌-◌, ◌<◌, ◌≡◌, refl, sym, ap, ◌∙◌, ltb, List, [], ◌∷◌, ◌++◌, Option, none,
  some, arith,
}
use zxbasic.Prelude.Int.{ℤ}
use zxbasic.Backend.Machine.{
  Reg8, reg, byte, alu, ld, or_a, xor_a, plain, label, jr_z, djnz, after_label, Platform, Cpu, Line,
  exec, flags,
}
use zxbasic.Backend.Operand.{Operand, int8, ld_a, is_int, get_oper, get_opers_reversed}
use zxbasic.Backend.Operand.Meaning.{Stack, value, Runs}
use zxbasic.Backend.Operand.Values.{int8-lt}
use zxbasic.Backend.Operand.Pushes.{
  Pushes, Runs-Pushes, push_af-Pushes, Pushes-≡, lines-Pushes, if_elim,
}
use zxbasic.Backend.Operand.Fetched.{
  Given, Given-lt, one-Pushes, both-Pushes, Given-LoadsBoth_reversed, int_first, int_second,
}
use zxbasic.Backend.Operand.Branches.{
  jr_z-Pushes, djnz-Pushes, counted_down, label-Pushes, Pushes-mono,
}
use zxbasic.Backend.Operand.Unlabelled.{Unlabelled, get_oper-Unlabelled, get_opers-Unlabelled}
use zxbasic.Backend.Bits8.Arithmetic.{push_af, a, is}
use zxbasic.Backend.Bits8.Arithmetic.Operands.{is_0-int8}
use zxbasic.Backend.Bits8.Shift.{shift_loop, shift_int, shift_names, shift_zero, shift_ops}

abbrev pub iterate : (ℕ → ℕ) → ℕ → ℕ → ℕ
iterate f zero x = x
iterate f (suc n) x = iterate f n (f x)

-- The line does `f` to A, has no label, and leaves B, the stack and the memory alone.
pub record OneShift (p : Platform) (shift : Line) (f : ℕ → ℕ) : Type 0 where
  pub effect : (t : Cpu) → Cpu
  pub runs : (whole : List Line) → (t : Cpu) → Runs p whole (shift ∷ []) t (effect t)
  pub in_a : (t : Cpu) → (effect t).a ≡ f t.a
  pub b_kept : (t : Cpu) → (effect t).b ≡ t.b
  pub stack_kept : (t : Cpu) → (effect t).stack ≡ t.stack
  pub memory_kept : (t : Cpu) → (effect t).memory ≡ t.memory
  pub unlabelled : Unlabelled (shift ∷ [])
  pub zero_kept : f 0 ≡ 0

iterate_zero : (f : ℕ → ℕ) → f 0 ≡ 0 → (n : ℕ) → iterate f n 0 ≡ 0
iterate_zero f e zero = refl
iterate_zero f e (suc n) = ap (iterate f n) e ∙ iterate_zero f e n

module _ (p : Platform) (shift : Line) (f : ℕ → ℕ) (one : OneShift p shift f) where
  unrolled-Pushes :
      (whole : List Line)
      → (n : ℕ) → (t : Cpu)
      → Pushes p whole 0 (replicate n shift ++ push_af) t (iterate f n t.a) t.stack
  unrolled-Pushes whole zero t = push_af-Pushes p whole t
  unrolled-Pushes whole (suc n) t =
      let u = one.effect t in
      Runs-Pushes p whole 0 (shift ∷ []) (replicate n shift ++ push_af) t u (one.runs whole t)
        (one.memory_kept t) _ _
        (Pushes-≡ p whole 0 _ u _ _ _ _ (unrolled-Pushes whole n u) (ap (iterate f n) (one.in_a t))
          (one.stack_kept t))

  loop-Pushes :
      (whole tail : List Line)
      → (k : ℕ) → after_label k whole ≡ shift ∷ djnz k ∷ tail
      → ((u : Cpu) → Pushes p whole 0 tail u u.a u.stack)
      → (m : ℕ) → m < 255
      → (t : Cpu) → t.b ≡ suc m
      → Pushes p whole (suc m) (shift ∷ djnz k ∷ tail) t (iterate f (suc m) t.a) t.stack
  loop-Pushes whole tail k here end zero l t e =
      let u = one.effect t in
      let b_u : u.b ≡ 1 = one.b_kept t ∙ e in
      Runs-Pushes p whole 1 (shift ∷ []) (djnz k ∷ tail) t u (one.runs whole t) (one.memory_kept t)
        _ _
        (djnz-Pushes p whole k 0 tail u _ t.stack (λ z. absurd (ground arith))
          (λ z. Pushes-mono p whole 0 1 (omega arith) tail (counted_down u) _ _ (
            Pushes-≡ p whole 0 tail (counted_down u) _ _ _ _ (end (counted_down u)) (one.in_a t)
              (one.stack_kept t))))
  loop-Pushes whole tail k here end (suc m) l t e =
      let u = one.effect t in
      let b_u : u.b ≡ suc (suc m) = one.b_kept t ∙ e in
      let again =
        loop-Pushes whole tail k here end m (omega arith) (counted_down u) (omega arith) in
      Runs-Pushes p whole (suc (suc m)) (shift ∷ []) (djnz k ∷ tail) t u (one.runs whole t)
        (one.memory_kept t) _ _
        (djnz-Pushes p whole k (suc m) tail u _ t.stack
          (λ z. rw here (
            Pushes-≡ p whole (suc m) _ (counted_down u) _ _ _ _ again
              (ap (iterate f (suc m)) (one.in_a t)) (one.stack_kept t)))
          (λ z. absurd (ground arith)))

  -- By a constant, after the operand: unrolled, or a loop that B counts
  shift_int-Pushes :
      (s : Cpu)
      → (op : Operand) → (most lbl n v : ℕ) → (rest : Stack) → 0 < most
      → value p s.memory s.stack op ≡ some (v, rest)
      → n < 256
      → let whole = get_oper op ++ (shift_int shift most lbl n).0 in
        Pushes p whole 256 whole s (iterate f n v) rest
  unfolding shift_int exec Runs Unlabelled after_label
  shift_int-Pushes s op most lbl zero v rest pos_most e l =
      if_elim
        (λ (c : List Line × ℕ). Pushes p (get_oper op ++ c.0) 256 (get_oper op ++ c.0) s v rest)
        (ltb 0 most) _ _
        (λ k. Pushes-mono p _ 0 256 (omega arith) _ s _ _ (
          one-Pushes p _ 0 push_af op s v _ rest e
            (λ t a_t. Pushes-≡ p _ 0 push_af t _ _ t.stack _ (push_af-Pushes p _ t) a_t refl)))
        (λ k. absurd (ground arith))
  shift_int-Pushes s op most lbl (suc m) v rest pos_most e l =
      if_elim
        (λ (c : List Line × ℕ).
          Pushes p (get_oper op ++ c.0) 256 (get_oper op ++ c.0) s (iterate f (suc m) v) rest)
        (ltb (suc m) most) _ _
        (λ k. Pushes-mono p _ 0 256 (omega arith) _ s _ _ (
          one-Pushes p _ 0 (replicate (suc m) shift ++ push_af) op s v _ rest e (λ t a_t.
            Pushes-≡ p _ 0 _ t _ _ t.stack _ (unrolled-Pushes _ (suc m) t)
              (ap (iterate f (suc m)) a_t) refl)))
        (λ k.
          let lines : List Line =
            plain (ld (reg Reg8.b) (byte (suc m))) ∷ shift_loop shift lbl push_af in
          let whole : List Line = get_oper op ++ lines in
          let here : after_label lbl whole ≡ shift ∷ djnz lbl ∷ push_af =
            get_oper-Unlabelled op lbl lines ∙ ground arith in
          Pushes-mono p whole (suc m) 256 (omega arith) whole s _ _ (
            one-Pushes p whole (suc m) lines op s v _ rest e (λ t a_t.
              let u = record t { b = suc m } in
              Runs-Pushes p whole (suc m) (plain (ld (reg Reg8.b) (byte (suc m))) ∷ [])
                (shift_loop shift lbl push_af) t u (λ fuel code. refl) refl _ _
                (label-Pushes p whole lbl (suc m) _ u _ _ (
                  Pushes-≡ p whole (suc m) _ u _ _ _ _
                    (loop-Pushes whole push_af lbl here (λ w. push_af-Pushes p whole w) m
                      (omega arith) u refl)
                    (ap (iterate f (suc m)) a_t) refl)))))

  -- By an operand that is fetched: B is 0 or counts the loop.
  names_tail-Pushes :
      (whole : List Line)
      → (lbl : ℕ) → after_label lbl whole ≡ shift ∷ djnz lbl ∷ label (lbl + 1) ∷ push_af
      → after_label (lbl + 1) whole ≡ push_af
      → (t : Cpu) → t.a < 256
      → Pushes p whole 256
          (plain (alu or_a (reg a))
            ∷ plain (ld (reg Reg8.b) (reg a))
            ∷ ld_a (reg Reg8.h)
            ∷ jr_z (lbl + 1)
            ∷ shift_loop shift lbl (label (lbl + 1) ∷ push_af))
          t
          (iterate f t.a t.h)
          t.stack
  unfolding exec Runs flags
  names_tail-Pushes whole lbl here out t l =
      let same = bit_or_self t.a l in
      let u = record t { a = t.h; b = bit_or t.a t.a; f = flags (bit_or t.a t.a) 0 } in
      Runs-Pushes p whole 256
        (plain (alu or_a (reg a)) ∷ plain (ld (reg Reg8.b) (reg a)) ∷ ld_a (reg Reg8.h) ∷ []) _ t u
        (λ fuel code. refl) refl _ _
        (jr_z-Pushes p whole (lbl + 1) 255 _ u _ t.stack
          (λ z.
            let none_left : t.a ≡ 0 = ground arith in
            rw out (
              Pushes-mono p whole 0 255 (omega arith) push_af u _ _ (
                Pushes-≡ p whole 0 push_af u _ _ _ _ (push_af-Pushes p whole u)
                  (ap (λ (n : ℕ). iterate f n t.h) (sym none_left)) refl)))
          (λ z.
            let some_left : t.a ≡ suc (t.a - 1) = ground arith in
            label-Pushes p whole lbl 256 _ u _ _ (
              Pushes-mono p whole (suc (t.a - 1)) 256 (omega arith) _ u _ _ (
                Pushes-≡ p whole (suc (t.a - 1)) _ u _ _ _ _
                  (loop-Pushes whole (label (lbl + 1) ∷ push_af) lbl here
                    (λ w. label-Pushes p whole (lbl + 1) 0 push_af w _ _ (push_af-Pushes p whole w))
                    (t.a - 1) (omega arith) u (omega arith))
                  (ap (λ (n : ℕ). iterate f n t.h) (sym some_left)) refl))))

  shift_names-Pushes :
      (s : Cpu)
      → (op1 op2 : Operand) → (lbl v1 v2 : ℕ) → (rest : Stack) → Given p s op1 op2 v1 v2 rest
      → let whole = (shift_names shift lbl op1 op2).0 in
        Pushes p whole 256 whole s (iterate f v2 v1) rest
  unfolding shift_names Unlabelled after_label
  shift_names-Pushes s op1 op2 lbl v1 v2 rest g =
      let (l1, l2) = Given-lt p s op1 op2 v1 v2 rest g in
      let tail : List Line =
        plain (alu or_a (reg a))
        ∷ plain (ld (reg Reg8.b) (reg a))
        ∷ ld_a (reg Reg8.h)
        ∷ jr_z (lbl + 1)
        ∷ shift_loop shift lbl (label (lbl + 1) ∷ push_af) in
      let whole = (shift_names shift lbl op1 op2).0 in
      let skip = (get_opers-Unlabelled op1 op2).1 in
      let here : after_label lbl whole ≡ shift ∷ djnz lbl ∷ label (lbl + 1) ∷ push_af =
        skip lbl tail ∙ ground arith in
      let out : after_label (lbl + 1) whole ≡ push_af =
        skip (lbl + 1) tail
        ∙ ground (arith, one.unlabelled (lbl + 1) (djnz lbl ∷ label (lbl + 1) ∷ push_af)) in
      both-Pushes p whole 256 (get_opers_reversed op1 op2) tail s v2 v1 _ rest
        (Given-LoadsBoth_reversed p whole s op1 op2 v1 v2 rest g)
        (λ t a_t h_t.
          Pushes-≡ p whole 256 tail t _ _ t.stack _
            (names_tail-Pushes whole lbl here out t (omega arith)) (rw (a_t, h_t) refl) refl)

  shift_zero-Pushes :
      (s : Cpu)
      → (op1 op2 : Operand) → (lbl v1 v2 : ℕ) → (rest : Stack) → Given p s op1 op2 v1 v2 rest
      → (o : Option ℤ) → is_int op1 ≡ o
      → let whole = (shift_zero shift lbl op1 op2 o).0 in
        Pushes p whole 256 whole s (iterate f v2 v1) rest
  unfolding shift_zero exec Runs
  shift_zero-Pushes s op1 op2 lbl v1 v2 rest g none k =
      shift_names-Pushes s op1 op2 lbl v1 v2 rest g
  shift_zero-Pushes s op1 op2 lbl v1 v2 rest g (some n) k =
      let (i, e) = int_first p s op1 op2 v1 v2 rest n k g in
      if_elim (λ (c : List Line × ℕ). Pushes p c.0 256 c.0 s (iterate f v2 v1) rest) (is 0 n) _ _
        (λ z. Pushes-mono p _ 0 256 (omega arith) _ s _ _ (
          one-Pushes p _ 0 (plain (alu xor_a (reg a)) ∷ push_af) op2 s v2 _ rest e (λ t a_t.
            lines-Pushes p _ (plain (alu xor_a (reg a)) ∷ []) t _ (λ fuel code. refl) refl refl _
              (bit_xor_self t.a
                ∙ sym (
                    ap (iterate f v2) (sym i ∙ is_0-int8 n z) ∙ iterate_zero f one.zero_kept v2)))))
        (λ z. shift_names-Pushes s op1 op2 lbl v1 v2 rest g)

  pub shift_ops-Pushes :
      (s : Cpu)
      → (op1 op2 : Operand) → (most lbl v1 v2 : ℕ) → (rest : Stack) → 0 < most
      → Given p s op1 op2 v1 v2 rest
      → (o : Option ℤ) → is_int op2 ≡ o
      → let whole = (shift_ops shift most lbl op1 op2 o).0 in
        Pushes p whole 256 whole s (iterate f v2 v1) rest
  unfolding shift_ops
  shift_ops-Pushes s op1 op2 most lbl v1 v2 rest pos_most g none k =
      shift_zero-Pushes s op1 op2 lbl v1 v2 rest g (is_int op1) refl
  shift_ops-Pushes s op1 op2 most lbl v1 v2 rest pos_most g (some n) k =
      let (i, e) = int_second p s op1 op2 v1 v2 rest n k g in
      Pushes-≡ p _ 256 _ s _ _ rest _
        (shift_int-Pushes s op1 most lbl (int8 n) v1 rest pos_most e (int8-lt n))
        (ap (λ (m : ℕ). iterate f m v1) i) refl
