-- ===== src/Backend/Bits8/Arithmetic/Operands.antt =====
-- src/arch/z80/backend/_8bit.py: the operands of the arithmetic operations, in either order.
use mathlib.Core.Path.{subst}
use zxbasic.Prelude.{
  ℕ, ◌≡◌, refl, sym, ap, ◌∙◌, true, List, ◌++◌, Option, none, some, if◌then◌else◌, arith, some_eq,
  ◌⊎◌, inl, inr,
}
use zxbasic.Prelude.Int.{ℤ, pos, negsuc}
use zxbasic.Backend.Machine.{Platform, Cpu, Line}
use zxbasic.Backend.Operand.{Operand, int8, is_int, is_global, get_opers}
use zxbasic.Backend.Operand.Meaning.{Stack, value}
use zxbasic.Backend.Operand.FetchH.{LoadsBoth}
use zxbasic.Backend.Operand.Pushes.{Pushes, if_elim}
use zxbasic.Backend.Operand.Fetched.{
  Given, both-Pushes, Given-LoadsBoth, Given-LoadsBoth_reversed, Given-swap, int_first, int_second,
}
use zxbasic.Backend.Bits8.Arithmetic.{int_ops, int_ops_of, is, ordered}

pub is_0-int8 : (n : ℤ) → is 0 n ≡ true → int8 n ≡ 0
unfolding int8
is_0-int8 (pos n) k = ground arith
is_0-int8 (negsuc n) k = ground arith

-- The integer of `_int_ops` and the operand that is left have the two values, in some order.
abbrev pub OneIs : ℕ → ℕ → ℕ → ℕ → Type 0
OneIs w m v1 v2 = ((w ≡ v1) × (m ≡ v2)) ⊎ ((w ≡ v2) × (m ≡ v1))

int_ops_of-values :
    (p : Platform)
    → (s : Cpu) → (op1 op2 : Operand) → (v1 v2 : ℕ) → (rest : Stack) → Given p s op1 op2 v1 v2 rest
    → (o1 o2 : Option ℤ) → is_int op1 ≡ o1
    → is_int op2 ≡ o2
    → (op : Operand) → (n : ℤ) → int_ops_of op1 op2 o1 o2 ≡ some (op, n)
    → (w : ℕ) × (value p s.memory s.stack op ≡ some (w, rest)) × OneIs w (int8 n) v1 v2
int_ops_of-values p s op1 op2 v1 v2 rest g (some m) o2 e1 e2 op n k =
    let (i, j) = int_first p s op1 op2 v1 v2 rest m e1 g in
    let q : op2 ≡ op = ap (λ (x : Operand × ℤ). x.0) (some_eq k) in
    (
      v2,
      subst (λ (x : Operand). value p s.memory s.stack x ≡ some (v2, rest)) q j,
      inr (refl, sym (ap (λ (x : Operand × ℤ). int8 x.1) (some_eq k)) ∙ i),
    )
int_ops_of-values p s op1 op2 v1 v2 rest g none (some m) e1 e2 op n k =
    let (i, j) = int_second p s op1 op2 v1 v2 rest m e2 g in
    let q : op1 ≡ op = ap (λ (x : Operand × ℤ). x.0) (some_eq k) in
    (
      v1,
      subst (λ (x : Operand). value p s.memory s.stack x ≡ some (v1, rest)) q j,
      inl (refl, sym (ap (λ (x : Operand × ℤ). int8 x.1) (some_eq k)) ∙ i),
    )
int_ops_of-values p s op1 op2 v1 v2 rest g none none e1 e2 op n k = cc

pub int_ops-values :
    (p : Platform)
    → (s : Cpu) → (op1 op2 : Operand) → (v1 v2 : ℕ) → (rest : Stack) → Given p s op1 op2 v1 v2 rest
    → (op : Operand) → (n : ℤ) → int_ops op1 op2 ≡ some (op, n)
    → (w : ℕ) × (value p s.memory s.stack op ≡ some (w, rest)) × OneIs w (int8 n) v1 v2
unfolding int_ops
int_ops-values p s op1 op2 v1 v2 rest g op n k =
    int_ops_of-values p s op1 op2 v1 v2 rest g (is_int op1) (is_int op2) refl refl op n k

pub both_orders :
    (p : Platform)
    → (whole : List Line) → (s : Cpu) → (op1 op2 : Operand) → (v1 v2 : ℕ) → (rest : Stack)
    → Given p s op1 op2 v1 v2 rest
    → (code : List Line) → (w : ℕ)
    → ((t : Cpu) → t.a ≡ v1 → t.h ≡ v2 → Pushes p whole 0 code t w t.stack)
    → ((t : Cpu) → t.a ≡ v2 → t.h ≡ v1 → Pushes p whole 0 code t w t.stack)
    → Pushes p whole 0
        ((if is_global op2 then get_opers op2 op1 else get_opers op1 op2) ++ code)
        s
        w
        rest
both_orders p whole s op1 op2 v1 v2 rest g code w f h =
    if_elim (λ (lines : List Line). Pushes p whole 0 (lines ++ code) s w rest) (is_global op2) _ _
      (λ k.
        both-Pushes p whole 0 (get_opers op2 op1) code s v2 v1 w rest
          (Given-LoadsBoth p whole s op2 op1 v2 v1 rest (Given-swap p s op1 op2 v1 v2 rest k g)) h)
      (λ k.
        both-Pushes p whole 0 (get_opers op1 op2) code s v1 v2 w rest
          (Given-LoadsBoth p whole s op1 op2 v1 v2 rest g) f)

-- `ordered` has the first operand in A and the second in H, whichever it fetches first.
pub ordered_lem :
    (p : Platform)
    → (whole : List Line) → (s : Cpu) → (op1 op2 : Operand) → (v1 v2 : ℕ) → (rest : Stack)
    → Given p s op1 op2 v1 v2 rest
    → LoadsBoth p whole (ordered op1 op2) s v1 v2 rest
unfolding ordered
ordered_lem p whole s op1 op2 v1 v2 rest g =
    if_elim (λ (lines : List Line). LoadsBoth p whole lines s v1 v2 rest) (is_global op2) _ _
      (λ k.
        Given-LoadsBoth_reversed p whole s op2 op1 v2 v1 rest
          (Given-swap p s op1 op2 v1 v2 rest k g))
      (λ k. Given-LoadsBoth p whole s op1 op2 v1 v2 rest g)

-- Which operand is the integer of `_int_ops`
int_ops_of-cases :
    (op1 op2 : Operand)
    → (o1 o2 : Option ℤ) → (op : Operand) → (n : ℤ) → int_ops_of op1 op2 o1 o2 ≡ some (op, n)
    → ((o1 ≡ some n) × (op2 ≡ op)) ⊎ ((o2 ≡ some n) × (op1 ≡ op))
int_ops_of-cases op1 op2 (some m) o2 op n k =
    inl (ap (λ (x : Operand × ℤ). some x.1) (some_eq k), ap (λ (x : Operand × ℤ). x.0) (some_eq k))
int_ops_of-cases op1 op2 none (some m) op n k =
    inr (ap (λ (x : Operand × ℤ). some x.1) (some_eq k), ap (λ (x : Operand × ℤ). x.0) (some_eq k))
int_ops_of-cases op1 op2 none none op n k = cc

pub int_ops-cases :
    (op1 op2 : Operand)
    → (op : Operand) → (n : ℤ) → int_ops op1 op2 ≡ some (op, n)
    → ((is_int op1 ≡ some n) × (op2 ≡ op)) ⊎ ((is_int op2 ≡ some n) × (op1 ≡ op))
unfolding int_ops
int_ops-cases op1 op2 op n k = int_ops_of-cases op1 op2 (is_int op1) (is_int op2) op n k
