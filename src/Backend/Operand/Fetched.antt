-- ===== src/Backend/Operand/Fetched.antt =====
-- src/arch/z80/backend/_8bit.py: code behind `get_oper`, with the operands in A and H.
use zxbasic.Prelude.{ℕ, ◌<◌, ◌≡◌, true, false, List, ◌++◌, some}
use zxbasic.Prelude.Int.{ℤ}
use zxbasic.Backend.Machine.{Platform, Cpu, Line}
use mathlib.Core.Path.{subst}
use zxbasic.Backend.Operand.{
  Operand, int8, is_int, is_global, get_oper, get_opers, get_opers_reversed,
}
use zxbasic.Backend.Operand.Meaning.{Stack, Sound, value, values}
use zxbasic.Backend.Operand.Values.{value-lt, values-parts}
use zxbasic.Backend.Operand.Fixed.{
  is_int-Fixed, is_global-Fixed, values_first, values_second, values_swap,
}
use zxbasic.Backend.Operand.FetchH.{
  LoadsBoth, get_oper-LoadsA, get_opers-lem, get_opers_reversed-lem,
}
use zxbasic.Backend.Operand.Pushes.{Pushes, Runs-Pushes}

-- Two operands that are not indirect, with their values, and the stack under them
pub record Given (p : Platform) (s : Cpu) (op1 op2 : Operand) (v1 v2 : ℕ) (rest : Stack)
    : Type 0 where
  pub direct1 : op1.indirect ≡ false
  pub direct2 : op2.indirect ≡ false
  pub sound : Sound p s
  pub both : values p s op1 op2 ≡ some (v1, v2, rest)

pub Given-lt :
    (p : Platform)
    → (s : Cpu) → (op1 op2 : Operand) → (v1 v2 : ℕ) → (rest : Stack) → Given p s op1 op2 v1 v2 rest
    → (v1 < 256) × (v2 < 256)
Given-lt p s op1 op2 v1 v2 rest g =
    let (between, e2, e1) = values-parts p s op1 op2 v1 v2 rest g.both in
    let (lt2, bytes) =
      value-lt p s.memory g.sound.memory-lt s.stack g.sound.stack-lt op2 v2 between e2 in
    let (lt1, rest_bytes) = value-lt p s.memory g.sound.memory-lt between bytes op1 v1 rest e1 in
    (lt1, lt2)

pub one-Pushes :
    (p : Platform)
    → (whole : List Line) → (n : ℕ) → (code : List Line) → (op : Operand) → (s : Cpu) → (v w : ℕ)
    → (rest : Stack) → value p s.memory s.stack op ≡ some (v, rest)
    → ((t : Cpu) → t.a ≡ v → Pushes p whole n code t w t.stack)
    → Pushes p whole n (get_oper op ++ code) s w rest
one-Pushes p whole n code op s v w rest e f =
    let (t, runs, a_t, stack_t, memory_t, k) = get_oper-LoadsA p whole op s v rest e in
    Runs-Pushes p whole n (get_oper op) code s t runs memory_t w rest
      (subst (Pushes p whole n code t w) stack_t (f t a_t))

pub both-Pushes :
    (p : Platform)
    → (whole : List Line) → (n : ℕ) → (lines code : List Line) → (s : Cpu) → (v1 v2 w : ℕ)
    → (rest : Stack) → LoadsBoth p whole lines s v1 v2 rest
    → ((t : Cpu) → t.a ≡ v1 → t.h ≡ v2 → Pushes p whole n code t w t.stack)
    → Pushes p whole n (lines ++ code) s w rest
both-Pushes p whole n lines code s v1 v2 w rest (t, runs, a_t, h_t, stack_t, memory_t) f =
    Runs-Pushes p whole n lines code s t runs memory_t w rest
      (subst (Pushes p whole n code t w) stack_t (f t a_t h_t))

pub Given-LoadsBoth :
    (p : Platform)
    → (whole : List Line) → (s : Cpu) → (op1 op2 : Operand) → (v1 v2 : ℕ) → (rest : Stack)
    → Given p s op1 op2 v1 v2 rest
    → LoadsBoth p whole (get_opers op1 op2) s v1 v2 rest
Given-LoadsBoth p whole s op1 op2 v1 v2 rest g =
    get_opers-lem p whole op1 op2 g.direct1 g.direct2 s g.sound v1 v2 rest g.both

pub Given-LoadsBoth_reversed :
    (p : Platform)
    → (whole : List Line) → (s : Cpu) → (op1 op2 : Operand) → (v1 v2 : ℕ) → (rest : Stack)
    → Given p s op1 op2 v1 v2 rest
    → LoadsBoth p whole (get_opers_reversed op1 op2) s v2 v1 rest
Given-LoadsBoth_reversed p whole s op1 op2 v1 v2 rest g =
    get_opers_reversed-lem p whole op1 op2 g.direct1 g.direct2 s g.sound v1 v2 rest g.both

-- Operands of which the second leaves the stack alone can change places.
pub Given-swap :
    (p : Platform)
    → (s : Cpu) → (op1 op2 : Operand) → (v1 v2 : ℕ) → (rest : Stack) → is_global op2 ≡ true
    → Given p s op1 op2 v1 v2 rest
    → Given p s op2 op1 v2 v1 rest
Given-swap p s op1 op2 v1 v2 rest k g =
    let (v, f) = is_global-Fixed p s.memory op2 k in
    record {
      direct1 = g.direct2;
      direct2 = g.direct1;
      sound = g.sound;
      both = values_swap p s op1 op2 v f v1 v2 rest g.both;
    }

-- A pair with an integer: the other operand's value, and which of the two it is
pub int_second :
    (p : Platform)
    → (s : Cpu) → (op1 op2 : Operand) → (v1 v2 : ℕ) → (rest : Stack) → (n : ℤ) → is_int op2 ≡ some n
    → Given p s op1 op2 v1 v2 rest
    → (int8 n ≡ v2) × (value p s.memory s.stack op1 ≡ some (v1, rest))
int_second p s op1 op2 v1 v2 rest n k g =
    values_second p s op1 op2 (int8 n) (is_int-Fixed p s.memory op2 n k) v1 v2 rest g.both

pub int_first :
    (p : Platform)
    → (s : Cpu) → (op1 op2 : Operand) → (v1 v2 : ℕ) → (rest : Stack) → (n : ℤ) → is_int op1 ≡ some n
    → Given p s op1 op2 v1 v2 rest
    → (int8 n ≡ v1) × (value p s.memory s.stack op2 ≡ some (v2, rest))
int_first p s op1 op2 v1 v2 rest n k g =
    values_first p s op1 op2 (int8 n) (is_int-Fixed p s.memory op1 n k) v1 v2 rest g.both
