-- ===== src/Backend/Operand/Fixed.antt =====
-- src/arch/z80/backend/_8bit.py and common.py: integers and identifiers leave the stack alone, so that
-- the operands of a pair can change places.
use zxbasic.Prelude.{ℕ, ◌≡◌, refl, sym, ap, ◌∙◌, Bool, true, false, List, Option, some, some_eq}
use zxbasic.Prelude.Int.{ℤ}
use zxbasic.Backend.Machine.{Platform, Cpu}
use mathlib.Core.Path.{subst}
use zxbasic.Backend.Operand.{
  as_int, starts_id, is_id, is_int, is_global, Operand, Base, int, name, int8,
}
use zxbasic.Backend.Operand.Meaning.{Stack, value_of_base, value, values}
use zxbasic.Backend.Operand.Values.{values-parts}

-- The value does not depend on the stack, and the stack stays.
abbrev pub Fixed : Platform → (ℕ → ℕ) → Operand → ℕ → Type 0
Fixed p memory op v = (stack : Stack) → value p memory stack op ≡ some (v, stack)

as_int-Fixed :
    (p : Platform)
    → (memory : ℕ → ℕ) → (indirect immediate : Bool) → (x : Base) → (n : ℤ)
    → as_int indirect immediate x ≡ some n
    → (stack : Stack) → value_of_base p memory stack indirect immediate x ≡ some (int8 n, stack)
unfolding as_int value_of_base
as_int-Fixed p memory false false (int m) n k stack =
    ap (λ (i : ℤ). some (int8 i, stack)) (some_eq k)
as_int-Fixed p memory false false (name x) n k stack = cc
as_int-Fixed p memory false true x n k stack = cc
as_int-Fixed p memory true immediate x n k stack = cc

pub is_int-Fixed :
    (p : Platform)
    → (memory : ℕ → ℕ) → (op : Operand) → (n : ℤ) → is_int op ≡ some n
    → Fixed p memory op (int8 n)
unfolding is_int value
is_int-Fixed p memory op n k stack =
    as_int-Fixed p memory op.indirect op.immediate op.base n k stack

starts_id-Fixed :
    (p : Platform)
    → (memory : ℕ → ℕ) → (indirect immediate : Bool) → (x : Base)
    → starts_id indirect immediate x ≡ true
    → (v : ℕ) × ((stack : Stack)
        → value_of_base p memory stack indirect immediate x ≡ some (v, stack))
unfolding starts_id value_of_base
starts_id-Fixed p memory false false (int m) k = cc
starts_id-Fixed p memory false false (name x) k = (memory (p.address x), λ stack. rw k refl)
starts_id-Fixed p memory false true x k = cc
starts_id-Fixed p memory true immediate x k = cc

pub is_global-Fixed :
    (p : Platform)
    → (memory : ℕ → ℕ) → (op : Operand) → is_global op ≡ true
    → (v : ℕ) × Fixed p memory op v
unfolding is_global value
is_global-Fixed p memory op k = starts_id-Fixed p memory op.indirect op.immediate op.base k

-- The values of a pair whose second operand is fixed, and in the other order
pub values_second :
    (p : Platform)
    → (s : Cpu) → (op1 op2 : Operand) → (v : ℕ) → Fixed p s.memory op2 v
    → (v1 v2 : ℕ) → (rest : Stack) → values p s op1 op2 ≡ some (v1, v2, rest)
    → (v ≡ v2) × (value p s.memory s.stack op1 ≡ some (v1, rest))
values_second p s op1 op2 v f v1 v2 rest e =
    let (between, e2, e1) = values-parts p s op1 op2 v1 v2 rest e in
    let k : ◌≡◌ {A = Option (ℕ × Stack)} (some (v, s.stack)) (some (v2, between)) =
      sym (f s.stack) ∙ e2 in
    (cc, subst (λ (st : Stack). value p s.memory st op1 ≡ some (v1, rest)) (cc) e1)

pub values_first :
    (p : Platform)
    → (s : Cpu) → (op1 op2 : Operand) → (v : ℕ) → Fixed p s.memory op1 v
    → (v1 v2 : ℕ) → (rest : Stack) → values p s op1 op2 ≡ some (v1, v2, rest)
    → (v ≡ v1) × (value p s.memory s.stack op2 ≡ some (v2, rest))
values_first p s op1 op2 v f v1 v2 rest e =
    let (between, e2, e1) = values-parts p s op1 op2 v1 v2 rest e in
    let k : ◌≡◌ {A = Option (ℕ × Stack)} (some (v, between)) (some (v1, rest)) =
      sym (f between) ∙ e1 in
    (cc, subst (λ (st : Stack). value p s.memory s.stack op2 ≡ some (v2, st)) (cc) e2)

pub values_swap :
    (p : Platform)
    → (s : Cpu) → (op1 op2 : Operand) → (v : ℕ) → Fixed p s.memory op2 v
    → (v1 v2 : ℕ) → (rest : Stack) → values p s op1 op2 ≡ some (v1, v2, rest)
    → values p s op2 op1 ≡ some (v2, v1, rest)
unfolding values
values_swap p s op1 op2 v f v1 v2 rest e =
    let (k, e1) = values_second p s op1 op2 v f v1 v2 rest e in rw (e1, f rest, k) refl

-- What the two tests say of an operand
as_int-direct :
    (indirect immediate : Bool)
    → (x : Base) → (n : ℤ) → as_int indirect immediate x ≡ some n
    → (indirect ≡ false) × (immediate ≡ false) × (x ≡ int n)
unfolding as_int
as_int-direct false false (int m) n k = (refl, refl, ap int (some_eq k))
as_int-direct false false (name x) n k = cc
as_int-direct false true x n k = cc
as_int-direct true immediate x n k = cc

pub is_int-direct :
    (op : Operand)
    → (n : ℤ) → is_int op ≡ some n
    → (op.indirect ≡ false) × (op.immediate ≡ false) × (op.base ≡ int n)
unfolding is_int
is_int-direct op n k = as_int-direct op.indirect op.immediate op.base n k

starts_id-direct :
    (indirect immediate : Bool)
    → (x : Base) → starts_id indirect immediate x ≡ true
    → (y : List ℕ) × (indirect ≡ false) × (immediate ≡ false) × (x ≡ name y) × (is_id y ≡ true)
unfolding starts_id
starts_id-direct false false (int m) k = cc
starts_id-direct false false (name x) k = (x, refl, refl, refl, k)
starts_id-direct false true x k = cc
starts_id-direct true immediate x k = cc

pub is_global-direct :
    (op : Operand)
    → is_global op ≡ true
    → (y : List ℕ) × (op.indirect ≡ false)
      × (op.immediate ≡ false)
      × (op.base ≡ name y)
      × (is_id y ≡ true)
unfolding is_global
is_global-direct op k = starts_id-direct op.indirect op.immediate op.base k
