-- ===== src/Backend/Operand/Values.antt =====
-- src/arch/z80/backend/_8bit.py: the values of operands are bytes, and a pair's values are those of its operands.
use mathlib.Core.Path.{subst}
use zxbasic.Prelude.{
  ℕ, ◌%◌, ◌<◌, ◌≡◌, refl, ap, ◌∙◌, Bool, true, false, [], ◌∷◌, Option, none, some, if◌then◌else◌,
  arith,
}
use zxbasic.Prelude.Int.{ℤ, pos, negsuc}
use zxbasic.Backend.Machine.{Platform, Cpu, word_of, join}
use zxbasic.Backend.Operand.{Operand, Base, int, name, is_id, int8}
use zxbasic.Backend.Operand.Meaning.{
  Stack, popped_byte, popped_pointer, word_at, value_of_base, value, AllBytes, second_value,
  values_from, values,
}

pub int8-lt : (n : ℤ) → int8 n < 256
unfolding int8
int8-lt (pos n) = omega arith
int8-lt (negsuc n) = omega arith

popped_byte-lt :
    (stack : Stack)
    → AllBytes stack
    → (v : ℕ) → (rest : Stack) → popped_byte stack ≡ some (v, rest)
    → (v < 256) × AllBytes rest
popped_byte-lt [] h v rest e = cc
popped_byte-lt ((x, y) ∷ stack) (p, q, h) v rest e =
    let k : stack ≡ rest = cc in (subst (λ (n : ℕ). n < 256) (cc) p, subst AllBytes k h)

popped_pointer-lt :
    (memory : ℕ → ℕ)
    → ((n : ℕ) → memory n < 256)
    → (stack : Stack) → AllBytes stack
    → (v : ℕ) → (rest : Stack) → popped_pointer memory stack ≡ some (v, rest)
    → (v < 256) × AllBytes rest
popped_pointer-lt memory m [] h v rest e = cc
popped_pointer-lt memory m ((x, y) ∷ stack) (p, q, h) v rest e =
    let k : stack ≡ rest = cc in
    (subst (λ (n : ℕ). n < 256) (cc) (m (join (x, y))), subst AllBytes k h)

known-lt :
    (stack : Stack)
    → AllBytes stack
    → (n : ℕ) → n < 256
    → (v : ℕ) → (rest : Stack) → ◌≡◌ {A = Option (ℕ × Stack)} (some (n, stack)) (some (v, rest))
    → (v < 256) × AllBytes rest
known-lt stack h n b v rest e =
    let k : stack ≡ rest = cc in (subst (λ (m : ℕ). m < 256) (cc) b, subst AllBytes k h)

value_of_base-lt :
    (p : Platform)
    → (memory : ℕ → ℕ) → ((n : ℕ) → memory n < 256)
    → (stack : Stack) → AllBytes stack
    → (indirect immediate : Bool) → (x : Base) → (v : ℕ) → (rest : Stack)
    → value_of_base p memory stack indirect immediate x ≡ some (v, rest)
    → (v < 256) × AllBytes rest
unfolding value_of_base
value_of_base-lt p memory m stack h true immediate (int n) v rest e =
    known-lt stack h (memory (word_of n)) (m (word_of n)) v rest e
value_of_base-lt p memory m stack h false immediate (int n) v rest e =
    known-lt stack h (int8 n) (int8-lt n) v rest e
value_of_base-lt p memory m stack h true true (name x) v rest e =
    known-lt stack h (memory (p.address x)) (m (p.address x)) v rest e
value_of_base-lt p memory m stack h false true (name x) v rest e =
    known-lt stack h (p.address x % 256) (omega arith) v rest e
value_of_base-lt p memory m stack h true false (name x) v rest e =
    elim (is_id x)
        as (λ b.
          (if b
              then some (memory (word_at memory (p.address x)), stack)
              else popped_pointer memory stack)
            ≡ some (v, rest)
          → (v < 256) × AllBytes rest) [
            | true ↦
                known-lt stack h (memory (word_at memory (p.address x)))
                  (m (word_at memory (p.address x))) v rest
            | false ↦ popped_pointer-lt memory m stack h v rest
          ]
      e
value_of_base-lt p memory m stack h false false (name x) v rest e =
    elim (is_id x)
        as (λ b.
          (if b then some (memory (p.address x), stack) else popped_byte stack) ≡ some (v, rest)
          → (v < 256) × AllBytes rest) [
            | true ↦ known-lt stack h (memory (p.address x)) (m (p.address x)) v rest
            | false ↦ popped_byte-lt stack h v rest
          ]
      e

pub value-lt :
    (p : Platform)
    → (memory : ℕ → ℕ) → ((n : ℕ) → memory n < 256)
    → (stack : Stack) → AllBytes stack
    → (op : Operand) → (v : ℕ) → (rest : Stack) → value p memory stack op ≡ some (v, rest)
    → (v < 256) × AllBytes rest
unfolding value
value-lt p memory m stack h op v rest e =
    value_of_base-lt p memory m stack h op.indirect op.immediate op.base v rest e

second_value-parts :
    (p : Platform)
    → (memory : ℕ → ℕ) → (op1 : Operand) → (between : Stack) → (v2 : ℕ) → (o : Option (ℕ × Stack))
    → value p memory between op1 ≡ o
    → (v1 w2 : ℕ) → (rest : Stack) → second_value v2 o ≡ some (v1, w2, rest)
    → (v2 ≡ w2) × (value p memory between op1 ≡ some (v1, rest))
second_value-parts p memory op1 between v2 none k v1 w2 rest e = cc
second_value-parts p memory op1 between v2 (some (v, r)) k v1 w2 rest e = (cc, cc)

values_from-parts :
    (p : Platform)
    → (s : Cpu) → (op1 op2 : Operand) → (o : Option (ℕ × Stack)) → value p s.memory s.stack op2 ≡ o
    → (v1 v2 : ℕ) → (rest : Stack) → values_from p s.memory op1 o ≡ some (v1, v2, rest)
    → (between : Stack) × (value p s.memory s.stack op2 ≡ some (v2, between))
      × (value p s.memory between op1 ≡ some (v1, rest))
values_from-parts p s op1 op2 none k v1 v2 rest e = cc
values_from-parts p s op1 op2 (some (v, between)) k v1 v2 rest e =
    let (p2, p1) =
      second_value-parts p s.memory op1 between v (value p s.memory between op1) refl v1 v2 rest
        e in
    (between, k ∙ ap (λ (n : ℕ). some (n, between)) p2, p1)

pub values-parts :
    (p : Platform)
    → (s : Cpu) → (op1 op2 : Operand) → (v1 v2 : ℕ) → (rest : Stack)
    → values p s op1 op2 ≡ some (v1, v2, rest)
    → (between : Stack) × (value p s.memory s.stack op2 ≡ some (v2, between))
      × (value p s.memory between op1 ≡ some (v1, rest))
unfolding values
values-parts p s op1 op2 v1 v2 rest e =
    values_from-parts p s op1 op2 (value p s.memory s.stack op2) refl v1 v2 rest e
