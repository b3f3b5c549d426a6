-- ===== src/Backend/Bits16/Pushes.antt =====
-- src/arch/z80/backend/_16bit.py: what code leaves behind that pushes a word as HL.
use mathlib.Core.Path.{subst}
use zxbasic.Prelude.{
  ℕ, ◌+◌, ◌*◌, ◌%◌, ◌<◌, ◌≡◌, refl, ap, ◌∙◌, Bool, true, false, List, [], ◌∷◌, ◌++◌, Option, none,
  some, if◌then◌else◌, arith, some_eq,
}
use zxbasic.Prelude.Int.{ℤ, pos, negsuc}
use zxbasic.Backend.Machine.{falls_through, Platform, Cpu, Line, exec, join, word_of}
use zxbasic.Backend.Operand.{Operand, Base, int, name, is_id}
use zxbasic.Backend.Operand.Meaning.{Stack, AllBytes, Sound, Runs, word_at}
use zxbasic.Backend.Bits16.{push_hl, get_oper16}
use zxbasic.Backend.Bits16.Word.{popped_word, through, popped_through, word_of_base, word}
use zxbasic.Backend.Bits16.Given.{get_oper16-LoadsHl, LoadsPair}

-- The code comes to its end with no jump, with the word `v` on the stack, and `rest` under it; the
-- memory is as it was.
unfoldable pub PushesWord : Platform → List Line → List Line → Cpu → ℕ → Stack → Type 0
PushesWord p whole code s v rest =
    (w : ℕ × ℕ) × (t : Cpu) × ((fuel : ℕ) → exec p whole fuel code s ≡ some (falls_through t))
    × (t.stack ≡ w ∷ rest)
    × (join w ≡ v)
    × (t.memory ≡ s.memory)

-- Lines that lead to HL, before it is pushed
pub lines-PushesWord :
    (p : Platform)
    → (whole lines : List Line) → (s t : Cpu) → Runs p whole lines s t
    → (v : ℕ) → (rest : Stack) → join (t.h, t.l) ≡ v
    → t.stack ≡ rest
    → t.memory ≡ s.memory
    → PushesWord p whole (lines ++ push_hl) s v rest
unfolding PushesWord Runs exec
lines-PushesWord p whole lines s t f v rest hl_t stack_t m =
    ((t.h, t.l), _, λ fuel. f fuel push_hl, ap (λ (r : Stack). (t.h, t.l) ∷ r) stack_t, hl_t, m)

pub Runs-PushesWord :
    (p : Platform)
    → (whole lines code : List Line) → (s t : Cpu) → Runs p whole lines s t
    → t.memory ≡ s.memory
    → (v : ℕ) → (rest : Stack) → PushesWord p whole code t v rest
    → PushesWord p whole (lines ++ code) s v rest
unfolding PushesWord Runs
Runs-PushesWord p whole lines code s t f m v rest (w, u, g, stack_u, join_u, memory_u) =
    (w, u, λ fuel. f fuel code ∙ g fuel, stack_u, join_u, memory_u ∙ m)

pub one-PushesWord :
    (p : Platform)
    → (whole code : List Line) → (op : Operand) → (s : Cpu) → (v w : ℕ) → (rest : Stack)
    → word p s.memory s.stack op ≡ some (v, rest)
    → ((t : Cpu) → join (t.h, t.l) ≡ v → PushesWord p whole code t w t.stack)
    → PushesWord p whole (get_oper16 op ++ code) s w rest
one-PushesWord p whole code op s v w rest e f =
    let (t, runs, hl_t, stack_t, memory_t, de_t) = get_oper16-LoadsHl p whole op s v rest e in
    Runs-PushesWord p whole (get_oper16 op) code s t runs memory_t w rest
      (subst (PushesWord p whole code t w) stack_t (f t hl_t))

pub pair-PushesWord :
    (p : Platform)
    → (whole lines code : List Line) → (s : Cpu) → (v1 v2 w : ℕ) → (rest : Stack)
    → LoadsPair p whole lines s v1 v2 rest
    → ((t : Cpu)
        → join (t.h, t.l) ≡ v1
        → join (t.d, t.e) ≡ v2
        → PushesWord p whole code t w t.stack)
    → PushesWord p whole (lines ++ code) s w rest
pair-PushesWord p whole lines code s v1 v2 w rest (t, runs, hl_t, de_t, stack_t, memory_t) f =
    Runs-PushesWord p whole lines code s t runs memory_t w rest
      (subst (PushesWord p whole code t w) stack_t (f t hl_t de_t))

word_at-lt : (memory : ℕ → ℕ) → ((n : ℕ) → memory n < 256) → (n : ℕ) → word_at memory n < 65536
word_at-lt memory m n = omega (arith, m n, m ((n + 1) % 65536))

pub word_of-lt : (n : ℤ) → word_of n < 65536
word_of-lt (pos n) = omega arith
word_of-lt (negsuc n) = omega arith

through-lt :
    (memory : ℕ → ℕ)
    → ((n : ℕ) → memory n < 256)
    → (indirect : Bool) → (n : ℕ) → n < 65536
    → through indirect memory n < 65536
through-lt memory m true n l = word_at-lt memory m n
through-lt memory m false n l = l

popped_word-lt :
    (stack : Stack)
    → AllBytes stack
    → (v : ℕ) → (rest : Stack) → popped_word stack ≡ some (v, rest)
    → v < 65536
popped_word-lt [] h v rest e = cc
popped_word-lt ((x, y) ∷ stack) (q, r, h) v rest e =
    let k : x * 256 + y ≡ v = ap (λ (w : ℕ × Stack). w.0) (some_eq e) in omega arith

popped_through-lt :
    (memory : ℕ → ℕ)
    → ((n : ℕ) → memory n < 256)
    → (indirect : Bool) → (o : Option (ℕ × Stack))
    → ((n : ℕ) → (r : Stack) → o ≡ some (n, r) → n < 65536)
    → (v : ℕ) → (rest : Stack) → popped_through indirect memory o ≡ some (v, rest)
    → v < 65536
popped_through-lt memory m indirect none h v rest e = cc
popped_through-lt memory m indirect (some (n, r)) h v rest e =
    subst (λ (k : ℕ). k < 65536) (ap (λ (w : ℕ × Stack). w.0) (some_eq e))
      (through-lt memory m indirect n (h n r refl))

word_of_base-lt :
    (p : Platform)
    → (s : Cpu) → Sound p s
    → (indirect immediate : Bool) → (x : Base) → (v : ℕ) → (rest : Stack)
    → word_of_base p s.memory s.stack indirect immediate x ≡ some (v, rest)
    → v < 65536
unfolding word_of_base
word_of_base-lt p s g true immediate (int n) v rest e =
    subst (λ (k : ℕ). k < 65536) (ap (λ (w : ℕ × Stack). w.0) (some_eq e))
      (word_at-lt s.memory g.memory-lt (word_of n))
word_of_base-lt p s g false immediate (int n) v rest e =
    subst (λ (k : ℕ). k < 65536) (ap (λ (w : ℕ × Stack). w.0) (some_eq e)) (word_of-lt n)
word_of_base-lt p s g indirect true (name x) v rest e =
    subst (λ (k : ℕ). k < 65536) (ap (λ (w : ℕ × Stack). w.0) (some_eq e))
      (through-lt s.memory g.memory-lt indirect (p.address x) (g.address-lt x))
word_of_base-lt p s g indirect false (name x) v rest e =
    popped_through-lt s.memory g.memory-lt indirect _
      (elim (is_id x)
        as (λ b.
          (n : ℕ)
          → (r : Stack)
          → (if b then some (word_at s.memory (p.address x), s.stack) else popped_word s.stack)
            ≡ some (n, r)
          → n < 65536) [
            | true ↦ λ n r k.
                subst (λ (j : ℕ). j < 65536) (ap (λ (w : ℕ × Stack). w.0) (some_eq k))
                  (word_at-lt s.memory g.memory-lt (p.address x))
            | false ↦ popped_word-lt s.stack g.stack-lt
          ])
      v rest e

pub word-lt :
    (p : Platform)
    → (s : Cpu) → Sound p s
    → (op : Operand) → (v : ℕ) → (rest : Stack) → word p s.memory s.stack op ≡ some (v, rest)
    → v < 65536
unfolding word
word-lt p s g op v rest e = word_of_base-lt p s g op.indirect op.immediate op.base v rest e
