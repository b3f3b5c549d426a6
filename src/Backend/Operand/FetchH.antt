-- ===== src/Backend/Operand/FetchH.antt =====
-- src/arch/z80/backend/_8bit.py: `get_oper` brings the second operand into H, and both of a pair.
use zxbasic.Prelude.{
  ℕ, ◌<◌, ◌≡◌, refl, ap, ◌∙◌, Bool, true, false, not, List, [], ◌∷◌, ◌++◌, some, not, if◌then◌else◌,
  arith,
}
use zxbasic.Backend.Machine.{
  Reg16, bc, hl, set_pair, ld_word, pop, plain, Platform, Cpu, next, minus_one, symbol_minus_one,
  exec, Line,
}
use zxbasic.Backend.Operand.{
  Operand, Base, int, name, is_id, fetch_a, fetch_h, get_oper, get_opers, get_opers_reversed,
}
use zxbasic.Backend.Operand.Meaning.{
  Stack, popped_byte, value_of_base, value, Runs, Runs-append, Sound, values,
}
use zxbasic.Backend.Operand.Values.{values-parts}
use zxbasic.Backend.Operand.FetchA.{LoadsA, fetch_a-LoadsA, pop-Runs}

abbrev LoadsH : Platform → List Line → List Line → Cpu → ℕ → Stack → Type 0
LoadsH p whole lines s v rest =
    (t : Cpu) × Runs p whole lines s t
    × (t.h ≡ v)
    × (t.stack ≡ rest)
    × (t.memory ≡ s.memory)
    × (t.a ≡ s.a)

next-minus_one : (n : ℕ) → n < 65536 → next (minus_one n) ≡ n
next-minus_one n h = omega arith

popped-LoadsH :
    (p : Platform)
    → (whole : List Line) → (s : Cpu) → (stack : Stack) → s.stack ≡ stack
    → (v : ℕ) → (rest : Stack) → popped_byte stack ≡ some (v, rest)
    → LoadsH p whole (plain (pop hl) ∷ []) s v rest
unfolding set_pair
popped-LoadsH p whole s [] k v rest e = cc
popped-LoadsH p whole s ((x, y) ∷ stack) k v rest e =
    (_, pop-Runs p whole hl s x y stack k, ground arith, ground arith, ground arith, ground arith)

-- The operand is not indirect.
fetch_h-LoadsH :
    (p : Platform)
    → (whole : List Line) → (immediate : Bool) → (x : Base) → (s : Cpu)
    → ((y : List ℕ) → p.address y < 65536)
    → (v : ℕ) → (rest : Stack) → value_of_base p s.memory s.stack false immediate x ≡ some (v, rest)
    → LoadsH p whole (fetch_h false immediate x) s v rest
unfolding Runs fetch_h value_of_base exec
fetch_h-LoadsH p whole immediate (int n) s sound v rest e =
    (_, λ fuel code. refl, ground arith, ground arith, ground arith, ground arith)
fetch_h-LoadsH p whole true (name x) s sound v rest e =
    (_, λ fuel code. refl, ground arith, ground arith, ground arith, ground arith)
fetch_h-LoadsH p whole false (name x) s sound v rest e =
    elim (is_id x)
        as (λ b.
          (if b then some (s.memory (p.address x), s.stack) else popped_byte s.stack)
            ≡ some (v, rest)
          → LoadsH p whole
              ((if b
                  then plain (ld_word Reg16.hl (symbol_minus_one x)) ∷ []
                  else plain (pop Reg16.hl) ∷ [])
                ++ [])
              s v rest) [
                | true ↦ λ k. (
                  _,
                  λ fuel code. refl,
                  ap s.memory (next-minus_one (p.address x) (sound x)) ∙ ground arith,
                  ground arith,
                  ground arith,
                  ground arith,
                )
                | false ↦ popped-LoadsH p whole s s.stack refl v rest
              ]
      e

-- Both of a pair: the first in A and the second in H, from the operands' values.
abbrev pub LoadsBoth : Platform → List Line → List Line → Cpu → ℕ → ℕ → Stack → Type 0
LoadsBoth p whole lines s v w rest =
    (t : Cpu) × Runs p whole lines s t
    × (t.a ≡ v)
    × (t.h ≡ w)
    × (t.stack ≡ rest)
    × (t.memory ≡ s.memory)

get_opers-LoadsBoth :
    (p : Platform)
    → (whole : List Line) → (imm1 imm2 : Bool) → (x1 x2 : Base) → (s : Cpu)
    → ((y : List ℕ) → p.address y < 65536)
    → (v1 v2 : ℕ) → (between rest : Stack)
    → value_of_base p s.memory s.stack false imm2 x2 ≡ some (v2, between)
    → value_of_base p s.memory between false imm1 x1 ≡ some (v1, rest)
    → LoadsBoth p whole (fetch_h false imm2 x2 ++ fetch_a hl false imm1 x1) s v1 v2 rest
get_opers-LoadsBoth p whole imm1 imm2 x1 x2 s sound v1 v2 between rest e2 e1 =
    let (t, f, h_t, stack_t, memory_t, a_t) =
      fetch_h-LoadsH p whole imm2 x2 s sound v2 between e2 in
    let e : value_of_base p t.memory t.stack false imm1 x1 ≡ some (v1, rest) =
      rw (stack_t, memory_t) e1 in
    let (u, g, a_u, stack_u, memory_u, h_u) = fetch_a-LoadsA p whole hl false imm1 x1 t v1 rest e in
    (
      u,
      Runs-append p whole (fetch_h false imm2 x2) (fetch_a hl false imm1 x1) s t u f g,
      a_u,
      h_u refl ∙ h_t,
      stack_u,
      memory_u ∙ memory_t,
    )

get_opers_reversed-LoadsBoth :
    (p : Platform)
    → (whole : List Line) → (imm1 imm2 : Bool) → (x1 x2 : Base) → (s : Cpu)
    → ((y : List ℕ) → p.address y < 65536)
    → (v1 v2 : ℕ) → (between rest : Stack)
    → value_of_base p s.memory s.stack false imm2 x2 ≡ some (v2, between)
    → value_of_base p s.memory between false imm1 x1 ≡ some (v1, rest)
    → LoadsBoth p whole (fetch_a bc false imm2 x2 ++ fetch_h false imm1 x1) s v2 v1 rest
get_opers_reversed-LoadsBoth p whole imm1 imm2 x1 x2 s sound v1 v2 between rest e2 e1 =
    let (t, f, a_t, stack_t, memory_t, h_t) =
      fetch_a-LoadsA p whole bc false imm2 x2 s v2 between e2 in
    let e : value_of_base p t.memory t.stack false imm1 x1 ≡ some (v1, rest) =
      rw (stack_t, memory_t) e1 in
    let (u, g, h_u, stack_u, memory_u, a_u) = fetch_h-LoadsH p whole imm1 x1 t sound v1 rest e in
    (
      u,
      Runs-append p whole (fetch_a bc false imm2 x2) (fetch_h false imm1 x1) s t u f g,
      a_u ∙ a_t,
      h_u,
      stack_u,
      memory_u ∙ memory_t,
    )

-- `get_oper` with one operand, of any kind
pub get_oper-LoadsA :
    (p : Platform)
    → (whole : List Line) → (op : Operand) → (s : Cpu) → (v : ℕ) → (rest : Stack)
    → value p s.memory s.stack op ≡ some (v, rest)
    → LoadsA p whole (not op.indirect) (get_oper op) s v rest
unfolding get_oper value
get_oper-LoadsA p whole op s v rest e =
    fetch_a-LoadsA p whole hl op.indirect op.immediate op.base s v rest e

-- With two, both direct
pub get_opers-lem :
    (p : Platform)
    → (whole : List Line) → (op1 op2 : Operand) → op1.indirect ≡ false
    → op2.indirect ≡ false
    → (s : Cpu) → Sound p s
    → (v1 v2 : ℕ) → (rest : Stack) → values p s op1 op2 ≡ some (v1, v2, rest)
    → LoadsBoth p whole (get_opers op1 op2) s v1 v2 rest
unfolding get_opers value
get_opers-lem p whole op1 op2 d1 d2 s sound v1 v2 rest e =
    let (between, e2, e1) = values-parts p s op1 op2 v1 v2 rest e in
    rw (d1, d2)
      (get_opers-LoadsBoth p whole op1.immediate op2.immediate op1.base op2.base s sound.address-lt
        v1 v2 between rest (rw d2 at e2) (rw d1 at e1))

pub get_opers_reversed-lem :
    (p : Platform)
    → (whole : List Line) → (op1 op2 : Operand) → op1.indirect ≡ false
    → op2.indirect ≡ false
    → (s : Cpu) → Sound p s
    → (v1 v2 : ℕ) → (rest : Stack) → values p s op1 op2 ≡ some (v1, v2, rest)
    → LoadsBoth p whole (get_opers_reversed op1 op2) s v2 v1 rest
unfolding get_opers_reversed value
get_opers_reversed-lem p whole op1 op2 d1 d2 s sound v1 v2 rest e =
    let (between, e2, e1) = values-parts p s op1 op2 v1 v2 rest e in
    rw (d1, d2)
      (get_opers_reversed-LoadsBoth p whole op1.immediate op2.immediate op1.base op2.base s
        sound.address-lt v1 v2 between rest (rw d2 at e2) (rw d1 at e1))
