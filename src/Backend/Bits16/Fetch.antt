-- ===== src/Backend/Bits16/Fetch.antt =====
-- src/arch/z80/backend/_16bit.py: `get_oper` brings the operands into HL and DE.
use zxbasic.Prelude.{
  ℕ, ◌+◌, ◌*◌, ◌/◌, ◌%◌, ◌≡◌, refl, ap, ◌∙◌, Bool, true, false, List, [], ◌∷◌, ◌++◌, Option, none,
  some, if◌then◌else◌, arith, some_eq,
}
use zxbasic.Backend.Machine.{
  de, hl, symbol, ld_word, pop, plain, Platform, Cpu, Line, exec, join, next, set_pair,
}
use zxbasic.Backend.Operand.{Base, int, name, is_id}
use zxbasic.Backend.Operand.Meaning.{Stack, Runs, Runs-append, word_at}
use zxbasic.Backend.Operand.FetchA.{pop-Runs}
use zxbasic.Backend.Bits16.{follow_hl, first_hl, fetch_hl, follow_de, fetch_de}
use zxbasic.Backend.Bits16.Word.{
  popped_word, through, popped_through, word_of_base, LoadsHl, LoadsDe,
}

same_through : (memory : ℕ → ℕ) → (o : Option (ℕ × Stack)) → o ≡ popped_through false memory o
same_through memory none = refl
same_through memory (some (n, rest)) = refl

popped-LoadsHl :
    (p : Platform)
    → (whole : List Line) → (s : Cpu) → (stack : Stack) → s.stack ≡ stack
    → (v : ℕ) → (rest : Stack) → popped_word stack ≡ some (v, rest)
    → LoadsHl p whole (plain (pop hl) ∷ []) s v rest
unfolding set_pair
popped-LoadsHl p whole s [] k v rest e = cc
popped-LoadsHl p whole s ((hi, lo) ∷ stack) k v rest e =
    (_, pop-Runs p whole hl s hi lo stack k, ground arith, ground arith, refl, refl)

first_hl-LoadsHl :
    (p : Platform)
    → (whole : List Line) → (x : List ℕ) → (s : Cpu) → (stack : Stack) → s.stack ≡ stack
    → (v : ℕ) → (rest : Stack)
    → (if is_id x then some (word_at s.memory (p.address x), stack) else popped_word stack)
      ≡ some (v, rest)
    → LoadsHl p whole (first_hl x) s v rest
unfolding Runs exec set_pair
first_hl-LoadsHl p whole x s stack k v rest e =
    elim (is_id x)
        as (λ b.
          (if b then some (word_at s.memory (p.address x), stack) else popped_word stack)
            ≡ some (v, rest)
          → LoadsHl p whole (if b then plain (ld_word hl (symbol x)) ∷ [] else plain (pop hl) ∷ [])
              s v rest) [
                | true ↦ λ q. (_, λ fuel code. refl, ground arith, ground arith, refl, refl)
                | false ↦ popped-LoadsHl p whole s stack k v rest
              ]
      e

follow_hl-LoadsHl :
    (p : Platform)
    → (whole : List Line) → (indirect : Bool) → (s : Cpu)
    → LoadsHl p whole (follow_hl indirect) s (through indirect s.memory (join (s.h, s.l))) s.stack
unfolding Runs exec follow_hl
follow_hl-LoadsHl p whole false s = (s, λ fuel code. refl, refl, refl, refl, refl)
follow_hl-LoadsHl p whole true s =
    let above : next (join (s.h, s.l)) / 256 * 256 + next (join (s.h, s.l)) % 256
        ≡ next (join (s.h, s.l)) =
      omega arith in
    (
      _,
      λ fuel code. refl,
      ap (λ (n : ℕ). s.memory n * 256 + s.memory (join (s.h, s.l))) above,
      refl,
      refl,
      refl,
    )

name-LoadsHl :
    (p : Platform)
    → (whole : List Line) → (indirect : Bool) → (x : List ℕ) → (s : Cpu) → (o : Option (ℕ × Stack))
    → (if is_id x then some (word_at s.memory (p.address x), s.stack) else popped_word s.stack) ≡ o
    → (v : ℕ) → (rest : Stack) → popped_through indirect s.memory o ≡ some (v, rest)
    → LoadsHl p whole (first_hl x ++ follow_hl indirect) s v rest
name-LoadsHl p whole indirect x s none k v rest e = cc
name-LoadsHl p whole indirect x s (some (n, r)) k v rest e =
    let (t, f, hl_t, stack_t, memory_t, de_t) = first_hl-LoadsHl p whole x s s.stack refl n r k in
    let (u, g, hl_u, stack_u, memory_u, de_u) = follow_hl-LoadsHl p whole indirect t in
    let here : through indirect s.memory n ≡ v = ap (λ (w : ℕ × Stack). w.0) (some_eq e) in
    let left : r ≡ rest = ap (λ (w : ℕ × Stack). w.1) (some_eq e) in
    (
      u,
      Runs-append p whole (first_hl x) (follow_hl indirect) s t u f g,
      hl_u ∙ rw (hl_t, memory_t) here,
      stack_u ∙ stack_t ∙ left,
      memory_u ∙ memory_t,
      de_u ∙ de_t,
    )

pub fetch_hl-LoadsHl :
    (p : Platform)
    → (whole : List Line) → (indirect immediate : Bool) → (x : Base) → (s : Cpu) → (v : ℕ)
    → (rest : Stack) → word_of_base p s.memory s.stack indirect immediate x ≡ some (v, rest)
    → LoadsHl p whole (fetch_hl indirect immediate x) s v rest
unfolding Runs exec fetch_hl word_of_base
fetch_hl-LoadsHl p whole true immediate (int n) s v rest e =
    (_, λ fuel code. refl, ground arith, ground arith, refl, refl)
fetch_hl-LoadsHl p whole false immediate (int n) s v rest e =
    (_, λ fuel code. refl, ground arith, ground arith, refl, refl)
fetch_hl-LoadsHl p whole true true (name x) s v rest e =
    (_, λ fuel code. refl, ground arith, ground arith, refl, refl)
fetch_hl-LoadsHl p whole false true (name x) s v rest e =
    (_, λ fuel code. refl, ground arith, ground arith, refl, refl)
fetch_hl-LoadsHl p whole indirect false (name x) s v rest e =
    name-LoadsHl p whole indirect x s _ refl v rest e

popped-LoadsDe :
    (p : Platform)
    → (whole : List Line) → (s : Cpu) → (stack : Stack) → s.stack ≡ stack
    → (v : ℕ) → (rest : Stack) → popped_word stack ≡ some (v, rest)
    → LoadsDe p whole (plain (pop de) ∷ []) s v rest
unfolding set_pair
popped-LoadsDe p whole s [] k v rest e = cc
popped-LoadsDe p whole s ((hi, lo) ∷ stack) k v rest e =
    (_, pop-Runs p whole de s hi lo stack k, ground arith, ground arith, refl, refl)

-- The second operand is not indirect.
pub fetch_de-LoadsDe :
    (p : Platform)
    → (whole : List Line) → (immediate : Bool) → (x : Base) → (s : Cpu) → (v : ℕ) → (rest : Stack)
    → word_of_base p s.memory s.stack false immediate x ≡ some (v, rest)
    → LoadsDe p whole (fetch_de false immediate x) s v rest
unfolding Runs exec fetch_de follow_de word_of_base
fetch_de-LoadsDe p whole immediate (int n) s v rest e =
    (_, λ fuel code. refl, ground arith, ground arith, refl, refl)
fetch_de-LoadsDe p whole true (name x) s v rest e =
    (_, λ fuel code. refl, ground arith, ground arith, refl, refl)
fetch_de-LoadsDe p whole false (name x) s v rest e =
    elim (is_id x)
        as (λ b.
          popped_through false s.memory
              (if b then some (word_at s.memory (p.address x), s.stack) else popped_word s.stack)
            ≡ some (v, rest)
          → LoadsDe p whole
              ((if b then plain (ld_word de (symbol x)) ∷ [] else plain (pop de) ∷ []) ++ []) s v
              rest) [
                | true ↦ λ q. (_, λ fuel code. refl, ground arith, ground arith, refl, refl)
                | false ↦ λ q.
                    popped-LoadsDe p whole s s.stack refl v rest
                      (same_through s.memory (popped_word s.stack) ∙ q)
              ]
      e
