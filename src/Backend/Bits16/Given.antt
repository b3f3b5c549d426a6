-- ===== src/Backend/Bits16/Given.antt =====
-- src/arch/z80/backend/_16bit.py: two operands in HL and DE.
use mathlib.Core.Path.{subst}
use zxbasic.Backend.Operand.Fixed.{is_int-direct, is_global-direct}
use zxbasic.Prelude.{ℕ, ◌≡◌, refl, sym, ◌∙◌, true, false, List, Option, some}
use zxbasic.Prelude.Int.{ℤ}
use zxbasic.Backend.Machine.{Platform, Cpu, Line, join}
use zxbasic.Backend.Operand.{Operand, is_int, is_global}
use zxbasic.Backend.Operand.Meaning.{Stack, Sound, Runs, Runs-append, word_at}
use zxbasic.Backend.Bits16.{int16, fetch_de, get_oper16, get_opers16, get_opers16_reversed}
use zxbasic.Backend.Bits16.Word.{word_of_base, word, LoadsHl, LoadsDe}
use zxbasic.Backend.Bits16.Fetch.{fetch_hl-LoadsHl, fetch_de-LoadsDe}

-- Two operands that are not indirect, with their values; the second comes off the stack first.
pub record GivenWords (p : Platform) (s : Cpu) (op1 op2 : Operand) (v1 v2 : ℕ) (rest : Stack)
    : Type 0 where
  pub direct1 : op1.indirect ≡ false
  pub direct2 : op2.indirect ≡ false
  pub sound : Sound p s
  pub between : Stack
  pub second : word p s.memory s.stack op2 ≡ some (v2, between)
  pub first : word p s.memory between op1 ≡ some (v1, rest)

abbrev pub LoadsPair : Platform → List Line → List Line → Cpu → ℕ → ℕ → Stack → Type 0
LoadsPair p whole lines s v1 v2 rest =
    (t : Cpu) × Runs p whole lines s t
    × (join (t.h, t.l) ≡ v1)
    × (join (t.d, t.e) ≡ v2)
    × (t.stack ≡ rest)
    × (t.memory ≡ s.memory)

pub get_oper16-LoadsHl :
    (p : Platform)
    → (whole : List Line) → (op : Operand) → (s : Cpu) → (v : ℕ) → (rest : Stack)
    → word p s.memory s.stack op ≡ some (v, rest)
    → LoadsHl p whole (get_oper16 op) s v rest
unfolding get_oper16 word
get_oper16-LoadsHl p whole op s v rest e =
    fetch_hl-LoadsHl p whole op.indirect op.immediate op.base s v rest e

de-LoadsDe :
    (p : Platform)
    → (whole : List Line) → (op : Operand) → op.indirect ≡ false
    → (s : Cpu) → (v : ℕ) → (rest : Stack) → word p s.memory s.stack op ≡ some (v, rest)
    → LoadsDe p whole (fetch_de op.indirect op.immediate op.base) s v rest
unfolding word
de-LoadsDe p whole op d s v rest e =
    rw d (fetch_de-LoadsDe p whole op.immediate op.base s v rest (rw d at e))

pub get_opers16-LoadsPair :
    (p : Platform)
    → (whole : List Line) → (s : Cpu) → (op1 op2 : Operand) → (v1 v2 : ℕ) → (rest : Stack)
    → GivenWords p s op1 op2 v1 v2 rest
    → LoadsPair p whole (get_opers16 op1 op2) s v1 v2 rest
unfolding get_opers16
get_opers16-LoadsPair p whole s op1 op2 v1 v2 rest g =
    let (t, f, de_t, stack_t, memory_t, hl_t) =
      de-LoadsDe p whole op2 g.direct2 s v2 g.between g.second in
    let e : word p t.memory t.stack op1 ≡ some (v1, rest) = rw (stack_t, memory_t) g.first in
    let (u, h, hl_u, stack_u, memory_u, de_u) = get_oper16-LoadsHl p whole op1 t v1 rest e in
    (u, Runs-append p whole _ _ s t u f h, hl_u, de_u ∙ de_t, stack_u, memory_u ∙ memory_t)

pub get_opers16_reversed-LoadsPair :
    (p : Platform)
    → (whole : List Line) → (s : Cpu) → (op1 op2 : Operand) → (v1 v2 : ℕ) → (rest : Stack)
    → GivenWords p s op1 op2 v1 v2 rest
    → LoadsPair p whole (get_opers16_reversed op1 op2) s v2 v1 rest
unfolding get_opers16_reversed
get_opers16_reversed-LoadsPair p whole s op1 op2 v1 v2 rest g =
    let (t, f, hl_t, stack_t, memory_t, de_t) =
      get_oper16-LoadsHl p whole op2 s v2 g.between g.second in
    let e : word p t.memory t.stack op1 ≡ some (v1, rest) = rw (stack_t, memory_t) g.first in
    let (u, h, de_u, stack_u, memory_u, hl_u) = de-LoadsDe p whole op1 g.direct1 t v1 rest e in
    (u, Runs-append p whole _ _ s t u f h, hl_u ∙ hl_t, de_u, stack_u, memory_u ∙ memory_t)

-- An operand whose value is `v` on any stack, which stays
abbrev pub FixedWord : Platform → (ℕ → ℕ) → Operand → ℕ → Type 0
FixedWord p memory op v = (stack : Stack) → word p memory stack op ≡ some (v, stack)

pub int-FixedWord :
    (p : Platform)
    → (memory : ℕ → ℕ) → (op : Operand) → (n : ℤ) → is_int op ≡ some n
    → FixedWord p memory op (int16 n)
unfolding word word_of_base
int-FixedWord p memory op n k stack = let (i, m, b) = is_int-direct op n k in rw (i, m, b) refl

pub global-FixedWord :
    (p : Platform)
    → (memory : ℕ → ℕ) → (op : Operand) → is_global op ≡ true
    → (v : ℕ) × FixedWord p memory op v
unfolding word word_of_base
global-FixedWord p memory op k =
    let (x, i, m, b, id) = is_global-direct op k in
    (word_at memory (p.address x), λ stack. rw (i, m, b, id) refl)

pub GivenWords-second :
    (p : Platform)
    → (s : Cpu) → (op1 op2 : Operand) → (v : ℕ) → FixedWord p s.memory op2 v
    → (v1 v2 : ℕ) → (rest : Stack) → GivenWords p s op1 op2 v1 v2 rest
    → (v ≡ v2) × (word p s.memory s.stack op1 ≡ some (v1, rest))
GivenWords-second p s op1 op2 v f v1 v2 rest g =
    let k : ◌≡◌ {A = Option (ℕ × Stack)} (some (v, s.stack)) (some (v2, g.between)) =
      sym (f s.stack) ∙ g.second in
    (cc, subst (λ (st : Stack). word p s.memory st op1 ≡ some (v1, rest)) (cc) g.first)

pub GivenWords-first :
    (p : Platform)
    → (s : Cpu) → (op1 op2 : Operand) → (v : ℕ) → FixedWord p s.memory op1 v
    → (v1 v2 : ℕ) → (rest : Stack) → GivenWords p s op1 op2 v1 v2 rest
    → (v ≡ v1) × (word p s.memory s.stack op2 ≡ some (v2, rest))
GivenWords-first p s op1 op2 v f v1 v2 rest g =
    let k : ◌≡◌ {A = Option (ℕ × Stack)} (some (v, g.between)) (some (v1, rest)) =
      sym (f g.between) ∙ g.first in
    (cc, subst (λ (st : Stack). word p s.memory s.stack op2 ≡ some (v2, st)) (cc) g.second)

pub GivenWords-swap :
    (p : Platform)
    → (s : Cpu) → (op1 op2 : Operand) → (v1 v2 : ℕ) → (rest : Stack) → is_global op2 ≡ true
    → GivenWords p s op1 op2 v1 v2 rest
    → GivenWords p s op2 op1 v2 v1 rest
GivenWords-swap p s op1 op2 v1 v2 rest k g =
    let (v, f) = global-FixedWord p s.memory op2 k in
    let (same, e1) = GivenWords-second p s op1 op2 v f v1 v2 rest g in
    record {
      direct1 = g.direct2;
      direct2 = g.direct1;
      sound = g.sound;
      between = rest;
      second = e1;
      first = subst (λ (n : ℕ). word p s.memory rest op2 ≡ some (n, rest)) same (f rest);
    }
