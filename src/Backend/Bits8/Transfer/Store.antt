-- ===== src/Backend/Bits8/Transfer/Store.antt =====
-- src/arch/z80/backend/_8bit.py: `store8` writes a byte to memory.
use mathlib.Core.Path.{subst}
use zxbasic.Prelude.{
  ℕ, ◌+◌, ◌*◌, ◌/◌, ◌%◌, ◌≡◌, refl, sym, ap, ◌∙◌, Bool, true, false, not, ◌&&◌, ◌==◌, List, [], ◌∷◌,
  Option, none, some, if◌then◌else◌, arith, append-nil, some_eq, Bool-cases,
}
use zxbasic.Prelude.Int.{ℤ, pos, negsuc}
use zxbasic.Backend.Machine.{
  Reg8, reg, ld, pop, plain, de, hl, Address, number, symbol, word_of, next, join, at_reg, inc_word,
  locate, update, falls_through, Platform, Cpu, Line, exec,
}
use zxbasic.Backend.Operand.{Operand}
use zxbasic.Backend.Operand.Meaning.{Stack, value, Runs, Runs-append}
use zxbasic.Backend.Operand.FetchH.{get_oper-LoadsA}
use zxbasic.Prelude.{inl, inr}
use zxbasic.Backend.Machine.{set_pair}
use zxbasic.Backend.Operand.{Base, int, name}
use zxbasic.Backend.Operand.Meaning.{word_at}
use zxbasic.Backend.Operand.FetchA.{pop-Runs}
use zxbasic.Backend.Bits8.Arithmetic.{a}
use zxbasic.Backend.Bits8.Transfer.{
  is_label, store_a, store_through, store_at, store_name, store_to, store8,
}

-- Where a byte goes, and the stack without the address if that was there: a number or a label is the
-- address, with `*` alone the place where the address is; any other name is on the stack.
abbrev pub popped_address : Bool → (ℕ → ℕ) → Stack → Option (ℕ × Stack)
popped_address indirect memory [] = none
popped_address false memory (w ∷ rest) = some (join w, rest)
popped_address true memory (w ∷ rest) = some (word_at memory (join w), rest)

abbrev pub pointed : Bool → (ℕ → ℕ) → ℕ → ℕ
pointed through memory n = if through then word_at memory n else n

destination_of : Platform → (ℕ → ℕ) → Stack → Bool → Bool → Base → Option (ℕ × Stack)
unfolding is_label
destination_of p memory stack indirect immediate (int n) =
    some (pointed (indirect && not immediate) memory (word_of n), stack)
destination_of p memory stack indirect immediate (name x) =
    if is_label x
    then some (pointed (indirect && not immediate) memory (p.address x), stack)
    else if immediate
    then some (pointed indirect memory (p.address x), stack)
    else popped_address indirect memory stack

unfoldable pub destination : Platform → (ℕ → ℕ) → Stack → Operand → Option (ℕ × Stack)
unfolding destination_of
destination p memory stack op = destination_of p memory stack op.indirect op.immediate op.base

-- The lines write A to address `n`, and leave `rest` on the stack.
Writes : Platform → List Line → List Line → Cpu → ℕ → Stack → Type 0
Writes p whole lines s n rest =
    (t : Cpu) × Runs p whole lines s t
    × (t.stack ≡ rest)
    × ((k : ℕ) → t.memory k ≡ (if k == n then s.a else s.memory k))

store_a-Writes :
    (p : Platform)
    → (whole : List Line) → (at : Address) → (s : Cpu)
    → Writes p whole (store_a at) s (locate p at) s.stack
unfolding Writes store_a exec Runs locate update
store_a-Writes p whole at s = (_, λ fuel code. refl, refl, λ k. refl)

store_through-Writes :
    (p : Platform)
    → (whole : List Line) → (at : Address) → (s : Cpu)
    → Writes p whole (store_through at) s (word_at s.memory (locate p at)) s.stack
unfolding Writes store_through exec Runs locate update
store_through-Writes p whole at s = (_, λ fuel code. refl, refl, λ k. refl)

store_at-Writes :
    (p : Platform)
    → (whole : List Line) → (indirect immediate : Bool) → (at : Address) → (s : Cpu)
    → Writes p whole
        (store_at indirect immediate at)
        s
        (pointed (indirect && not immediate) s.memory (locate p at))
        s.stack
unfolding store_at
store_at-Writes p whole true true at s = store_a-Writes p whole at s
store_at-Writes p whole false true at s = store_a-Writes p whole at s
store_at-Writes p whole true false at s = store_through-Writes p whole at s
store_at-Writes p whole false false at s = store_a-Writes p whole at s

popped-Writes :
    (p : Platform)
    → (whole : List Line) → (indirect : Bool) → (x : List ℕ) → (s : Cpu) → (stack : Stack)
    → s.stack ≡ stack
    → (n : ℕ) → (rest : Stack) → popped_address indirect s.memory stack ≡ some (n, rest)
    → Writes p whole (store_name indirect false x) s n rest
unfolding store_name Writes exec Runs update set_pair
popped-Writes p whole false x s [] k n rest e = cc
popped-Writes p whole true x s [] k n rest e = cc
popped-Writes p whole false x s ((hi, lo) ∷ stack) k n rest e =
    let here : hi * 256 + lo ≡ n = ap (λ (w : ℕ × Stack). w.0) (some_eq e) in
    let left : stack ≡ rest = ap (λ (w : ℕ × Stack). w.1) (some_eq e) in
    (
      _,
      Runs-append p whole (plain (pop hl) ∷ []) (plain (ld (at_reg hl) (reg a)) ∷ []) s _ _
          (pop-Runs p whole hl s hi lo stack k) (λ fuel code. refl),
      left,
      λ j. ap (λ (m : ℕ). if j == m then s.a else s.memory j) here,
    )
popped-Writes p whole true x s ((hi, lo) ∷ stack) k n rest e =
    let here : word_at s.memory (hi * 256 + lo) ≡ n = ap (λ (w : ℕ × Stack). w.0) (some_eq e) in
    let left : stack ≡ rest = ap (λ (w : ℕ × Stack). w.1) (some_eq e) in
    let above : (next (hi * 256 + lo)) / 256 * 256 + (next (hi * 256 + lo)) % 256
        ≡ next (hi * 256 + lo) =
      omega arith in
    let there = ap (λ (m : ℕ). s.memory m * 256 + s.memory (hi * 256 + lo)) above ∙ here in
    (
      _,
      Runs-append p whole (plain (pop hl) ∷ [])
          (plain (ld (reg Reg8.e) (at_reg hl))
            ∷ plain (inc_word hl)
            ∷ plain (ld (reg Reg8.d) (at_reg hl))
            ∷ plain (ld (at_reg de) (reg a))
            ∷ [])
          s _ _ (pop-Runs p whole hl s hi lo stack k) (λ fuel code. refl),
      left,
      λ j. ap (λ (m : ℕ). if j == m then s.a else s.memory j) there,
    )

store_name-Writes :
    (p : Platform)
    → (whole : List Line) → (indirect : Bool) → (x : List ℕ) → (s : Cpu)
    → Writes p whole
        (store_name indirect true x)
        s
        (pointed indirect s.memory (p.address x))
        s.stack
unfolding store_name locate
store_name-Writes p whole true x s = store_through-Writes p whole (symbol x) s
store_name-Writes p whole false x s = store_a-Writes p whole (symbol x) s

known-Writes :
    (p : Platform)
    → (whole lines : List Line) → (s : Cpu) → (m : ℕ) → Writes p whole lines s m s.stack
    → (n : ℕ) → (rest : Stack) → ◌≡◌ {A = Option (ℕ × Stack)} (some (m, s.stack)) (some (n, rest))
    → Writes p whole lines s n rest
known-Writes p whole lines s m h n rest e =
    let here : m ≡ n = ap (λ (w : ℕ × Stack). w.0) (some_eq e) in
    let left : s.stack ≡ rest = ap (λ (w : ℕ × Stack). w.1) (some_eq e) in
    subst (λ (r : Stack). Writes p whole lines s n r) left
      (subst (λ (k : ℕ). Writes p whole lines s k s.stack) here h)

word_of_word : (n : ℤ) → word_of (pos (word_of n)) ≡ word_of n
word_of_word (pos n) = omega arith
word_of_word (negsuc n) = omega arith

named-Writes :
    (p : Platform)
    → (whole : List Line) → (indirect immediate : Bool) → (x : List ℕ) → (s : Cpu) → (n : ℕ)
    → (rest : Stack)
    → (if immediate
        then some (pointed indirect s.memory (p.address x), s.stack)
        else popped_address indirect s.memory s.stack)
      ≡ some (n, rest)
    → Writes p whole (store_name indirect immediate x) s n rest
named-Writes p whole indirect true x s n rest e =
    known-Writes p whole _ s _ (store_name-Writes p whole indirect x s) n rest e
named-Writes p whole indirect false x s n rest e =
    popped-Writes p whole indirect x s s.stack refl n rest e

store_to-Writes :
    (p : Platform)
    → (whole : List Line) → (indirect immediate : Bool) → (x : Base) → (s : Cpu) → (n : ℕ)
    → (rest : Stack) → destination_of p s.memory s.stack indirect immediate x ≡ some (n, rest)
    → Writes p whole (store_to indirect immediate x) s n rest
unfolding store_to destination_of locate
store_to-Writes p whole indirect immediate (int i) s n rest e =
    known-Writes p whole _ s _
      (store_at-Writes p whole indirect immediate (number (pos (word_of i))) s) n rest
      (ap (λ (m : ℕ). some (pointed (indirect && not immediate) s.memory m, s.stack))
          (word_of_word i)
        ∙ e)
store_to-Writes p whole indirect immediate (name x) s n rest e = elim (Bool-cases (is_label x)) [
  | inl label ↦ rw label (
      known-Writes p whole _ s _ (store_at-Writes p whole indirect immediate (symbol x) s) n rest (
        ap
          (λ (b : Bool).
            if b
            then some (pointed (indirect && not immediate) s.memory (p.address x), s.stack)
            else if immediate
            then some (pointed indirect s.memory (p.address x), s.stack)
            else popped_address indirect s.memory s.stack)
          (sym label)
        ∙ e))
  | inr other ↦ rw other (
      named-Writes p whole indirect immediate x s n rest (
        ap
          (λ (b : Bool).
            if b
            then some (pointed (indirect && not immediate) s.memory (p.address x), s.stack)
            else if immediate
            then some (pointed indirect s.memory (p.address x), s.stack)
            else popped_address indirect s.memory s.stack)
          (sym other)
        ∙ e))
]

-- The code of `store8` runs to its end with no jump: it takes the operand and then the address, if the
-- target is on the stack, and writes the operand's value to that address. No other byte of the memory
-- changes.
pub store8-lem :
    (p : Platform)
    → (s : Cpu) → (to op : Operand) → (v n : ℕ) → (between rest : Stack)
    → value p s.memory s.stack op ≡ some (v, between)
    → destination p s.memory between to ≡ some (n, rest)
    → (t : Cpu) × ((fuel : ℕ)
        → exec p (store8 to op) fuel (store8 to op) s ≡ some (falls_through t))
      × (t.stack ≡ rest)
      × ((k : ℕ) → t.memory k ≡ (if k == n then v else s.memory k))
unfolding store8 destination Writes Runs exec
store8-lem p s to op v n between rest e at =
    let (t, runs, a_t, stack_t, memory_t, kept) =
      get_oper-LoadsA p (store8 to op) op s v between e in
    let at_t : destination p t.memory t.stack to ≡ some (n, rest) = rw (stack_t, memory_t) at in
    let (u, runs2, stack_u, memory_u) =
      store_to-Writes p (store8 to op) to.indirect to.immediate to.base t n rest at_t in
    let lines : List Line = store_to to.indirect to.immediate to.base in
    let whole : List Line = store8 to op in
    (
      u,
      λ fuel.
          runs fuel lines
          ∙ subst (λ (code : List Line). exec p whole fuel code t ≡ some (falls_through u))
              (append-nil lines) (runs2 fuel []),
      stack_u,
      λ k. memory_u k ∙ rw (a_t, memory_t) refl,
    )
