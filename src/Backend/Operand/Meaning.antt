-- ===== src/Backend/Operand/Meaning.antt =====
-- src/arch/z80/backend/_8bit.py: what an operand stands for. Operands on the stack are taken from its
-- top, the second one of a pair first.
use zxbasic.Prelude.{
  ℕ, ◌+◌, ◌*◌, ◌%◌, ◌<◌, ◌≡◌, ◌∙◌, Bool, true, false, List, [], ◌∷◌, ◌++◌, Option, none, some,
  if◌then◌else◌, append_assoc,
}
use zxbasic.Backend.Machine.{Platform, Cpu, word_of, join, exec, Line}
use zxbasic.Backend.Operand.{Operand, Base, int, name, is_id, int8}

abbrev pub Stack : Type 0
Stack = List (ℕ × ℕ)

abbrev pub popped_byte : Stack → Option (ℕ × Stack)
popped_byte [] = none
popped_byte ((x, y) ∷ rest) = some (x, rest)

abbrev pub popped_pointer : (ℕ → ℕ) → Stack → Option (ℕ × Stack)
popped_pointer memory [] = none
popped_pointer memory (w ∷ rest) = some (memory (join w), rest)

abbrev pub word_at : (ℕ → ℕ) → ℕ → ℕ
word_at memory n = memory ((n + 1) % 65536) * 256 + memory n

-- The byte that an operand stands for and the stack without it; none if the stack is empty.
unfoldable pub value_of_base : Platform → (ℕ → ℕ) → Stack → Bool → Bool → Base → Option (ℕ × Stack)
unfolding int8 is_id
value_of_base p memory stack true immediate (int n) = some (memory (word_of n), stack)
value_of_base p memory stack false immediate (int n) = some (int8 n, stack)
value_of_base p memory stack true true (name x) = some (memory (p.address x), stack)
value_of_base p memory stack false true (name x) = some (p.address x % 256, stack)
value_of_base p memory stack true false (name x) =
    if is_id x
    then some (memory (word_at memory (p.address x)), stack)
    else popped_pointer memory stack
value_of_base p memory stack false false (name x) =
    if is_id x then some (memory (p.address x), stack) else popped_byte stack

unfoldable pub value : Platform → (ℕ → ℕ) → Stack → Operand → Option (ℕ × Stack)
unfolding value_of_base
value p memory stack op = value_of_base p memory stack op.indirect op.immediate op.base

-- The lines lead from one state to the other, with any code behind them.
unfoldable pub Runs : Platform → List Line → List Line → Cpu → Cpu → Type 0
unfolding exec
Runs p whole lines s t =
    (fuel : ℕ) → (code : List Line) → exec p whole fuel (lines ++ code) s ≡ exec p whole fuel code t

pub Runs-append :
    (p : Platform)
    → (whole xs ys : List Line) → (s t u : Cpu) → Runs p whole xs s t
    → Runs p whole ys t u
    → Runs p whole (xs ++ ys) s u
unfolding Runs
Runs-append p whole xs ys s t u f g fuel code =
    rw (append_assoc xs ys code) (f fuel (ys ++ code) ∙ g fuel code)

-- Memory and stack hold bytes, and a symbol is a word.
abbrev pub AllBytes : Stack → Type 0
AllBytes [] = Unit
AllBytes ((x, y) ∷ rest) = (x < 256) × (y < 256) × AllBytes rest

pub record Sound (p : Platform) (s : Cpu) : Type 0 where
  pub address-lt : (x : List ℕ) → p.address x < 65536
  pub memory-lt : (n : ℕ) → s.memory n < 256
  pub stack-lt : AllBytes s.stack

-- Two operands: the first value, the second, and the stack without both.
abbrev pub second_value : ℕ → Option (ℕ × Stack) → Option (ℕ × ℕ × Stack)
second_value v2 none = none
second_value v2 (some (v1, rest)) = some (v1, v2, rest)

abbrev pub values_from : Platform → (ℕ → ℕ) → Operand → Option (ℕ × Stack) → Option (ℕ × ℕ × Stack)
values_from p memory op1 none = none
values_from p memory op1 (some (v2, between)) = second_value v2 (value p memory between op1)

unfoldable pub values : Platform → Cpu → Operand → Operand → Option (ℕ × ℕ × Stack)
values p s op1 op2 = values_from p s.memory op1 (value p s.memory s.stack op2)
