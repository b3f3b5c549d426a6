-- ===== src/Backend/Bits16/Word.antt =====
-- src/arch/z80/backend/_16bit.py: the word that an operand stands for.
use zxbasic.Prelude.{ℕ, ◌≡◌, Bool, true, false, List, [], ◌∷◌, Option, none, some, if◌then◌else◌}
use zxbasic.Backend.Machine.{Platform, Cpu, Line, join, word_of}
use zxbasic.Backend.Operand.{Operand, Base, int, name, is_id}
use zxbasic.Backend.Operand.Meaning.{Stack, Runs, word_at}

abbrev pub popped_word : Stack → Option (ℕ × Stack)
popped_word [] = none
popped_word (w ∷ rest) = some (join w, rest)

-- With `*` a name is the address of the word's address.
abbrev pub through : Bool → (ℕ → ℕ) → ℕ → ℕ
through indirect memory n = if indirect then word_at memory n else n

abbrev pub popped_through : Bool → (ℕ → ℕ) → Option (ℕ × Stack) → Option (ℕ × Stack)
popped_through indirect memory none = none
popped_through indirect memory (some (n, rest)) = some (through indirect memory n, rest)

unfoldable pub word_of_base : Platform → (ℕ → ℕ) → Stack → Bool → Bool → Base → Option (ℕ × Stack)
unfolding is_id
word_of_base p memory stack true immediate (int n) = some (word_at memory (word_of n), stack)
word_of_base p memory stack false immediate (int n) = some (word_of n, stack)
word_of_base p memory stack indirect true (name x) =
    some (through indirect memory (p.address x), stack)
word_of_base p memory stack indirect false (name x) =
    popped_through indirect memory
      (if is_id x then some (word_at memory (p.address x), stack) else popped_word stack)

unfoldable pub word : Platform → (ℕ → ℕ) → Stack → Operand → Option (ℕ × Stack)
unfolding word_of_base
word p memory stack op = word_of_base p memory stack op.indirect op.immediate op.base

-- HL is `v`, and the stack is `rest`; DE stays.
abbrev pub LoadsHl : Platform → List Line → List Line → Cpu → ℕ → Stack → Type 0
LoadsHl p whole lines s v rest =
    (t : Cpu) × Runs p whole lines s t
    × (join (t.h, t.l) ≡ v)
    × (t.stack ≡ rest)
    × (t.memory ≡ s.memory)
    × (join (t.d, t.e) ≡ join (s.d, s.e))

-- DE is `v`; HL stays.
abbrev pub LoadsDe : Platform → List Line → List Line → Cpu → ℕ → Stack → Type 0
LoadsDe p whole lines s v rest =
    (t : Cpu) × Runs p whole lines s t
    × (join (t.d, t.e) ≡ v)
    × (t.stack ≡ rest)
    × (t.memory ≡ s.memory)
    × (join (t.h, t.l) ≡ join (s.h, s.l))
