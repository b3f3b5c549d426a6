-- ===== src/Backend/Bits16/Bounds.antt =====
-- src/arch/z80/backend/_16bit.py: the values of operands are words.
use mathlib.Core.Path.{subst}
use zxbasic.Prelude.{
  ℕ, ◌<◌, ◌≡◌, ap, Bool, true, false, [], ◌∷◌, Option, some, if◌then◌else◌, some_eq,
}
use zxbasic.Backend.Machine.{Platform, Cpu}
use zxbasic.Backend.Operand.{Operand, Base, int, name, is_id}
use zxbasic.Backend.Operand.Meaning.{Stack, AllBytes, Sound, word_at}
use zxbasic.Backend.Bits16.Word.{word, word_of_base, popped_through, popped_word}
use zxbasic.Backend.Bits16.Given.{GivenWords}
use zxbasic.Backend.Bits16.Pushes.{word-lt}

pair_kept :
    (n : ℕ)
    → (stack : Stack) → AllBytes stack
    → (v : ℕ) → (rest : Stack) → ◌≡◌ {A = Option (ℕ × Stack)} (some (n, stack)) (some (v, rest))
    → AllBytes rest
pair_kept n stack h v rest e = subst AllBytes (ap (λ (w : ℕ × Stack). w.1) (some_eq e)) h

popped_kept :
    (indirect : Bool)
    → (memory : ℕ → ℕ) → (stack : Stack) → AllBytes stack
    → (v : ℕ) → (rest : Stack) → popped_through indirect memory (popped_word stack) ≡ some (v, rest)
    → AllBytes rest
popped_kept indirect memory [] h v rest e = cc
popped_kept indirect memory ((x, y) ∷ stack) (b, c, h) v rest e =
    subst AllBytes (ap (λ (w : ℕ × Stack). w.1) (some_eq e)) h

word_of_base-AllBytes :
    (p : Platform)
    → (memory : ℕ → ℕ) → (stack : Stack) → AllBytes stack
    → (indirect immediate : Bool) → (x : Base) → (v : ℕ) → (rest : Stack)
    → word_of_base p memory stack indirect immediate x ≡ some (v, rest)
    → AllBytes rest
unfolding word_of_base
word_of_base-AllBytes p memory stack h true immediate (int n) v rest e =
    pair_kept _ stack h v rest e
word_of_base-AllBytes p memory stack h false immediate (int n) v rest e =
    pair_kept _ stack h v rest e
word_of_base-AllBytes p memory stack h indirect true (name x) v rest e =
    pair_kept _ stack h v rest e
word_of_base-AllBytes p memory stack h indirect false (name x) v rest e =
    elim (is_id x)
        as (λ b.
          popped_through indirect memory
              (if b then some (word_at memory (p.address x), stack) else popped_word stack)
            ≡ some (v, rest)
          → AllBytes rest) [
            | true ↦ pair_kept _ stack h v rest
            | false ↦ popped_kept indirect memory stack h v rest
          ]
      e

pub GivenWords-lt :
    (p : Platform)
    → (s : Cpu) → (op1 op2 : Operand) → (v1 v2 : ℕ) → (rest : Stack)
    → GivenWords p s op1 op2 v1 v2 rest
    → (v1 < 65536) × (v2 < 65536)
unfolding word
GivenWords-lt p s op1 op2 v1 v2 rest g =
    let bytes =
      word_of_base-AllBytes p s.memory s.stack g.sound.stack-lt op2.indirect op2.immediate op2.base
        v2 g.between g.second in
    let sound : Sound p (record s { stack = g.between }) = record {
      address-lt = g.sound.address-lt;
      memory-lt = g.sound.memory-lt;
      stack-lt = bytes;
    } in
    (
      word-lt p (record s { stack = g.between }) sound op1 v1 rest g.first,
      word-lt p s g.sound op2 v2 g.between g.second,
    )
