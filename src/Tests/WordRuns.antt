-- ===== src/Tests/WordRuns.antt =====
-- src/arch/z80/backend/_16bit.py: the theorems on the generated code at a machine with two words on the
-- stack.
use zxbasic.Prelude.{ℕ, ◌≡◌, ◌↔◌, refl, [], ◌∷◌, some}
use zxbasic.Backend.Machine.{Cpu, exec, falls_through, join}
use zxbasic.Backend.Operand.{is_id}
use zxbasic.Backend.Operand.Pushes.{Pushes}
use zxbasic.Backend.Bits16.{
  add16, sub16, ltu16, gtu16, leu16, geu16, ne16, not16, load16, param16, fparam16,
}
use zxbasic.Backend.Bits16.Word.{word}
use zxbasic.Backend.Bits16.Given.{GivenWords}
use zxbasic.Backend.Bits16.Pushes.{PushesWord}
use zxbasic.Backend.Bits16.Sums.{sums16-PushesWord}
use zxbasic.Backend.Bits16.Compare.{unsigned16-Pushes}
use zxbasic.Backend.Bits16.Single.{single16-PushesWord}
use zxbasic.Tests.BackendRuns.{machine, start, start-Sound, on_stack, variable, two_bytes}

-- 63744 and 1792, the two words on the stack
both_words : GivenWords machine start on_stack on_stack 63744 1792 []
unfolding word is_id
both_words = record {
  direct1 = refl;
  direct2 = refl;
  sound = start-Sound;
  between = (249, 0) ∷ [];
  second = refl;
  first = refl;
}

sums16-PushesWord_example :
    PushesWord machine (add16 on_stack on_stack) (add16 on_stack on_stack) start 0 []
    × PushesWord machine (sub16 on_stack on_stack) (sub16 on_stack on_stack) start 61952 []
sums16-PushesWord_example =
    sums16-PushesWord machine start on_stack on_stack 63744 1792 [] both_words

unsigned16-Pushes_example :
    Pushes machine (ltu16 on_stack on_stack) 0 (ltu16 on_stack on_stack) start 0 []
    × Pushes machine (gtu16 on_stack on_stack) 0 (gtu16 on_stack on_stack) start 255 []
    × Pushes machine (leu16 on_stack on_stack) 0 (leu16 on_stack on_stack) start 0 []
    × Pushes machine (geu16 on_stack on_stack) 0 (geu16 on_stack on_stack) start 255 []
    × ((w : ℕ) × Pushes machine (ne16 on_stack on_stack) 0 (ne16 on_stack on_stack) start w []
        × ((w ≡ 0) ↔ (◌≡◌ {A = ℕ} 63744 1792)))
unsigned16-Pushes_example =
    unsigned16-Pushes machine start on_stack on_stack 63744 1792 [] both_words

-- The word at 40000 is 65 * 256 + 64.
variable-word : word machine start.memory start.stack variable ≡ some (16704, two_bytes)
unfolding word is_id
variable-word = refl

single16-PushesWord_example :
    PushesWord machine (load16 variable) (load16 variable) start 16704 two_bytes
    × PushesWord machine (param16 variable) (param16 variable) start 16704 two_bytes
    × Pushes machine (not16 variable) 0 (not16 variable) start 0 two_bytes
    × ((t : Cpu) × ((fuel : ℕ)
          → exec machine (fparam16 variable) fuel (fparam16 variable) start
            ≡ some (falls_through t))
        × (join (t.h, t.l) ≡ 16704)
        × (t.stack ≡ two_bytes)
        × (t.memory ≡ start.memory))
single16-PushesWord_example =
    single16-PushesWord machine start variable 16704 two_bytes variable-word
