-- ===== src/Tests/BackendRuns.antt =====
-- src/arch/z80/backend/_8bit.py: the theorems on the generated code at a machine that has two bytes on
-- the stack, and runs of that code.
use zxbasic.Prelude.{
  ℕ, ◌+◌, ◌/◌, ◌%◌, ◌<◌, ◌≤◌, ◌≡◌, ◌⊎◌, ◌↔◌, refl, true, false, ◌==◌, List, [], ◌∷◌, some,
  if◌then◌else◌, arith,
}
use zxbasic.Prelude.Int.{ℤ, pos}
use zxbasic.Backend.Machine.{
  Cpu, Platform, Routine, mul8_fast, divu8_fast, divi8_fast, modu8_fast, modi8_fast, lti8_call,
  lei8_call, xor8_call, abs8_call, band16_call, load_de_de, exec, falls_through, jumps,
}
use zxbasic.Backend.Operand.{Operand, name, int, direct, is_int, is_id, int8}
use zxbasic.Backend.Operand.Meaning.{Stack, Sound, value, values}
use zxbasic.Backend.Operand.Fetched.{Given}
use zxbasic.Backend.Operand.Pushes.{Pushes}
use zxbasic.Backend.Bits8.Arithmetic.{add8, sub8, mul8, divu8, divi8, modu8, modi8, int_ops}
use zxbasic.Backend.Bits8.Arithmetic.Sums.{add8-Pushes, sub8-Pushes}
use zxbasic.Backend.Bits8.Arithmetic.Products.{Computes, AlwaysOk, product, mul8-Pushes}
use zxbasic.Backend.Bits8.Arithmetic.Quotients.{IsPositive, IsGeneral, divu8-Pushes}
use zxbasic.Backend.Bits8.Arithmetic.SignedQuotients.{
  magnitude, negated, signed_quotient, runtime_quotient, divi8-Pushes, divi8_two-Pushes,
}
use zxbasic.Backend.Bits8.Arithmetic.Remainders.{
  signed_remainder, is_masked, modu8-Pushes, modi8-Pushes,
}
use zxbasic.Backend.Bits8.Compare.{ltu8, gtu8, leu8, geu8, eq8, ne8, lti8, gti8, lei8, gei8}
use zxbasic.Backend.Bits8.Compare.Unsigned.{unsigned-Pushes}
use zxbasic.Backend.Bits8.Compare.Equal.{
  equal-Pushes, signed-Pushes, signed_below, signed_not_above,
}
use zxbasic.Backend.Bits8.Logic.{or8, and8, xor8, bor8, band8, bxor8, not8, bnot8, neg8, abs8}
use zxbasic.Backend.Bits8.Logic.Bitwise.{bitwise-Pushes}
use zxbasic.Backend.Bits8.Logic.Truth.{Narrow, IsOr, IsAnd, IsXor, xor_truth, logical-Pushes}
use zxbasic.Backend.Bits8.Shift.{shru8, shri8, shl8}
use zxbasic.Backend.Bits8.Shift.Powers.{shift-Pushes}
use zxbasic.Backend.Bits8.Transfer.{
  load8, param8, fparam8, ret8, jzero8, jnzero8, jgezerou8, jgezeroi8, store8,
}
use zxbasic.Backend.Bits8.Transfer.Jumps.{Leaves, ZeroAsByte, SignAsByte, jump-Leaves}
use zxbasic.Backend.Bits8.Transfer.Single.{EndsWith, single-Pushes}
use zxbasic.Backend.Bits8.Transfer.Store.{destination, store8-lem}

-- The routines of the runtime library, as their sources have them
abbrev pub result : Routine → ℕ → ℕ → ℕ
result mul8_fast x y = product x y
result divu8_fast x y = x / y
result divi8_fast x y = runtime_quotient x y
result modu8_fast x y = x % y
result modi8_fast x y = signed_remainder x y
result lti8_call x y = signed_below x y
result lei8_call x y = signed_not_above x y
result xor8_call x y = xor_truth x y
result abs8_call x y = magnitude x
result band16_call x y = x
result load_de_de x y = x

abbrev pub machine : Platform
machine = record { address = λ x. 40000; routine = λ r s. record s { a = result r s.a s.h } }

abbrev pub two_bytes : Stack
two_bytes = (7, 0) ∷ (249, 0) ∷ []

abbrev pub start : Cpu
start = record {
  a = 0;
  f = 0;
  b = 0;
  c = 0;
  d = 0;
  e = 0;
  h = 0;
  l = 0;
  stack = two_bytes;
  memory = λ n. n % 256;
}

pub start-Sound : Sound machine start
start-Sound = record {
  address-lt = λ x. omega arith;
  memory-lt = λ n. omega arith;
  stack-lt = omega arith;
}

-- A byte on the stack, and one in a variable
abbrev pub on_stack : Operand
on_stack = direct (name (b't' ∷ []))

abbrev pub variable : Operand
variable = direct (name (b'_' ∷ b'x' ∷ []))

-- 249 and 7
both_on_stack : Given machine start on_stack on_stack 249 7 []
unfolding values value is_id
both_on_stack = record { direct1 = refl; direct2 = refl; sound = start-Sound; both = refl }

add8-Pushes_example : Pushes machine (add8 on_stack on_stack) 0 (add8 on_stack on_stack) start 0 []
add8-Pushes_example = add8-Pushes machine start on_stack on_stack 249 7 [] both_on_stack

sub8-Pushes_example :
    Pushes machine (sub8 on_stack on_stack) 0 (sub8 on_stack on_stack) start 242 []
sub8-Pushes_example = sub8-Pushes machine start on_stack on_stack 249 7 [] both_on_stack

computes : (r : Routine) → (ok : ℕ → Type 0) → Computes machine r ok (result r)
computes r ok = record { in_a = λ s h. refl; stack_kept = λ s. refl; memory_kept = λ s. refl }

mul8-Pushes_example :
    Pushes machine (mul8 on_stack on_stack) 0 (mul8 on_stack on_stack) start 207 []
mul8-Pushes_example =
    mul8-Pushes machine (computes mul8_fast AlwaysOk) start on_stack on_stack 249 7 [] both_on_stack

divu8-Pushes_example :
    Pushes machine (divu8 on_stack on_stack) 0 (divu8 on_stack on_stack) start 35 []
divu8-Pushes_example =
    divu8-Pushes machine (computes divu8_fast IsPositive) start on_stack on_stack 249 7 []
      both_on_stack (omega arith)

modu8-Pushes_example :
    Pushes machine (modu8 on_stack on_stack) 0 (modu8 on_stack on_stack) start 4 []
modu8-Pushes_example =
    modu8-Pushes machine (computes modu8_fast IsPositive) start on_stack on_stack 249 7 []
      both_on_stack (omega arith)

-- -7 / 7
divi8-Pushes_example :
    (w : ℕ) × Pushes machine (divi8 on_stack on_stack) 0 (divi8 on_stack on_stack) start w []
    × (249 < 128 → w ≡ signed_quotient 249 7)
    × ((n : ℤ) → is_int on_stack ≡ some n → int8 n ≡ 1 → w ≡ 249)
    × (128 ≤ 249 → IsGeneral (is_int on_stack) → w ≡ negated (signed_quotient 249 7))
divi8-Pushes_example =
    divi8-Pushes machine (computes divi8_fast IsPositive) start on_stack on_stack 249 7 []
      both_on_stack (omega arith)

-- The routine has 1 for -7 / 7 and 3 for -7 / 2.
runtime_runs :
    (runtime_quotient 249 7 ≡ 1) × (runtime_quotient 249 2 ≡ 3) × (signed_quotient 249 2 ≡ 253)
unfolding runtime_quotient
runtime_runs = (refl, refl, refl)

-- By the constant 2
abbrev two : Operand
two = direct (int (pos 2))

by_two : Given machine start (direct (name (b't' ∷ []))) two 7 2 ((249, 0) ∷ [])
unfolding values value is_id int8
by_two = record { direct1 = refl; direct2 = refl; sound = start-Sound; both = refl }

divi8_two-Pushes_example :
    (w : ℕ) × Pushes machine (divi8 on_stack two) 0 (divi8 on_stack two) start w ((249, 0) ∷ [])
    × (7 < 128 ⊎ (◌≡◌ {A = ℕ} (7 % 2) 0) → w ≡ signed_quotient 7 2)
    × (128 ≤ 7 → ◌≡◌ {A = ℕ} (7 % 2) 1 → (w + 1) % 256 ≡ signed_quotient 7 2)
unfolding is_int int8
divi8_two-Pushes_example =
    divi8_two-Pushes machine start on_stack two 7 2 ((249, 0) ∷ []) by_two (pos 2) refl refl

modi8-Pushes_example :
    (w : ℕ) × Pushes machine (modi8 on_stack two) 0 (modi8 on_stack two) start w ((249, 0) ∷ [])
    × (is_masked (is_int two) ≡ true → w ≡ 7 % 2)
    × (is_masked (is_int two) ≡ false → w ≡ signed_remainder 7 2)
modi8-Pushes_example =
    modi8-Pushes machine (computes modi8_fast IsPositive) start on_stack two 7 2 ((249, 0) ∷ [])
      by_two (omega arith)

unsigned-Pushes_example :
    Pushes machine (ltu8 on_stack on_stack) 0 (ltu8 on_stack on_stack) start 0 []
    × Pushes machine (gtu8 on_stack on_stack) 0 (gtu8 on_stack on_stack) start 255 []
    × Pushes machine (leu8 on_stack on_stack) 0 (leu8 on_stack on_stack) start 0 []
    × Pushes machine (geu8 on_stack on_stack) 0 (geu8 on_stack on_stack) start 255 []
unsigned-Pushes_example = unsigned-Pushes machine start on_stack on_stack 249 7 [] both_on_stack

equal-Pushes_example :
    Pushes machine (eq8 on_stack on_stack) 0 (eq8 on_stack on_stack) start 0 []
    × ((w : ℕ) × Pushes machine (ne8 on_stack on_stack) 0 (ne8 on_stack on_stack) start w []
        × ((w ≡ 0) ↔ (◌≡◌ {A = ℕ} 249 7)))
equal-Pushes_example = equal-Pushes machine start on_stack on_stack 249 7 [] both_on_stack

signed-Pushes_example :
    Pushes machine (lti8 on_stack on_stack) 0 (lti8 on_stack on_stack) start 1 []
    × Pushes machine (gti8 on_stack on_stack) 0 (gti8 on_stack on_stack) start 0 []
    × Pushes machine (lei8 on_stack on_stack) 0 (lei8 on_stack on_stack) start 1 []
    × Pushes machine (gei8 on_stack on_stack) 0 (gei8 on_stack on_stack) start 0 []
signed-Pushes_example =
    signed-Pushes machine (computes lti8_call AlwaysOk) (computes lei8_call AlwaysOk) start on_stack
      on_stack 249 7 [] both_on_stack

bitwise-Pushes_example :
    Pushes machine (bor8 on_stack on_stack) 0 (bor8 on_stack on_stack) start 255 []
    × Pushes machine (band8 on_stack on_stack) 0 (band8 on_stack on_stack) start 1 []
    × Pushes machine (bxor8 on_stack on_stack) 0 (bxor8 on_stack on_stack) start 254 []
bitwise-Pushes_example = bitwise-Pushes machine start on_stack on_stack 249 7 [] both_on_stack

on_stack-Narrow : Narrow on_stack on_stack
unfolding Narrow int_ops is_int
on_stack-Narrow op n k e = cc

logical-Pushes_example :
    ((w : ℕ) × Pushes machine (or8 on_stack on_stack) 0 (or8 on_stack on_stack) start w []
      × IsOr w 249 7)
    × ((w : ℕ) × Pushes machine
          (and8 0 on_stack on_stack).0
          1
          (and8 0 on_stack on_stack).0
          start
          w
          []
        × IsAnd w 249 7)
    × ((w : ℕ) × Pushes machine (xor8 on_stack on_stack) 0 (xor8 on_stack on_stack) start w []
        × IsXor w 249 7)
logical-Pushes_example =
    logical-Pushes machine (computes xor8_call AlwaysOk) start 0 on_stack on_stack 249 7 []
      both_on_stack on_stack-Narrow

shift-Pushes_example :
    Pushes machine (shru8 0 on_stack on_stack).0 256 (shru8 0 on_stack on_stack).0 start 1 []
    × Pushes machine (shri8 0 on_stack on_stack).0 256 (shri8 0 on_stack on_stack).0 start 255 []
    × Pushes machine (shl8 0 on_stack on_stack).0 256 (shl8 0 on_stack on_stack).0 start 128 []
shift-Pushes_example = shift-Pushes machine start 0 on_stack on_stack 249 7 [] both_on_stack

variable-ZeroAsByte : ZeroAsByte variable
unfolding is_int
variable-ZeroAsByte n k = cc

variable-SignAsByte : SignAsByte variable
unfolding is_int
variable-SignAsByte n k = cc

-- The byte at 40000 is 64.
variable_value : value machine start.memory start.stack variable ≡ some (64, two_bytes)
unfolding value is_id
variable_value = refl

abbrev there : List ℕ
there = b'l' ∷ []

jump-Leaves_example :
    Leaves machine (jzero8 variable there) start false there two_bytes
    × Leaves machine (jnzero8 variable there) start true there two_bytes
    × Leaves machine (jgezerou8 variable there) start true there two_bytes
    × Leaves machine (jgezeroi8 variable there) start true there two_bytes
jump-Leaves_example =
    jump-Leaves machine start start-Sound variable there 64 two_bytes variable-ZeroAsByte
      variable-SignAsByte variable_value

single-Pushes_example :
    Pushes machine (not8 variable) 0 (not8 variable) start 0 two_bytes
    × Pushes machine (bnot8 variable) 0 (bnot8 variable) start 191 two_bytes
    × Pushes machine (neg8 variable) 0 (neg8 variable) start 192 two_bytes
    × Pushes machine (abs8 variable) 0 (abs8 variable) start 64 two_bytes
    × Pushes machine (load8 variable) 0 (load8 variable) start 64 two_bytes
    × Pushes machine (param8 variable) 0 (param8 variable) start 64 two_bytes
    × EndsWith machine (fparam8 variable) start falls_through 64 two_bytes
    × EndsWith machine (ret8 variable there) start (jumps there) 64 two_bytes
single-Pushes_example =
    single-Pushes machine (computes abs8_call AlwaysOk) start start-Sound variable there 64
      two_bytes variable_value

-- The address on the stack is 7 * 256.
variable_destination :
    destination machine start.memory two_bytes on_stack ≡ some (1792, (249, 0) ∷ [])
unfolding destination
variable_destination = refl

store8-lem_example :
    (t : Cpu) × ((fuel : ℕ)
      → exec machine (store8 on_stack variable) fuel (store8 on_stack variable) start
        ≡ some (falls_through t))
    × (t.stack ≡ (249, 0) ∷ [])
    × ((k : ℕ) → t.memory k ≡ (if k == 1792 then 64 else start.memory k))
store8-lem_example =
    store8-lem machine start on_stack variable 64 1792 two_bytes ((249, 0) ∷ []) variable_value
      variable_destination
