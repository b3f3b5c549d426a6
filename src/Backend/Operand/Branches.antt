-- ===== src/Backend/Operand/Branches.antt =====
-- src/arch/z80/backend: jumps to temporary labels, in code that pushes a byte.
use zxbasic.Prelude.{
  ℕ, zero, suc, ◌+◌, ◌%◌, ◌≤◌, ◌≡◌, true, false, ◌==◌, List, ◌∷◌, Option, some, arith, inl, inr,
  Bool-cases,
}
use zxbasic.Backend.Machine.{
  label, jr_z, djnz, after_label, Outcome, falls_through, Platform, Cpu, Line, exec, is_zero,
}
use zxbasic.Backend.Operand.Meaning.{Stack}
use zxbasic.Backend.Operand.Pushes.{Pushes}

jr_z_taken :
    (p : Platform)
    → (whole : List Line) → (k n : ℕ) → (code : List Line) → (t : Cpu) → (r : Option Outcome)
    → is_zero t ≡ true
    → ((fuel : ℕ) → n ≤ fuel → exec p whole fuel (after_label k whole) t ≡ r)
    → (fuel : ℕ) → suc n ≤ fuel
    → exec p whole fuel (jr_z k ∷ code) t ≡ r
unfolding exec
jr_z_taken p whole k n code t r z f zero h = absurd (omega arith)
jr_z_taken p whole k n code t r z f (suc fuel) h = rw z (f fuel (omega arith))

jr_z_passed :
    (p : Platform)
    → (whole : List Line) → (k n : ℕ) → (code : List Line) → (t : Cpu) → (r : Option Outcome)
    → is_zero t ≡ false
    → ((fuel : ℕ) → suc n ≤ fuel → exec p whole fuel code t ≡ r)
    → (fuel : ℕ) → suc n ≤ fuel
    → exec p whole fuel (jr_z k ∷ code) t ≡ r
unfolding exec
jr_z_passed p whole k n code t r z f zero h = absurd (omega arith)
jr_z_passed p whole k n code t r z f (suc fuel) h = rw z (f (suc fuel) h)

pub jr_z-Pushes :
    (p : Platform)
    → (whole : List Line) → (k n : ℕ) → (code : List Line) → (t : Cpu) → (w : ℕ) → (rest : Stack)
    → (is_zero t ≡ true → Pushes p whole n (after_label k whole) t w rest)
    → (is_zero t ≡ false → Pushes p whole (suc n) code t w rest)
    → Pushes p whole (suc n) (jr_z k ∷ code) t w rest
unfolding Pushes
jr_z-Pushes p whole k n code t w rest f g = elim (Bool-cases (is_zero t)) [
  | inl z ↦
      let (x, u, runs, on_stack, kept) = f z in
      (x, u, jr_z_taken p whole k n code t (some (falls_through u)) z runs, on_stack, kept)
  | inr z ↦
      let (x, u, runs, on_stack, kept) = g z in
      (x, u, jr_z_passed p whole k n code t (some (falls_through u)) z runs, on_stack, kept)
]

-- B less one
abbrev pub counted_down : Cpu → Cpu
counted_down t = record t { b = (t.b + 255) % 256 }

djnz_taken :
    (p : Platform)
    → (whole : List Line) → (k n : ℕ) → (code : List Line) → (t : Cpu) → (r : Option Outcome)
    → ((counted_down t).b == 0) ≡ false
    → ((fuel : ℕ) → n ≤ fuel → exec p whole fuel (after_label k whole) (counted_down t) ≡ r)
    → (fuel : ℕ) → suc n ≤ fuel
    → exec p whole fuel (djnz k ∷ code) t ≡ r
unfolding exec
djnz_taken p whole k n code t r z f zero h = absurd (omega arith)
djnz_taken p whole k n code t r z f (suc fuel) h = rw z (f fuel (omega arith))

djnz_passed :
    (p : Platform)
    → (whole : List Line) → (k n : ℕ) → (code : List Line) → (t : Cpu) → (r : Option Outcome)
    → ((counted_down t).b == 0) ≡ true
    → ((fuel : ℕ) → suc n ≤ fuel → exec p whole fuel code (counted_down t) ≡ r)
    → (fuel : ℕ) → suc n ≤ fuel
    → exec p whole fuel (djnz k ∷ code) t ≡ r
unfolding exec
djnz_passed p whole k n code t r z f zero h = absurd (omega arith)
djnz_passed p whole k n code t r z f (suc fuel) h = rw z (f (suc fuel) h)

pub djnz-Pushes :
    (p : Platform)
    → (whole : List Line) → (k n : ℕ) → (code : List Line) → (t : Cpu) → (w : ℕ) → (rest : Stack)
    → (((counted_down t).b == 0) ≡ false
        → Pushes p whole n (after_label k whole) (counted_down t) w rest)
    → (((counted_down t).b == 0) ≡ true → Pushes p whole (suc n) code (counted_down t) w rest)
    → Pushes p whole (suc n) (djnz k ∷ code) t w rest
unfolding Pushes
djnz-Pushes p whole k n code t w rest f g = elim (Bool-cases ((counted_down t).b == 0)) [
  | inr z ↦
      let (x, u, runs, on_stack, kept) = f z in
      (x, u, djnz_taken p whole k n code t (some (falls_through u)) z runs, on_stack, kept)
  | inl z ↦
      let (x, u, runs, on_stack, kept) = g z in
      (x, u, djnz_passed p whole k n code t (some (falls_through u)) z runs, on_stack, kept)
]

-- A label does nothing, and more fuel does no harm.
pub label-Pushes :
    (p : Platform)
    → (whole : List Line) → (k n : ℕ) → (code : List Line) → (t : Cpu) → (w : ℕ) → (rest : Stack)
    → Pushes p whole n code t w rest
    → Pushes p whole n (label k ∷ code) t w rest
unfolding Pushes exec
label-Pushes p whole k n code t w rest (x, u, runs, on_stack, kept) = (x, u, runs, on_stack, kept)

pub Pushes-mono :
    (p : Platform)
    → (whole : List Line) → (n m : ℕ) → n ≤ m
    → (code : List Line) → (t : Cpu) → (w : ℕ) → (rest : Stack) → Pushes p whole n code t w rest
    → Pushes p whole m code t w rest
unfolding Pushes
Pushes-mono p whole n m l code t w rest (x, u, runs, on_stack, kept) =
    (x, u, λ fuel h. runs fuel (omega arith), on_stack, kept)
