-- ===== src/Backend/Operand/Pushes.antt =====
-- src/arch/z80/backend: what code leaves behind that pushes a byte as AF.
use zxbasic.Prelude.{
  ℕ, ◌≤◌, ◌≡◌, refl, sym, ◌∙◌, Bool, true, false, List, [], ◌∷◌, ◌++◌, some, if◌then◌else◌,
}
use zxbasic.Backend.Machine.{af, plain, push, falls_through, Instruction, Platform, Cpu, exec, Line}
use zxbasic.Backend.Operand.Meaning.{Stack, Runs}

-- With `n` jumps at most the code comes to its end, with a word on the stack whose high byte is `v`,
-- and `rest` under it; the memory is as it was.
unfoldable pub Pushes : Platform → List Line → ℕ → List Line → Cpu → ℕ → Stack → Type 0
Pushes p whole n code s v rest =
    (x : ℕ) × (t : Cpu) × ((fuel : ℕ)
      → n ≤ fuel
      → exec p whole fuel code s ≡ some (falls_through t))
    × (t.stack ≡ (v, x) ∷ rest)
    × (t.memory ≡ s.memory)

pub Runs-Pushes :
    (p : Platform)
    → (whole : List Line) → (n : ℕ) → (lines code : List Line) → (s t : Cpu)
    → Runs p whole lines s t
    → t.memory ≡ s.memory
    → (v : ℕ) → (rest : Stack) → Pushes p whole n code t v rest
    → Pushes p whole n (lines ++ code) s v rest
unfolding Runs Pushes
Runs-Pushes p whole n lines code s t f m v rest (x, u, g, stack_u, memory_u) =
    (x, u, λ fuel h. f fuel code ∙ g fuel h, stack_u, memory_u ∙ m)

pub push_af-Pushes :
    (p : Platform)
    → (whole : List Line) → (s : Cpu) → Pushes p whole 0 (plain (push af) ∷ []) s s.a s.stack
unfolding Pushes exec
push_af-Pushes p whole s = (s.f, _, λ fuel h. refl, refl, refl)

pub if_elim {ℓ κ} :
    {A : Type ℓ}
    → (P : A → Type κ) → (b : Bool) → (x y : A) → (b ≡ true → P x)
    → (b ≡ false → P y)
    → P (if b then x else y)
if_elim P true x y f g = f refl
if_elim P false x y f g = g refl

-- One instruction that leaves its result in A, and the stack and the memory alone
pub plain-Pushes :
    (p : Platform)
    → (whole : List Line) → (i : Instruction) → (s t : Cpu)
    → ((fuel : ℕ)
        → (code : List Line) → exec p whole fuel (plain i ∷ code) s ≡ exec p whole fuel code t)
    → t.memory ≡ s.memory
    → t.stack ≡ s.stack
    → (v : ℕ) → t.a ≡ v
    → Pushes p whole 0 (plain i ∷ plain (push af) ∷ []) s v s.stack
unfolding Pushes exec
plain-Pushes p whole i s t f m k v e =
    (t.f, _, λ fuel h. f fuel (plain (push af) ∷ []), rw (e, k) refl, m)

pub Pushes-≡ :
    (p : Platform)
    → (whole : List Line) → (n : ℕ) → (code : List Line) → (s : Cpu) → (v w : ℕ)
    → (rest stack : Stack) → Pushes p whole n code s v rest
    → v ≡ w
    → rest ≡ stack
    → Pushes p whole n code s w stack
Pushes-≡ p whole n code s v w rest stack h e k = rw (sym e, sym k) h

-- Several lines with the same effect
pub lines-Pushes :
    (p : Platform)
    → (whole lines : List Line) → (s t : Cpu) → Runs p whole lines s t
    → t.memory ≡ s.memory
    → t.stack ≡ s.stack
    → (v : ℕ) → t.a ≡ v
    → Pushes p whole 0 (lines ++ plain (push af) ∷ []) s v s.stack
lines-Pushes p whole lines s t f m k v e =
    Runs-Pushes p whole 0 lines (plain (push af) ∷ []) s t f m v s.stack (
      Pushes-≡ p whole 0 (plain (push af) ∷ []) t t.a v t.stack s.stack (push_af-Pushes p whole t) e
        k)
