-- ===== src/Backend/Operand/FetchA.antt =====
-- src/arch/z80/backend/_8bit.py: `get_oper` brings its first operand into A.
use zxbasic.Prelude.{
  ℕ, ◌≡◌, refl, ap, ◌∙◌, Bool, true, false, not, List, [], ◌∷◌, some, if◌then◌else◌, arith,
}
use zxbasic.Prelude.Xor.{bit_xor_self}
use zxbasic.Prelude.Int.{ℤ, pos, negsuc}
use zxbasic.Backend.Machine.{
  Reg8, Reg16, af, bc, de, hl, set_pair, symbol, reg, byte, at_reg, at_address, alu, xor_a, ld_word,
  pop, plain, Platform, Cpu, next, join, exec, Line,
}
use zxbasic.Backend.Operand.{Base, int, name, is_id, int8, is_0, ld_a, fetch_a}
use zxbasic.Backend.Operand.Meaning.{
  Stack, popped_byte, popped_pointer, word_at, value_of_base, Runs, Runs-append,
}

-- A is `v`, and the stack is `rest`; H stays, if `keeps`.
abbrev pub LoadsA : Platform → List Line → Bool → List Line → Cpu → ℕ → Stack → Type 0
LoadsA p whole keeps lines s v rest =
    (t : Cpu) × Runs p whole lines s t
    × (t.a ≡ v)
    × (t.stack ≡ rest)
    × (t.memory ≡ s.memory)
    × (keeps ≡ true → t.h ≡ s.h)

-- A word comes off the stack, and the byte that it points to is read.
pub pop-Runs :
    (p : Platform)
    → (whole : List Line) → (r : Reg16) → (s : Cpu) → (x y : ℕ) → (rest : Stack)
    → s.stack ≡ (x, y) ∷ rest
    → Runs p whole (plain (pop r) ∷ []) s (set_pair r x y (record s { stack = rest }))
unfolding Runs exec
pop-Runs p whole af s x y rest k fuel code = rw k refl
pop-Runs p whole bc s x y rest k fuel code = rw k refl
pop-Runs p whole de s x y rest k fuel code = rw k refl
pop-Runs p whole hl s x y rest k fuel code = rw k refl

at_reg-LoadsA :
    (p : Platform)
    → (whole : List Line) → (r : Reg16) → (s : Cpu) → (x y : ℕ)
    → (t : Cpu) × Runs p whole (ld_a (at_reg r) ∷ []) (set_pair r x y s) t
      × (t.a ≡ s.memory (join (x, y)))
      × (t.stack ≡ s.stack)
      × (t.memory ≡ s.memory)
unfolding Runs exec
at_reg-LoadsA p whole af s x y = (_, λ fuel code. refl, refl, refl, refl)
at_reg-LoadsA p whole bc s x y = (_, λ fuel code. refl, refl, refl, refl)
at_reg-LoadsA p whole de s x y = (_, λ fuel code. refl, refl, refl, refl)
at_reg-LoadsA p whole hl s x y = (_, λ fuel code. refl, refl, refl, refl)

through-LoadsA :
    (p : Platform)
    → (whole : List Line) → (r : Reg16) → (first : Line) → (s u : Cpu) → (x y : ℕ)
    → u.memory ≡ s.memory
    → Runs p whole (first ∷ []) s (set_pair r x y u)
    → LoadsA p whole false (first ∷ ld_a (at_reg r) ∷ []) s (s.memory (join (x, y))) u.stack
through-LoadsA p whole r first s u x y m f =
    let (t, g, value_t, stack_t, memory_t) = at_reg-LoadsA p whole r u x y in
    (
      t,
      Runs-append p whole (first ∷ []) (ld_a (at_reg r) ∷ []) s (set_pair r x y u) t f g,
      value_t ∙ ap (λ (k : ℕ → ℕ). k (join (x, y))) m,
      stack_t,
      memory_t ∙ m,
      λ k. ground arith,
    )

popped-LoadsA :
    (p : Platform)
    → (whole : List Line) → (s : Cpu) → (stack : Stack) → s.stack ≡ stack
    → (v : ℕ) → (rest : Stack) → popped_byte stack ≡ some (v, rest)
    → LoadsA p whole true (plain (pop af) ∷ []) s v rest
unfolding set_pair
popped-LoadsA p whole s [] k v rest e = cc
popped-LoadsA p whole s ((x, y) ∷ stack) k v rest e = (
  _,
  pop-Runs p whole af s x y stack k,
  ground arith,
  ground arith,
  ground arith,
  λ k. ground arith,
)

pointed-LoadsA :
    (p : Platform)
    → (whole : List Line) → (idx : Reg16) → (s : Cpu) → (stack : Stack) → s.stack ≡ stack
    → (v : ℕ) → (rest : Stack) → popped_pointer s.memory stack ≡ some (v, rest)
    → LoadsA p whole false (plain (pop idx) ∷ ld_a (at_reg idx) ∷ []) s v rest
pointed-LoadsA p whole idx s [] k v rest e = cc
pointed-LoadsA p whole idx s ((x, y) ∷ stack) k v rest e =
    let (t, g, value_t, stack_t, kept, k_h) =
      through-LoadsA p whole idx (plain (pop idx)) s (record s { stack = stack }) x y refl
        (pop-Runs p whole idx s x y stack k) in
    (t, g, ground arith, ground arith, kept, k_h)

int8_0 : (n : ℤ) → is_0 n ≡ true → int8 n ≡ 0
unfolding int8
int8_0 (pos n) k = ground arith
int8_0 (negsuc n) k = ground arith

pub fetch_a-LoadsA :
    (p : Platform)
    → (whole : List Line) → (idx : Reg16) → (indirect immediate : Bool) → (x : Base) → (s : Cpu)
    → (v : ℕ) → (rest : Stack)
    → value_of_base p s.memory s.stack indirect immediate x ≡ some (v, rest)
    → LoadsA p whole (not indirect) (fetch_a idx indirect immediate x) s v rest
unfolding Runs fetch_a value_of_base exec
fetch_a-LoadsA p whole idx true immediate (int n) s v rest e =
    (_, λ fuel code. refl, ground arith, ground arith, ground arith, λ k. ground arith)
fetch_a-LoadsA p whole idx false immediate (int n) s v rest e =
    elim (is_0 n)
        as (λ b.
          is_0 n ≡ b
          → LoadsA p whole true
              (if b then plain (alu xor_a (reg Reg8.a)) ∷ [] else ld_a (byte (int8 n)) ∷ []) s v
              rest) [
                | true ↦ λ k. (
                  _,
                  λ fuel code. refl,
                  ground (arith, bit_xor_self s.a, int8_0 n k),
                  ground arith,
                  ground arith,
                  λ k. ground arith,
                )
                | false ↦ λ k. (
                  _,
                  λ fuel code. refl,
                  ground arith,
                  ground arith,
                  ground arith,
                  λ k. ground arith,
                )
              ]
      refl
fetch_a-LoadsA p whole idx true true (name x) s v rest e =
    (_, λ fuel code. refl, ground arith, ground arith, ground arith, λ k. ground arith)
fetch_a-LoadsA p whole idx false true (name x) s v rest e =
    (_, λ fuel code. refl, ground arith, ground arith, ground arith, λ k. ground arith)
fetch_a-LoadsA p whole idx true false (name x) s v rest e =
    elim (is_id x)
        as (λ b.
          (if b
              then some (s.memory (word_at s.memory (p.address x)), s.stack)
              else popped_pointer s.memory s.stack)
            ≡ some (v, rest)
          → LoadsA p whole false
              (if b
                then plain (ld_word idx (symbol x)) ∷ ld_a (at_reg idx) ∷ []
                else plain (pop idx) ∷ ld_a (at_reg idx) ∷ [])
              s v rest) [
                | true ↦ λ k.
                    let (t, g, value_t, stack_t, kept, k_h) =
                      through-LoadsA p whole idx (plain (ld_word idx (symbol x))) s s
                        (s.memory (next (p.address x))) (s.memory (p.address x)) refl
                        (λ fuel code. refl) in
                    (t, g, ground arith, ground arith, kept, k_h)
                | false ↦ pointed-LoadsA p whole idx s s.stack refl v rest
              ]
      e
fetch_a-LoadsA p whole idx false false (name x) s v rest e =
    elim (is_id x)
        as (λ b.
          (if b then some (s.memory (p.address x), s.stack) else popped_byte s.stack)
            ≡ some (v, rest)
          → LoadsA p whole true
              (if b then ld_a (at_address (symbol x)) ∷ [] else plain (pop Reg16.af) ∷ []) s v
              rest) [
                | true ↦ λ k. (
                  _,
                  λ fuel code. refl,
                  ground arith,
                  ground arith,
                  ground arith,
                  λ k. ground arith,
                )
                | false ↦ popped-LoadsA p whole s s.stack refl v rest
              ]
      e
