-- ===== src/Backend/Bits8/Transfer/Jumps.antt =====
-- src/arch/z80/backend/_8bit.py: the conditional jumps.
use zxbasic.Prelude.Bits.{bit_or_self}
use zxbasic.Prelude.{
  ℕ, ◌<◌, ◌≡◌, refl, sym, ap, ◌∙◌, Bool, true, false, not, ◌==◌, ltb, List, [], ◌∷◌, ◌++◌, Option,
  none, some, if◌then◌else◌, arith,
}
use zxbasic.Prelude.Int.{ℤ}
use zxbasic.Backend.Machine.{
  Condition, reg, alu, add, or_a, plain, jp, Outcome, always, when_z, when_nz, when_nc,
  falls_through, jumps, Platform, Cpu, Line, exec, flags, carry, is_zero, holds,
}
use zxbasic.Backend.Operand.{Operand, int8, is_int, get_oper}
use zxbasic.Backend.Operand.Meaning.{Stack, Sound, value, Runs}
use zxbasic.Backend.Operand.Values.{value-lt}
use zxbasic.Backend.Operand.Fixed.{is_int-Fixed}
use zxbasic.Backend.Operand.FetchH.{get_oper-LoadsA}
use zxbasic.Backend.Bits8.Arithmetic.{a, is}
use zxbasic.Backend.Bits8.Transfer.{
  decided, is_natural, jzero_ops, jzero8, jnzero_ops, jnzero8, jgezerou_ops, jgezerou8,
  jgezeroi_ops, jgezeroi8,
}

-- The code jumps to the label exactly if `b`, or else comes to its end; `rest` is on the stack then, and
-- the memory is as it was.
unfoldable pub Leaves : Platform → List Line → Cpu → Bool → List ℕ → Stack → Type 0
Leaves p code s b lbl rest =
    (t : Cpu) × ((fuel : ℕ)
      → exec p code fuel code s ≡ some (if b then jumps lbl t else falls_through t))
    × (t.stack ≡ rest)
    × (t.memory ≡ s.memory)

decided-Leaves :
    (p : Platform)
    → (s : Cpu) → (b : Bool) → (lbl : List ℕ) → (rest : Stack) → s.stack ≡ rest
    → Leaves p (decided b lbl) s b lbl rest
unfolding Leaves decided exec
decided-Leaves p s true lbl rest e = (s, λ fuel. refl, e, refl)
decided-Leaves p s false lbl rest e = (s, λ fuel. refl, e, refl)

some_if : (b : Bool) → (x y : Outcome) → (if b then some x else some y) ≡ some (if b then x else y)
some_if true x y = refl
some_if false x y = refl

-- The operand, one instruction that sets F, and the jump
tested-Leaves :
    (p : Platform)
    → (i : Line) → (c : Condition) → (b : Bool) → (lbl : List ℕ) → (op : Operand) → (s : Cpu)
    → (v : ℕ) → (rest : Stack) → value p s.memory s.stack op ≡ some (v, rest)
    → ((t : Cpu)
        → t.a ≡ v
        → (u : Cpu) × Runs p (get_oper op ++ i ∷ jp c lbl ∷ []) (i ∷ []) t u
          × (holds c u ≡ b)
          × (u.stack ≡ t.stack)
          × (u.memory ≡ t.memory))
    → Leaves p (get_oper op ++ i ∷ jp c lbl ∷ []) s b lbl rest
unfolding Leaves exec Runs
tested-Leaves p i c b lbl op s v rest e f =
    let whole : List Line = get_oper op ++ i ∷ jp c lbl ∷ [] in
    let (t, runs, a_t, stack_t, memory_t, kept) = get_oper-LoadsA p whole op s v rest e in
    let (u, runs2, b_u, stack_u, memory_u) = f t a_t in
    (
      u,
      λ fuel.
          runs fuel (i ∷ jp c lbl ∷ [])
          ∙ runs2 fuel (jp c lbl ∷ [])
          ∙ rw b_u (some_if b (jumps lbl u) (falls_through u)),
      stack_u ∙ stack_t,
      memory_u ∙ memory_t,
    )

-- The integers whose byte says as much about 0 as they do
abbrev pub ZeroAsByte : Operand → Type 0
ZeroAsByte op = (n : ℤ) → is_int op ≡ some n → is 0 n ≡ (int8 n == 0)

-- The integers whose byte has their sign
abbrev pub SignAsByte : Operand → Type 0
SignAsByte op = (n : ℤ) → is_int op ≡ some n → is_natural n ≡ ltb (int8 n) 128

int_value :
    (p : Platform)
    → (s : Cpu) → (op : Operand) → (n : ℤ) → is_int op ≡ some n
    → (v : ℕ) → (rest : Stack) → value p s.memory s.stack op ≡ some (v, rest)
    → (int8 n ≡ v) × (s.stack ≡ rest)
int_value p s op n k v rest e =
    let q : ◌≡◌ {A = Option (ℕ × Stack)} (some (int8 n, s.stack)) (some (v, rest)) =
      sym (is_int-Fixed p s.memory op n k s.stack) ∙ e in
    (cc, cc)

or_a-Leaves :
    (p : Platform)
    → (whole : List Line) → (t : Cpu) → (v : ℕ) → v < 256
    → t.a ≡ v
    → (u : Cpu) × Runs p whole (plain (alu or_a (reg a)) ∷ []) t u
      × (is_zero u ≡ (v == 0))
      × (u.stack ≡ t.stack)
      × (u.memory ≡ t.memory)
unfolding exec Runs flags
or_a-Leaves p whole t v l e = (_, λ fuel code. refl, ground (arith, bit_or_self t.a), refl, refl)

jzero_ops-Leaves :
    (p : Platform)
    → (s : Cpu) → (op : Operand) → (lbl : List ℕ) → (v : ℕ) → (rest : Stack) → v < 256
    → ZeroAsByte op
    → value p s.memory s.stack op ≡ some (v, rest)
    → (o : Option ℤ) → is_int op ≡ o
    → Leaves p (jzero_ops op lbl o) s (v == 0) lbl rest
      × Leaves p (jnzero_ops op lbl o) s (not (v == 0)) lbl rest
unfolding jzero_ops jnzero_ops holds
jzero_ops-Leaves p s op lbl v rest l narrow e none k = (
  tested-Leaves p _ when_z (v == 0) lbl op s v rest e (λ t a_t. or_a-Leaves p _ t v l a_t),
  tested-Leaves p _ when_nz (not (v == 0)) lbl op s v rest e (λ t a_t.
      let (u, runs, z, kept, kept') = or_a-Leaves p _ t v l a_t in
      (u, runs, ap not z, kept, kept')),
)
jzero_ops-Leaves p s op lbl v rest l narrow e (some n) k =
    let (i, st) = int_value p s op n k v rest e in
    let same : is 0 n ≡ (v == 0) = narrow n k ∙ ap (λ (x : ℕ). x == 0) i in
    (
      rw same (decided-Leaves p s (v == 0) lbl rest st),
      rw same (decided-Leaves p s (not (v == 0)) lbl rest st),
    )

add_a-Leaves :
    (p : Platform)
    → (whole : List Line) → (t : Cpu) → (v : ℕ) → v < 256
    → t.a ≡ v
    → (u : Cpu) × Runs p whole (plain (alu add (reg a)) ∷ []) t u
      × ((carry u == 0) ≡ ltb v 128)
      × (u.stack ≡ t.stack)
      × (u.memory ≡ t.memory)
unfolding exec Runs flags
add_a-Leaves p whole t v l e = (_, λ fuel code. refl, ground arith, refl, refl)

jgezeroi_ops-Leaves :
    (p : Platform)
    → (s : Cpu) → (op : Operand) → (lbl : List ℕ) → (v : ℕ) → (rest : Stack) → v < 256
    → SignAsByte op
    → value p s.memory s.stack op ≡ some (v, rest)
    → (o : Option ℤ) → is_int op ≡ o
    → Leaves p (jgezeroi_ops op lbl o) s (ltb v 128) lbl rest
unfolding jgezeroi_ops holds
jgezeroi_ops-Leaves p s op lbl v rest l narrow e none k =
    tested-Leaves p _ when_nc (ltb v 128) lbl op s v rest e (λ t a_t. add_a-Leaves p _ t v l a_t)
jgezeroi_ops-Leaves p s op lbl v rest l narrow e (some n) k =
    let (i, st) = int_value p s op n k v rest e in
    let same : is_natural n ≡ ltb v 128 = narrow n k ∙ ap (λ (x : ℕ). ltb x 128) i in
    rw same (decided-Leaves p s (ltb v 128) lbl rest st)

jgezerou_ops-Leaves :
    (p : Platform)
    → (s : Cpu) → (op : Operand) → (lbl : List ℕ) → (v : ℕ) → (rest : Stack)
    → value p s.memory s.stack op ≡ some (v, rest)
    → (o : Option ℤ) → is_int op ≡ o
    → Leaves p (jgezerou_ops op lbl o) s true lbl rest
unfolding jgezerou_ops Leaves exec Runs
jgezerou_ops-Leaves p s op lbl v rest e none k =
    let (t, runs, a_t, stack_t, memory_t, kept) =
      get_oper-LoadsA p (get_oper op ++ jp always lbl ∷ []) op s v rest e in
    (t, λ fuel. runs fuel (jp always lbl ∷ []), stack_t, memory_t)
jgezerou_ops-Leaves p s op lbl v rest e (some n) k =
    (s, λ fuel. refl, (int_value p s op n k v rest e).1, refl)

-- The codes of `jzero8`, `jnzero8`, `jgezerou8` and `jgezeroi8` take the operand and jump to the label
-- exactly if its value is 0, is not 0, in any case, and is not negative as a signed byte; or else they
-- come to their ends. That needs of an integer operand that its byte says as much about 0, and about
-- the sign. The memory is as it was.
pub jump-Leaves :
    (p : Platform)
    → (s : Cpu) → Sound p s
    → (op : Operand) → (lbl : List ℕ) → (v : ℕ) → (rest : Stack) → ZeroAsByte op
    → SignAsByte op
    → value p s.memory s.stack op ≡ some (v, rest)
    → Leaves p (jzero8 op lbl) s (v == 0) lbl rest
      × Leaves p (jnzero8 op lbl) s (not (v == 0)) lbl rest
      × Leaves p (jgezerou8 op lbl) s true lbl rest
      × Leaves p (jgezeroi8 op lbl) s (ltb v 128) lbl rest
unfolding jzero8 jnzero8 jgezerou8 jgezeroi8
jump-Leaves p s sound op lbl v rest zero_as sign_as e =
    let l = (value-lt p s.memory sound.memory-lt s.stack sound.stack-lt op v rest e).0 in
    let (z, nz) = jzero_ops-Leaves p s op lbl v rest l zero_as e (is_int op) refl in
    (
      z,
      nz,
      jgezerou_ops-Leaves p s op lbl v rest e (is_int op) refl,
      jgezeroi_ops-Leaves p s op lbl v rest l sign_as e (is_int op) refl,
    )
