-- ===== src/Backend/Machine.antt =====
-- The Z80 as far as the code of src/arch/z80/backend uses it: what the lines of Machine/Lines, which
-- the generator emits, do.
mod Lines
pub use Lines.*
use Prim.Native.Nat.{bit_and, bit_or}
use zxbasic.Prelude.{
  ℕ, zero, suc, ◌+◌, ◌-◌, ◌*◌, ◌/◌, ◌%◌, Bool, true, false, not, ◌==◌, ltb, leb, List, [], ◌∷◌,
  Option, none, some, if◌then◌else◌, bit_xor,
}
use zxbasic.Prelude.Int.{ℤ, pos, negsuc}

-- The stack is a list of words, each with its high byte first. Of F there are the sign, the zero and
-- the carry; the generated code reads no other bit.
pub record Cpu : Type 0 where
  pub a : ℕ
  pub f : ℕ
  pub b : ℕ
  pub c : ℕ
  pub d : ℕ
  pub e : ℕ
  pub h : ℕ
  pub l : ℕ
  pub stack : List (ℕ × ℕ)
  pub memory : ℕ → ℕ

-- The addresses of the symbols, and what a routine of the runtime library does.
pub record Platform : Type 0 where
  pub address : List ℕ → ℕ
  pub routine : Routine → Cpu → Cpu

abbrev pub bit : Bool → ℕ
bit true = 1
bit false = 0

abbrev pub carry : Cpu → ℕ
carry s = s.f % 2

abbrev pub is_zero : Cpu → Bool
is_zero s = s.f / 64 % 2 == 1

-- F after a result, with a carry of 0 or 1
unfoldable pub flags : ℕ → ℕ → ℕ
flags r carried = bit (leb 128 r) * 128 + bit (r == 0) * 64 + carried

unfoldable pub flags16 : ℕ → ℕ → ℕ
flags16 n carried = bit (leb 32768 n) * 128 + bit (n == 0) * 64 + carried

abbrev pub word_of : ℤ → ℕ
word_of (pos n) = n % 65536
word_of (negsuc n) = 65535 - n % 65536

abbrev pub minus_one : ℕ → ℕ
minus_one n = (n + 65535) % 65536

abbrev pub next : ℕ → ℕ
next n = (n + 1) % 65536

get8 : Reg8 → Cpu → ℕ
get8 Reg8.a s = s.a
get8 Reg8.b s = s.b
get8 Reg8.c s = s.c
get8 Reg8.d s = s.d
get8 Reg8.e s = s.e
get8 Reg8.h s = s.h
get8 Reg8.l s = s.l

set8 : Reg8 → ℕ → Cpu → Cpu
set8 Reg8.a x s = record s { a = x }
set8 Reg8.b x s = record s { b = x }
set8 Reg8.c x s = record s { c = x }
set8 Reg8.d x s = record s { d = x }
set8 Reg8.e x s = record s { e = x }
set8 Reg8.h x s = record s { h = x }
set8 Reg8.l x s = record s { l = x }

pair_of : Reg16 → Cpu → ℕ × ℕ
pair_of af s = (s.a, s.f)
pair_of bc s = (s.b, s.c)
pair_of de s = (s.d, s.e)
pair_of hl s = (s.h, s.l)

unfoldable pub set_pair : Reg16 → ℕ → ℕ → Cpu → Cpu
set_pair af x y s = record s { a = x; f = y }
set_pair bc x y s = record s { b = x; c = y }
set_pair de x y s = record s { d = x; e = y }
set_pair hl x y s = record s { h = x; l = y }

abbrev pub join : ℕ × ℕ → ℕ
join (hi, lo) = hi * 256 + lo

unfoldable pub locate : Platform → Address → ℕ
locate p (number n) = word_of n
locate p (number_minus_one n) = minus_one (word_of n)
locate p (symbol x) = p.address x
locate p (symbol_minus_one x) = minus_one (p.address x)

read : Platform → Place → Cpu → ℕ
unfolding get8 pair_of locate
read p (reg r) s = get8 r s
read p (at_reg r) s = s.memory (join (pair_of r s))
read p (at_address n) s = s.memory (locate p n)
read p (byte n) s = n
read p (value_of x) s = p.address x % 256

unfoldable pub update : (ℕ → ℕ) → ℕ → ℕ → ℕ → ℕ
update memory n x k = if k == n then x else memory k

-- A constant cannot be written to.
write : Platform → Place → ℕ → Cpu → Cpu
unfolding set8 pair_of locate update
write p (reg r) x s = set8 r x s
write p (at_reg r) x s = record s { memory = update s.memory (join (pair_of r s)) x }
write p (at_address n) x s = record s { memory = update s.memory (locate p n) x }
write p (byte n) x s = s
write p (value_of y) x s = s

subtract : ℕ → ℕ → ℕ → Cpu → Cpu
unfolding flags
subtract x carried r s = record s { a = r; f = flags r (bit (ltb s.a (x + carried))) }

logic : ℕ → Cpu → Cpu
unfolding flags
logic r s = record s { a = r; f = flags r 0 }

run_alu : Alu → ℕ → Cpu → Cpu
unfolding flags subtract logic
run_alu add x s =
    let r = (s.a + x) % 256 in record s { a = r; f = flags r (bit (leb 256 (s.a + x))) }
run_alu sub x s = subtract x 0 ((s.a + 256 - x) % 256) s
run_alu cp x s = record s { f = flags ((s.a + 256 - x) % 256) (bit (ltb s.a x)) }
run_alu sbc x s = subtract x (carry s) ((s.a + 256 - x - carry s) % 256) s
run_alu and_a x s = logic (bit_and s.a x) s
run_alu or_a x s = logic (bit_or s.a x) s
run_alu xor_a x s = logic (bit_xor s.a x) s

-- `inc` and `dec` keep the carry, a shift gets the bit that falls out.
counted : Reg8 → ℕ → Cpu → Cpu
unfolding set8 flags
counted r x s = record (set8 r x s) { f = flags x (carry s) }

shifted : Reg8 → ℕ → ℕ → Cpu → Cpu
unfolding set8 flags
shifted r x carried s = record (set8 r x s) { f = flags x carried }

sign_bit : ℕ → ℕ
sign_bit x = if leb 128 x then 128 else 0

pop_word : Reg16 → List (ℕ × ℕ) → Cpu → Option Cpu
unfolding set_pair
pop_word r [] s = none
pop_word r ((x, y) ∷ rest) s = some (record (set_pair r x y s) { stack = rest })

step : Platform → Instruction → Cpu → Option Cpu
unfolding get8 set8 set_pair pair_of read write run_alu counted shifted sign_bit pop_word locate
    flags flags16
step p (ld to from) s = some (write p to (read p from s) s)
step p (ld_word r n) s = some (set_pair r (s.memory (next (locate p n))) (s.memory (locate p n)) s)
step p (ld_symbol r x) s = some (set_pair r (p.address x / 256) (p.address x % 256) s)
step p (ld_number r n) s = some (set_pair r (n / 256) (n % 256) s)
step p (alu op from) s = some (run_alu op (read p from s) s)
step p (inc r) s = some (counted r ((get8 r s + 1) % 256) s)
step p (dec r) s = some (counted r ((get8 r s + 255) % 256) s)
step p (srl r) s = some (shifted r (get8 r s / 2) (get8 r s % 2) s)
step p (sra r) s = some (shifted r (get8 r s / 2 + sign_bit (get8 r s)) (get8 r s % 2) s)
step p (inc_word r) s = let n = next (join (pair_of r s)) in some (set_pair r (n / 256) (n % 256) s)
step p (dec_word r) s =
    let n = minus_one (join (pair_of r s)) in some (set_pair r (n / 256) (n % 256) s)
step p (add_hl r) s =
    let n = join (pair_of hl s) + join (pair_of r s) in
    some (record s { h = n % 65536 / 256; l = n % 256; f = s.f - s.f % 2 + bit (leb 65536 n) })
step p (sbc_hl r) s =
    let taken = join (pair_of r s) + carry s in
    let n = (join (pair_of hl s) + 65536 - taken) % 65536 in
    some
      (record s { h = n / 256; l = n % 256; f = flags16 n (bit (ltb (join (pair_of hl s)) taken)) })
step p (push r) s = some (record s { stack = pair_of r s ∷ s.stack })
step p (pop r) s = pop_word r s.stack s
step p neg s =
    let r = (256 - s.a) % 256 in some (record s { a = r; f = flags r (bit (not (s.a == 0))) })
step p cpl s = some (record s { a = 255 - s.a })
step p ccf s = some (record s { f = s.f - s.f % 2 + (1 - s.f % 2) })
step p pragma_require_a s = some s

-- The code comes to its end, or leaves for a label outside it.
pub data Outcome : Type 0 where
  falls_through : Cpu → Outcome
  jumps : List ℕ → Cpu → Outcome

unfoldable pub after_label : ℕ → List Line → List Line
after_label n [] = []
after_label n (label k ∷ code) = let rest = after_label n code in if k == n then code else rest
after_label n (plain i ∷ code) = after_label n code
after_label n (djnz k ∷ code) = after_label n code
after_label n (jr_z k ∷ code) = after_label n code
after_label n (jp t x ∷ code) = after_label n code
after_label n (call r ∷ code) = after_label n code

unfoldable pub holds : Condition → Cpu → Bool
holds always s = true
holds when_z s = is_zero s
holds when_nz s = not (is_zero s)
holds when_nc s = carry s == 0

-- The fuel bounds the jumps to labels of the code, which is `whole`.
unfoldable pub exec : Platform → List Line → ℕ → List Line → Cpu → Option Outcome
unfolding step after_label holds
exec p whole fuel [] s = some (falls_through s)
exec p whole fuel (plain i ∷ code) s = elim (step p i s) [
  | none ↦ none
  | some s' ↦ exec p whole fuel code s'
]
exec p whole fuel (label n ∷ code) s = exec p whole fuel code s
exec p whole fuel (jp t x ∷ code) s =
    let rest = exec p whole fuel code s in if holds t s then some (jumps x s) else rest
exec p whole fuel (call r ∷ code) s = exec p whole fuel code (p.routine r s)
exec p whole zero (djnz n ∷ code) s = none
exec p whole (suc fuel) (djnz n ∷ code) s =
    let b' = (s.b + 255) % 256 in
    let back = exec p whole fuel (after_label n whole) (record s { b = b' }) in
    let on = exec p whole (suc fuel) code (record s { b = b' }) in if b' == 0 then on else back
exec p whole zero (jr_z n ∷ code) s = none
exec p whole (suc fuel) (jr_z n ∷ code) s =
    let away = exec p whole fuel (after_label n whole) s in
    let on = exec p whole (suc fuel) code s in if is_zero s then away else on
