-- ===== src/Backend/Bits8/Arithmetic/Remainders.antt =====
-- src/arch/z80/backend/_8bit.py: `modu8` and `modi8` push the remainder of two bytes.
use Prim.Native.Nat.{bit_and}
use native.Mathlib.Nat.{zero-mod}
use zxbasic.Prelude.Xor.{bit_xor_self}
use zxbasic.Prelude.{
  ℕ, ◌-◌, ◌%◌, ◌<◌, ◌≡◌, refl, sym, ap, ◌∙◌, Bool, true, false, ◌==◌, List, [], ◌∷◌, ◌++◌, Option,
  none, some, if◌then◌else◌, arith, some_eq, all_below, all_below-true, ==_iff,
}
use zxbasic.Prelude.Int.{ℤ}
use zxbasic.Backend.Machine.{
  Routine, reg, byte, alu, and_a, xor_a, plain, call, modu8_fast, modi8_fast, Platform, Cpu, Line,
  exec,
}
use zxbasic.Backend.Operand.{Operand, int8, ld_h, is_int, is_global}
use zxbasic.Backend.Operand.Meaning.{Stack, value, Runs}
use zxbasic.Backend.Operand.Fixed.{is_global-Fixed}
use zxbasic.Backend.Operand.Pushes.{Pushes, Runs-Pushes, Pushes-≡, lines-Pushes, if_elim}
use zxbasic.Backend.Operand.Fetched.{Given, Given-lt, one-Pushes, int_second}
use zxbasic.Backend.Bits8.Arithmetic.{push_af, a, is_2n, mod_int, mod_ops, modu8, modi8}
use zxbasic.Backend.Bits8.Arithmetic.Products.{Computes, call-Pushes}
use zxbasic.Backend.Bits8.Arithmetic.Quotients.{IsPositive, divide_names-Pushes}
use zxbasic.Backend.Bits8.Arithmetic.SignedQuotients.{magnitude}

-- Of a byte, `and` with a power of two less one is the remainder.
and_mask-below :
    (n : ℕ)
    → all_below 256 (λ v. bit_and v (n - 1) == v % n) ≡ true
    → (v : ℕ) → v < 256
    → bit_and v (n - 1) ≡ v % n
and_mask-below n h v l =
    (==_iff (bit_and v (n - 1)) (v % n)).0
      (all_below-true 256 (λ (x : ℕ). bit_and x (n - 1) == x % n) h v l)

and_mask : (n : ℕ) → is_2n n ≡ true → (v : ℕ) → v < 256 → bit_and v (n - 1) ≡ v % n
unfolding is_2n
and_mask n k v l = ground (
  arith,
  and_mask-below 1 refl v l,
  and_mask-below 2 refl v l,
  and_mask-below 4 refl v l,
  and_mask-below 8 refl v l,
  and_mask-below 16 refl v l,
  and_mask-below 32 refl v l,
  and_mask-below 64 refl v l,
  and_mask-below 128 refl v l,
)

-- By a constant that is a power of two: the remainder of the unsigned value
unfoldable pub is_masked : Option ℤ → Bool
unfolding is_2n
is_masked none = false
is_masked (some n) = is_2n (int8 n)

mod_int-Pushes :
    (p : Platform)
    → (whole : List Line) → (r : Routine) → (f : ℕ → ℕ → ℕ) → Computes p r IsPositive f
    → (s : Cpu) → (op : Operand) → (v n w : ℕ) → (rest : Stack)
    → value p s.memory s.stack op ≡ some (v, rest)
    → v < 256
    → 0 < n
    → (is_2n n ≡ true → w ≡ v % n)
    → (is_2n n ≡ false → w ≡ f v n)
    → Pushes p whole 0 (mod_int r op n) s w rest
unfolding mod_int is_2n exec Runs
mod_int-Pushes p whole r f c s op v n w rest e lt pos_n masked other =
    let P : List Line → Type 0 = λ code. Pushes p whole 0 code s w rest in
    if_elim P (n == 1) _ _
      (λ k.
        if_elim
          (λ (lines : List Line).
            Pushes p whole 0 (lines ++ plain (alu xor_a (reg a)) ∷ push_af) s w rest)
          (is_global op) _ _
          (λ glob.
            let (x, fixed) = is_global-Fixed p s.memory op glob in
            let st : s.stack ≡ rest =
              ap (λ (y : ℕ × Stack). y.1) (some_eq (sym (fixed s.stack) ∙ e)) in
            Pushes-≡ p whole 0 _ s 0 _ s.stack _
              (lines-Pushes p whole (plain (alu xor_a (reg a)) ∷ []) s _ (λ fuel code. refl) refl
                refl 0 (bit_xor_self s.a))
              (ground (arith, masked)) st)
          (λ glob.
            one-Pushes p whole 0 (plain (alu xor_a (reg a)) ∷ push_af) op s v w rest e (λ t a_t.
              lines-Pushes p whole (plain (alu xor_a (reg a)) ∷ []) t _ (λ fuel code. refl) refl
                refl w (bit_xor_self t.a ∙ ground (arith, masked)))))
      (λ k.
        if_elim P (is_2n n) _ _
          (λ k2.
            one-Pushes p whole 0 (plain (alu and_a (byte (n - 1))) ∷ push_af) op s v w rest e
              (λ t a_t.
                lines-Pushes p whole (plain (alu and_a (byte (n - 1))) ∷ []) t _ (λ fuel code. refl)
                  refl refl w (and_mask n k2 t.a (rw a_t lt) ∙ rw a_t (sym (masked k2)))))
          (λ k2. one-Pushes p whole 0 (ld_h (byte n) ∷ call r ∷ push_af) op s v w rest e (λ t a_t.
            Runs-Pushes p whole 0 (ld_h (byte n) ∷ []) (call r ∷ push_af) t (record t { h = n })
              (λ fuel code. refl) refl _ _
              (Pushes-≡ p whole 0 _ (record t { h = n }) _ _ t.stack _
                (call-Pushes p whole r IsPositive f c (record t { h = n }) pos_n)
                (rw a_t (sym (other k2))) refl))))

mod_ops-Pushes :
    (p : Platform)
    → (whole : List Line) → (r : Routine) → (f : ℕ → ℕ → ℕ) → Computes p r IsPositive f
    → ((v : ℕ) → v < 256 → 0 < v → f 0 v ≡ 0)
    → (s : Cpu) → (op1 op2 : Operand) → (v1 v2 : ℕ) → (rest : Stack) → Given p s op1 op2 v1 v2 rest
    → 0 < v2
    → (o : Option ℤ) → is_int op2 ≡ o
    → (w : ℕ) → (is_masked o ≡ true → w ≡ v1 % v2)
    → (is_masked o ≡ false → w ≡ f v1 v2)
    → Pushes p whole 0 (mod_ops r op1 op2 o) s w rest
unfolding mod_ops is_masked
mod_ops-Pushes p whole r f c zero_by s op1 op2 v1 v2 rest g pos2 none k w masked other =
    Pushes-≡ p whole 0 _ s _ _ rest _
      (divide_names-Pushes p whole r f c zero_by s op1 op2 v1 v2 rest g pos2) (sym (other refl))
      refl
mod_ops-Pushes p whole r f c zero_by s op1 op2 v1 v2 rest g pos2 (some n) k w masked other =
    let (i, e) = int_second p s op1 op2 v1 v2 rest n k g in
    let (lt1, lt2) = Given-lt p s op1 op2 v1 v2 rest g in
    mod_int-Pushes p whole r f c s op1 v1 (int8 n) w rest e lt1 (omega arith) (λ q. rw i (masked q))
      (λ q. rw i (other q))

-- Where the routine MODU8_FAST puts the remainder of A by H, if H is not 0, in A and leaves the stack
-- and the memory alone, the code of `modu8` runs to its end with no jump, takes the two operands (not
-- indirect ones, the second not 0) and pushes the remainder of their values; the memory is as it was.
pub modu8-Pushes :
    (p : Platform)
    → Computes p modu8_fast IsPositive ◌%◌
    → (s : Cpu) → (op1 op2 : Operand) → (v1 v2 : ℕ) → (rest : Stack) → Given p s op1 op2 v1 v2 rest
    → 0 < v2
    → Pushes p (modu8 op1 op2) 0 (modu8 op1 op2) s (v1 % v2) rest
unfolding modu8
modu8-Pushes p c s op1 op2 v1 v2 rest g pos2 =
    mod_ops-Pushes p (modu8 op1 op2) modu8_fast ◌%◌ c (λ v l q. zero-mod v) s op1 op2 v1 v2 rest g
      pos2 (is_int op2) refl _ (λ k. refl) (λ k. refl)

-- What MODI8_FAST does: the remainder of the magnitudes, which is never negative
abbrev pub signed_remainder : ℕ → ℕ → ℕ
signed_remainder x y = magnitude x % magnitude y

-- Where the routine MODI8_FAST puts the remainder of the magnitudes of signed bytes in A and leaves
-- the stack and the memory alone, the code of `modi8` runs to its end with no jump, takes the two
-- operands (not indirect ones, the second not 0), and pushes that remainder of their values, unless the
-- second operand is a constant that is a power of two: then it is the remainder of the values as
-- unsigned bytes. The memory is as it was.
pub modi8-Pushes :
    (p : Platform)
    → Computes p modi8_fast IsPositive signed_remainder
    → (s : Cpu) → (op1 op2 : Operand) → (v1 v2 : ℕ) → (rest : Stack) → Given p s op1 op2 v1 v2 rest
    → 0 < v2
    → (w : ℕ) × Pushes p (modi8 op1 op2) 0 (modi8 op1 op2) s w rest
      × (is_masked (is_int op2) ≡ true → w ≡ v1 % v2)
      × (is_masked (is_int op2) ≡ false → w ≡ signed_remainder v1 v2)
unfolding modi8
modi8-Pushes p c s op1 op2 v1 v2 rest g pos2 =
    let b = is_masked (is_int op2) in
    let w = if b then v1 % v2 else signed_remainder v1 v2 in
    let masked : b ≡ true → w ≡ v1 % v2 =
      λ k. ap (λ (x : Bool). if x then v1 % v2 else signed_remainder v1 v2) k in
    let other : b ≡ false → w ≡ signed_remainder v1 v2 =
      λ k. ap (λ (x : Bool). if x then v1 % v2 else signed_remainder v1 v2) k in
    (
      w,
      mod_ops-Pushes p (modi8 op1 op2) modi8_fast signed_remainder c
          (λ v l q. zero-mod (magnitude v)) s op1 op2 v1 v2 rest g pos2 (is_int op2) refl w masked
          other,
      masked,
      other,
    )
