-- ===== src/Prelude/Xor.antt =====
-- The laws of `^` on numbers that a checksum needs: `x ^ x` is 0, and bytes stay bytes.
use Prim.Native.Nat.{
  ℕ, zero, suc, ◌/◌, ◌%◌, ◌^◌, ◌≤◌, ◌<◌, bit_xor, digits, differ, bit_xor-bitwise,
}
use native.Mathlib.Nat.{pow-suc, le_refl}
use mathlib.Core.Path.{◌≡◌, refl}
use native.Mathlib.Omega.{arith}

differ_self : (x : ℕ) → differ x x ≡ 0
differ_self zero = refl
differ_self (suc x) = differ_self x

differ-lt-two : (x y : ℕ) → x < 2 → y < 2 → differ x y < 2
differ-lt-two zero y p q = q
differ-lt-two (suc x) zero p q = p
differ-lt-two (suc x) (suc y) p q = differ-lt-two x y (omega arith) (omega arith)

abbrev xor_digits : ℕ → ℕ → ℕ → ℕ
xor_digits = digits (λ b. b) differ

xor_digits_self : (n a : ℕ) → a ≤ n → xor_digits n a a ≡ 0
xor_digits_self zero zero h = refl
xor_digits_self zero (suc a) h = absurd (omega arith)
xor_digits_self (suc n) zero h = refl
xor_digits_self (suc n) (suc a) h =
    omega (arith, xor_digits_self n (suc a / 2) (omega arith), differ_self (suc a % 2))

xor_digits-lt : (k n a b : ℕ) → a ≤ n → a < 2 ^ k → b < 2 ^ k → xor_digits n a b < 2 ^ k
xor_digits-lt k zero zero b h p q = q
xor_digits-lt k zero (suc a) b h p q = absurd (omega arith)
xor_digits-lt k (suc n) zero b h p q = q
xor_digits-lt zero (suc n) (suc a) b h p q = absurd (omega arith)
xor_digits-lt (suc k) (suc n) (suc a) b h p q =
    let two = pow-suc 2 k in
    omega (
      arith,
      two,
      xor_digits-lt k n (suc a / 2) (b / 2) (omega arith) (omega (arith, two)) (omega (arith, two)),
      differ-lt-two (suc a % 2) (b % 2) (omega arith) (omega arith),
    )

pub bit_xor_self : (a : ℕ) → bit_xor a a ≡ 0
bit_xor_self a = simp bit_xor-bitwise (xor_digits_self a a (le_refl a))

pub bit_xor-lt : (k a b : ℕ) → a < 2 ^ k → b < 2 ^ k → bit_xor a b < 2 ^ k
bit_xor-lt k a b p q = simp bit_xor-bitwise (xor_digits-lt k a a b (le_refl a) p q)
