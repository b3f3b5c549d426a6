-- ===== src/Prelude/Bits.antt =====
-- The laws of `|`, `&` and `^` on numbers and bytes that generated code relies on.
use Prim.Native.Nat.{
  ℕ, zero, suc, ◌-◌, ◌/◌, ◌≤◌, ◌<◌, bit_and, bit_or, bit_xor, digits, max, bit_or-bitwise,
}
use native.Mathlib.Nat.{le_refl}
use mathlib.Core.Path.{◌≡◌, refl}
use mathlib.Core.Bool.{true}
use native.Mathlib.Omega.{arith}
use zxbasic.Prelude.Tests.{◌==◌, ==_iff, all_below, all_below-true}

abbrev or_digits : ℕ → ℕ → ℕ → ℕ
or_digits = digits (λ b. b) max

or_digits-zero : (n a b : ℕ) → a ≤ n → or_digits n a b ≡ 0 → (a ≡ 0) × (b ≡ 0)
or_digits-zero zero zero b h e = (refl, e)
or_digits-zero zero (suc a) b h e = absurd (omega arith)
or_digits-zero (suc n) zero b h e = (refl, e)
or_digits-zero (suc n) (suc a) b h e =
    let (p, q) = or_digits-zero n (suc a / 2) (b / 2) (omega arith) (omega arith) in omega arith

pub bit_or_zero : (a b : ℕ) → bit_or a b ≡ 0 → (a ≡ 0) × (b ≡ 0)
bit_or_zero a b e = or_digits-zero a a b (le_refl a) (simp bit_or-bitwise at e)

-- An equation of bytes, by a test of each
pub byte_law :
    (f g : ℕ → ℕ) → all_below 256 (λ v. f v == g v) ≡ true → (v : ℕ) → v < 256 → f v ≡ g v
byte_law f g h v l = (==_iff (f v) (g v)).0 (all_below-true 256 (λ (x : ℕ). f x == g x) h v l)

pub bit_or_self : (v : ℕ) → v < 256 → bit_or v v ≡ v
bit_or_self = byte_law (λ v. bit_or v v) (λ v. v) refl

pub bit_or-zero : (v : ℕ) → v < 256 → bit_or v 0 ≡ v
bit_or-zero = byte_law (λ v. bit_or v 0) (λ v. v) refl

pub zero-bit_or : (v : ℕ) → v < 256 → bit_or 0 v ≡ v
zero-bit_or = byte_law (λ v. bit_or 0 v) (λ v. v) refl

pub bit_or-ones : (v : ℕ) → v < 256 → bit_or v 255 ≡ 255
bit_or-ones = byte_law (λ v. bit_or v 255) (λ v. 255) refl

pub ones-bit_or : (v : ℕ) → v < 256 → bit_or 255 v ≡ 255
ones-bit_or = byte_law (λ v. bit_or 255 v) (λ v. 255) refl

pub bit_and-ones : (v : ℕ) → v < 256 → bit_and v 255 ≡ v
bit_and-ones = byte_law (λ v. bit_and v 255) (λ v. v) refl

pub ones-bit_and : (v : ℕ) → v < 256 → bit_and 255 v ≡ v
ones-bit_and = byte_law (λ v. bit_and 255 v) (λ v. v) refl

pub bit_and-zero : (v : ℕ) → v < 256 → bit_and v 0 ≡ 0
bit_and-zero = byte_law (λ v. bit_and v 0) (λ v. 0) refl

pub zero-bit_and : (v : ℕ) → v < 256 → bit_and 0 v ≡ 0
zero-bit_and = byte_law (λ v. bit_and 0 v) (λ v. 0) refl

pub bit_xor-zero : (v : ℕ) → v < 256 → bit_xor v 0 ≡ v
bit_xor-zero = byte_law (λ v. bit_xor v 0) (λ v. v) refl

pub zero-bit_xor : (v : ℕ) → v < 256 → bit_xor 0 v ≡ v
zero-bit_xor = byte_law (λ v. bit_xor 0 v) (λ v. v) refl

pub bit_xor-ones : (v : ℕ) → v < 256 → bit_xor v 255 ≡ 255 - v
bit_xor-ones = byte_law (λ v. bit_xor v 255) (λ v. 255 - v) refl

pub ones-bit_xor : (v : ℕ) → v < 256 → bit_xor 255 v ≡ 255 - v
ones-bit_xor = byte_law (λ v. bit_xor 255 v) (λ v. 255 - v) refl
