-- ===== src/Prelude/Monad.antt =====
-- Chains of steps that may fail, and what they return. `none` is a raised exception.
use mathlib.Core.Path.{◌≡◌, refl}
use mathlib.Core.Option.{Option, none, some}
use mathlib.Core.Bool.{Bool, true, false}

infixl 5 ◌>>=◌ ◌>>◌
abbrev pub ◌>>=◌ {ℓ κ} : {A : Type ℓ} {B : Type κ} → Option A → (A → Option B) → Option B
none >>= f = none
some a >>= f = f a

abbrev pub ◌>>◌ {ℓ} : {B : Type ℓ} → Option (Unit {0}) → Option B → Option B
m >> k = m >>= λ _. k

abbrev pub assert : Bool → Option (Unit {0})
assert true = some tt
assert false = none

-- The step succeeds, and its result satisfies the predicate.
pub record Returns {ℓ κ} {A : Type ℓ} (P : A → Type κ) (r : Option A) : Type (ℓ ⊔ κ) where
  pub value : A
  pub returns : r ≡ some value
  pub holds : P value

pub Returns-some {ℓ κ} : {A : Type ℓ} (P : A → Type κ) (a : A) → P a → Returns P (some a)
Returns-some P a h = record { value = a; returns = refl; holds = h }

pub Returns-bind {ℓ κ μ ν} :
    {A : Type ℓ} {B : Type κ} (P : A → Type μ) (Q : B → Type ν) (r : Option A) (f : A → Option B)
    → Returns P r
    → ((a : A) → P a → Returns Q (f a))
    → Returns Q (r >>= f)
Returns-bind P Q r f h k =
    let next = k h.value h.holds in
    record { value = next.value; returns = rw h.returns next.returns; holds = next.holds }
