-- ===== src/Prelude/Dict.antt =====
-- A Python dict as the list of its items in the order of insertion, over keys with an equality.
use mathlib.Core.Path.{◌≡◌, refl}
use mathlib.Core.Logic.{◌↔◌}
use mathlib.Core.Bool.{Bool, true, false, ◌&&◌}
use mathlib.Core.Option.{Option, none, some}
use mathlib.Core.List.{List, [], ◌∷◌}
use Prim.Native.Nat.{ℕ}
use native.Mathlib.Omega.{arith}
use zxbasic.Prelude.Tests.{◌==◌, if◌then◌else◌}
use zxbasic.Prelude.Int.{ℤ, pos, negsuc}
use zxbasic.Prelude.Text.{equal, equal_iff}

pub record Key {ℓ} (K : Type ℓ) : Type ℓ where
  pub same : K → K → Bool
  pub same_iff : (j k : K) → (same j k ≡ true) ↔ (j ≡ k)

instance abbrev pub text_key : Key (List ℕ)
text_key = record { same = equal; same_iff = equal_iff }

abbrev pub same_text : List ℕ → List ℕ → Bool
same_text = equal

abbrev pub same_place : List ℕ × ℕ → List ℕ × ℕ → Bool
same_place (f, a) (g, b) = equal f g && a == b

pub same_place_iff : (p q : List ℕ × ℕ) → (same_place p q ≡ true) ↔ (p ≡ q)
same_place_iff (f, a) (g, b) = ground (arith, equal_iff f g)

-- A line of a file.
instance abbrev pub place_key : Key (List ℕ × ℕ)
place_key = record { same = same_place; same_iff = same_place_iff }

abbrev pub same_ℤ : ℤ → ℤ → Bool
same_ℤ (pos a) (pos b) = a == b
same_ℤ (negsuc a) (negsuc b) = a == b
same_ℤ _ _ = false

pub same_ℤ_iff : (a b : ℤ) → (same_ℤ a b ≡ true) ↔ (a ≡ b)
same_ℤ_iff a b = ground arith

instance abbrev pub ℤ_key : Key ℤ
ℤ_key = record { same = same_ℤ; same_iff = same_ℤ_iff }

abbrev pub Dict {ℓ κ} : Type ℓ → Type κ → Type (ℓ ⊔ κ)
Dict K V = List (K × V)

module _ {ℓ κ} {K : Type ℓ} {V : Type κ} ⦃key : Key K⦄ where
  unfoldable pub get : Dict K V → K → Option V
  get [] k = none
  get ((j, v) ∷ d) k = if key.same j k then some v else get d k

  unfoldable pub put : Dict K V → K → V → Dict K V
  put [] k v = (k, v) ∷ []
  put ((j, w) ∷ d) k v = if key.same j k then (j, v) ∷ d else (j, w) ∷ put d k v

  pub get-put :
      (d : Dict K V) (k j : K) (v : V)
      → get (put d k v) j ≡ (if key.same k j then some v else get d j)
  unfolding get put
  get-put [] k j v = refl
  get-put ((i, w) ∷ d) k j v =
      ground (arith, key.same_iff i k, key.same_iff i j, key.same_iff k j, get-put d k j v)

  -- The key is found, with its value.
  pub get-put_self : (d : Dict K V) (k : K) (v : V) → get (put d k v) k ≡ some v
  get-put_self d k v = rw (get-put, (key.same_iff k k).1 refl)
