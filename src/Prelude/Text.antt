-- ===== src/Prelude/Text.antt =====
-- Python texts as the lists of their code points, and the methods of `str` that the models use.
use Prim.Native.Char.{code}
use Prim.Native.Nat.{ℕ, ◌-◌}
use Prim.Native.String.{String}
use mathlib.Core.Path.{◌≡◌}
use mathlib.Core.Logic.{◌↔◌}
use mathlib.Core.Bool.{Bool, true, false, ◌&&◌}
use mathlib.Core.List.{List, [], ◌∷◌}
use native.Mathlib.Omega.{arith}
use zxbasic.Prelude.Tests.{◌==◌, leb, if◌then◌else◌}

-- The code points of a literal.
abbrev pub codes : String → List ℕ
codes String.[] = []
codes (String.◌∷◌ c s) = code c ∷ codes s

unfoldable pub equal : List ℕ → List ℕ → Bool
equal [] [] = true
equal (x ∷ xs) (y ∷ ys) = x == y && equal xs ys
equal _ _ = false

pub equal_iff : (xs ys : List ℕ) → (equal xs ys ≡ true) ↔ (xs ≡ ys)
unfolding equal
equal_iff (x ∷ xs) (y ∷ ys) = ground (arith, equal_iff xs ys)
equal_iff _ _ = ground arith

-- `s.upper()`, of ASCII letters.
unfoldable pub upper : ℕ → ℕ
upper c = if leb b'a' c && leb c b'z' then c - 32 else c

unfoldable pub cons_head : ℕ → List (List ℕ) → List (List ℕ)
cons_head c [] = (c ∷ []) ∷ []
cons_head c (s ∷ ss) = (c ∷ s) ∷ ss

-- The parts between the characters that satisfy a test, empty ones included.
unfoldable pub split_by : (ℕ → Bool) → List ℕ → List (List ℕ)
unfolding cons_head
split_by sep [] = [] ∷ []
split_by sep (c ∷ cs) = let rest = split_by sep cs in if sep c then [] ∷ rest else cons_head c rest

-- `s.split(";", 1)[0]`, for any character
unfoldable pub before : ℕ → List ℕ → List ℕ
before stop [] = []
before stop (c ∷ cs) = let rest = before stop cs in if c == stop then [] else c ∷ rest
