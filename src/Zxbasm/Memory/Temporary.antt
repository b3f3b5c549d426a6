-- ===== src/Zxbasm/Memory/Temporary.antt =====
-- src/zxbasm/memory.py: `resolve_temporary_label`. The lines of a file stand in ascending order, so
-- that `bisect` splits them at a line.
pub mod Nearest
use mathlib.Core.List.{reverse}
use zxbasic.Prelude.Dict.{get, text_key, place_key}
use zxbasic.Prelude.Int.{ℤ, pos, negsuc}
use zxbasic.Prelude.{
  ℕ, zero, suc, Bool, leb, ltb, List, [], ◌∷◌, Option, none, some, get_elem?, if◌then◌else◌,
}
use zxbasic.Zxbasm.Label.{Label, direction, name, label_eq}
use zxbasic.Zxbasm.Memory.Declare.{lines_of}
use zxbasic.Zxbasm.Memory.Store.{Memory, M, ◌>>=◌, load, store, Scope}

-- `lines[:bisect_right(lines, n)]` and `lines[bisect_left(lines, n):]`
lines_until : ℕ → List ℕ → List ℕ
lines_until n [] = []
lines_until n (x ∷ xs) = let rest = lines_until n xs in if leb x n then x ∷ rest else []

lines_from : ℕ → List ℕ → List ℕ
lines_from n [] = []
lines_from n (x ∷ xs) = let rest = lines_from n xs in if ltb x n then rest else x ∷ xs

place_in : Option Scope → List ℕ → Option ℕ
place_in none k = none
place_in (some s) k = get s k

label_at : Memory → Option ℕ → Option Label
label_at m none = none
label_at m (some p) = get_elem? m.labels p

equal_to : Label → Option Label → Option Label
equal_to l none = none
equal_to l (some other) = if label_eq l other then some other else none

-- The label that a line of the file declares, if it is equal to the one that is referred to.
unfoldable pub declared_on : List ℕ → Label → Memory → ℕ → Option Label
unfolding place_in label_at equal_to label_eq name get
declared_on fname l m line =
    equal_to l (label_at m (place_in (get m.tmp_labels (fname, line)) (name l)))

abbrev or_label : Option Label → Option Label → Option Label
or_label none o = o
or_label (some w) o = some w

first_match : (ℕ → Option Label) → List ℕ → Option Label
first_match f [] = none
first_match f (line ∷ lines) = or_label (f line) (first_match f lines)

search_in : ℤ → (ℕ → Option Label) → ℕ → List ℕ → Option Label
search_in (negsuc zero) f n lines = first_match f (reverse (lines_until n lines))
search_in (negsuc (suc k)) f n lines = none
search_in (pos zero) f n lines = none
search_in (pos (suc zero)) f n lines = first_match f (lines_from n lines)
search_in (pos (suc (suc k))) f n lines = none

resolve_to : ℕ → Label → Option Label → M (Unit {0})
resolve_to p l none m = some (tt, m)
resolve_to p l (some w) m = store p (record l { value = w.value }) m

unfoldable pub resolve_temporary_label : List ℕ → ℕ → M (Unit {0})
unfolding search_in first_match lines_until lines_from resolve_to declared_on lines_of direction
resolve_temporary_label fname p = do
  l ← load p
  λ m.
      resolve_to p l (search_in (direction l) (declared_on fname l m) l.lineno (lines_of fname m)) m
