-- ===== src/Zxbasm/Label.antt =====
-- src/zxbasm/label.py and src/zxbasm/global_.py: the labels of the assembler and their namespaces.
-- Label names are ASCII texts.
pub mod Namespace
use zxbasic.Prelude.{
  ℕ, Bool, true, false, not, ◌&&◌, ◌||◌, ◌==◌, leb, List, [], ◌∷◌, ◌++◌, Option, none, some,
  if◌then◌else◌, ◌≡◌, refl,
}
use zxbasic.Prelude.Dict.{same_text}
use zxbasic.Prelude.Int.{ℤ, pos, negsuc}
use zxbasic.Prelude.Text.{split_by}
use zxbasic.Zxbasm.Expr.{Value}

-- The globals that are read: `NAMESPACE` of global_.py, and `FILENAME`.
pub record Globals : Type 0 where
  pub namespace : List ℕ
  pub filename : List ℕ

-- `full_name` is the attribute `_name`.
pub record Label : Type 0 where
  pub full_name : List ℕ
  pub lineno : ℕ
  pub value : Option Value
  pub local : Bool
  pub namespace : Option (List ℕ)
  pub current_namespace : List ℕ
  pub is_address : Bool

abbrev pub is_some {ℓ} : {A : Type ℓ} → Option A → Bool
is_some none = false
is_some (some a) = true

abbrev pub defined : Label → Bool
defined l = is_some l.value

abbrev is_digit : ℕ → Bool
is_digit c = leb b'0' c && leb c b'9'

all_digits : List ℕ → Bool
all_digits [] = true
all_digits (c ∷ cs) = is_digit c && all_digits cs

-- `s.isdecimal()`
unfoldable pub is_decimal : List ℕ → Bool
unfolding all_digits
is_decimal [] = false
is_decimal (c ∷ cs) = all_digits (c ∷ cs)

-- `s[-1]` and `s[:-1]`
unfoldable pub split_last : List ℕ → Option (List ℕ × ℕ)
split_last [] = none
split_last (c ∷ cs) = elim (split_last cs) [ none ↦ some ([], c) | some (s, d) ↦ some (c ∷ s, d) ]

abbrev pub is_direction : ℕ → Bool
is_direction c = c == b'B' || c == b'F'

unfoldable pub starts_with_digit : List ℕ → Bool
starts_with_digit [] = false
starts_with_digit (c ∷ cs) = is_digit c

unfoldable pub is_temporary : Label → Bool
unfolding starts_with_digit
is_temporary l = starts_with_digit l.full_name

-- `direction`: -1, +1 or 0
direction_of : Option (List ℕ × ℕ) → ℤ
direction_of none = pos 0
direction_of (some (s, c)) = if c == b'B' then negsuc 0 else if c == b'F' then pos 1 else pos 0

unfoldable pub direction : Label → ℤ
unfolding direction_of split_last is_temporary
direction l = if not (is_temporary l) then pos 0 else direction_of (split_last l.full_name)

-- `s.strip("BF")`
strip_left : List ℕ → List ℕ
strip_left [] = []
strip_left (c ∷ cs) = let rest = strip_left cs in if is_direction c then rest else c ∷ cs

strip_right : List ℕ → List ℕ
strip_right [] = []
strip_right (c ∷ cs) = elim (strip_right cs) [
  | [] ↦ if is_direction c then [] else c ∷ []
  | d ∷ ds ↦ c ∷ d ∷ ds
]

unfoldable pub name : Label → List ℕ
unfolding is_temporary strip_left strip_right
name l = if not (is_temporary l) then l.full_name else strip_left (strip_right l.full_name)

-- The name depends on `_name` alone.
pub name_same : (l l' : Label) → l.full_name ≡ l'.full_name → name l ≡ name l'
unfolding name
name_same l l' e = rw e

same_namespace : Option (List ℕ) → Option (List ℕ) → Bool
same_namespace none none = true
same_namespace (some s) (some t) = same_text s t
same_namespace _ _ = false

-- `__eq__`, on labels
unfoldable pub label_eq : Label → Label → Bool
unfolding same_namespace name
label_eq l other = same_text (name other) (name l) && same_namespace other.namespace l.namespace

-- `normalize_namespace`: the parts that are not empty, each behind a dot.
dotted : List (List ℕ) → List ℕ
dotted [] = []
dotted ([] ∷ parts) = dotted parts
dotted ((c ∷ cs) ∷ parts) = b'.' ∷ (c ∷ cs) ++ dotted parts

or_dot : List ℕ → List ℕ
or_dot [] = b'.' ∷ []
or_dot (c ∷ cs) = c ∷ cs

unfoldable pub normalize_namespace : List ℕ → List ℕ
unfolding dotted or_dot split_by
normalize_namespace s = or_dot (dotted (split_by (λ c. c == b'.') s))

starts_with_dot : List ℕ → Bool
starts_with_dot [] = false
starts_with_dot (c ∷ cs) = c == b'.'

ends_as_temporary : Option (List ℕ × ℕ) → Bool
ends_as_temporary none = false
ends_as_temporary (some (s, c)) = is_direction c && is_decimal s

-- `Memory.id_name`, with the namespace that is given or the current one. `label[-1]` is an
-- `IndexError` on the empty text.
unfoldable pub id_name : Globals → List ℕ → Option (List ℕ) → Option (List ℕ × List ℕ)
unfolding is_decimal split_last ends_as_temporary starts_with_dot normalize_namespace
id_name g [] given = none
id_name g (c ∷ cs) given =
    let label = c ∷ cs in
    let namespace : List ℕ = elim given [ none ↦ g.namespace | some ns ↦ ns ] in
    if is_decimal label || ends_as_temporary (split_last label)
    then some (label, namespace)
    else if not (starts_with_dot label)
    then some (normalize_namespace (namespace ++ b'.' ∷ label), namespace)
    else some (label, namespace)

three_way {ℓ} :
    {A : Type ℓ} (b c : Bool) (x y z : A)
    → (a : A) × ((if b then some x else if c then some y else some z) ≡ some a)
three_way true c x y z = (x, refl)
three_way false true x y z = (y, refl)
three_way false false x y z = (z, refl)

-- A name that is not empty is resolved.
pub id_name-some :
    (g : Globals) (c : ℕ) (cs : List ℕ) (given : Option (List ℕ))
    → (names : List ℕ × List ℕ) × (id_name g (c ∷ cs) given ≡ some names)
unfolding id_name
id_name-some g c cs given =
    three_way (is_decimal (c ∷ cs) || ends_as_temporary (split_last (c ∷ cs)))
      (not (starts_with_dot (c ∷ cs))) _ _ _
