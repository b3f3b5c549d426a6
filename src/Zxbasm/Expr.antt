-- ===== src/Zxbasm/Expr.antt =====
-- src/zxbasm/expr.py: expressions of the assembler, over the labels that they name. A label is its
-- place in the store of the `Label` objects, which a definition changes under the expressions that
-- hold it.
pub mod Operators
pub mod Stability
pub mod Reported
use zxbasic.Prelude.{
  ℕ, zero, suc, Bool, true, false, List, [], ◌∷◌, ◌++◌, Option, none, some, get_elem?,
  if◌then◌else◌,
}
use zxbasic.Prelude.Int.{ℤ, pos, ◌-ℤ◌}
use Operators.{Operator, Calculation, value, zero_division, value_error, not_an_integer, calculate}

-- An expression by what `symbol.item` is: an integer, a label, an operator with one child or with
-- two; the number is `symbol.lineno`.
pub data Expr : Type 0 where
  int : ℤ → Expr
  label : ℕ → ℕ → Expr
  minus : Expr → Expr
  plus : Expr → Expr
  binary : ℕ → Operator → Expr → Expr → Expr

-- The value of a label: an address, or the expression of an EQU.
pub data Value : Type 0 where
  address : ℤ → Value
  equ : Expr → Value

-- The messages that are logged, with their lines.
pub data Message : Type 0 where
  undefined_label : ℕ → Message
  division_by_0 : ℕ → Message

-- What `try_eval` does: it returns a value or None with the messages logged on the way, or an
-- exception passes through it. A power that is no integer ends the model's run too.
pub data Outcome : Type 0 where
  returns : Option ℤ → List Message → Outcome
  raises : Outcome
  recursion_error : Outcome
  gives_float : Outcome

-- The rest of a computation, on the value of a part and behind its messages.
abbrev log : List Message → Outcome → Outcome
log ms (returns v ns) = returns v (ms ++ ns)
log ms raises = raises
log ms recursion_error = recursion_error
log ms gives_float = gives_float

infixl 5 ◌>>=◌
abbrev ◌>>=◌ : Outcome → (Option ℤ → Outcome) → Outcome
returns v ms >>= f = log ms (f v)
raises >>= f = raises
recursion_error >>= f = recursion_error
gives_float >>= f = gives_float

abbrev pure : Option ℤ → Outcome
pure v = returns v []

-- `-x`, a `TypeError` and so None on None
abbrev negate : Option ℤ → Option ℤ
negate none = none
negate (some x) = some (pos 0 -ℤ x)

-- The call of the operator and the handlers round it.
abbrev of_calculation : ℕ → Calculation → Outcome
of_calculation lineno (value x) = pure (some x)
of_calculation lineno zero_division = returns none (division_by_0 lineno ∷ [])
of_calculation lineno value_error = raises
of_calculation lineno not_an_integer = gives_float

unfoldable pub apply : ℕ → Operator → Option ℤ → Option ℤ → Outcome
apply lineno op none y = pure none
apply lineno op (some x) none = pure none
apply lineno op (some x) (some y) = of_calculation lineno (calculate op x y)

-- A label with no value: None, or a message too, unless `Expr.ignore` is set.
abbrev undefined : Bool → ℕ → Outcome
undefined true lineno = pure none
undefined false lineno = returns none (undefined_label lineno ∷ [])

-- The branch for a label, on its value in the store.
abbrev pub eval_label : Bool → ℕ → (Expr → Outcome) → Option (Option Value) → Outcome
eval_label ignore lineno follow none = undefined ignore lineno
eval_label ignore lineno follow (some none) = undefined ignore lineno
eval_label ignore lineno follow (some (some (address x))) = pure (some x)
eval_label ignore lineno follow (some (some (equ e))) = follow e

-- `try_eval`, on the values of the labels. A label whose value is an expression is followed; the
-- fuel bounds the depth of that and of the tree, as the stack does.
unfoldable pub try_eval : ℕ → Bool → List (Option Value) → Expr → Outcome
unfolding apply
try_eval zero ignore labels e = recursion_error
try_eval (suc fuel) ignore labels (int x) = pure (some x)
try_eval (suc fuel) ignore labels (label lineno l) =
    eval_label ignore lineno (try_eval fuel ignore labels) (get_elem? labels l)
try_eval (suc fuel) ignore labels (minus e) = do x ← try_eval fuel ignore labels e; pure (negate x)
try_eval (suc fuel) ignore labels (plus e) = try_eval fuel ignore labels e
try_eval (suc fuel) ignore labels (binary lineno op a b) = do
  x ← try_eval fuel ignore labels a
  y ← try_eval fuel ignore labels b
  apply lineno op x y

-- `eval` clears the flag, so that an undefined label is reported.
unfoldable pub eval : ℕ → List (Option Value) → Expr → Outcome
eval fuel = try_eval fuel false
