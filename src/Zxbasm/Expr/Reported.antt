-- ===== src/Zxbasm/Expr/Reported.antt =====
-- `Expr.try_eval` of src/zxbasm/expr.py: a value that is missing has been reported.
use zxbasic.Prelude.{
  ℕ, zero, suc, false, List, [], ◌∷◌, ◌++◌, Option, none, some, get_elem?, ◌≡◌, ◌≢◌, refl, ◌∙◌, sym,
}
use zxbasic.Prelude.Int.{ℤ}
use zxbasic.Zxbasm.Expr.Operators.{
  Operator, Calculation, value, zero_division, value_error, not_an_integer, calculate,
}
use zxbasic.Zxbasm.Expr.Stability.{bind-returns}
use zxbasic.Zxbasm.Expr.{
  Expr, int, label, minus, plus, binary, Value, address, equ, eval_label, Message, undefined_label,
  division_by_0, Outcome, returns, ◌>>=◌, pure, negate, of_calculation, apply, try_eval,
}

-- With `Expr.ignore` off, a missing value has been reported.
abbrev pub Speaks : Outcome → Type 0
Speaks r = (ms : List Message) → r ≡ returns none ms → ms ≢ []

append-left : (ms ns : List Message) → ms ≢ [] → ms ++ ns ≢ []
append-left [] ns h e = h refl
append-left (m ∷ ms) ns h e = cc

append-right : (ms ns : List Message) → ns ≢ [] → ms ++ ns ≢ []
append-right [] ns h e = h e
append-right (m ∷ ms) ns h e = cc

bind-Speaks :
    (r : Outcome) (f : Option ℤ → Outcome)
    → Speaks r
    → ((a : ℤ) → Speaks (f (some a)))
    → Speaks (r >>= f)
bind-Speaks r f hr hf ms h =
    let (x, ns, ks, he, hk, hm) = bind-returns r f h in part x ns ks he hk hm
  where
    part :
        (x : Option ℤ) (ns ks : List Message)
        → r ≡ returns x ns
        → f x ≡ returns none ks
        → ms ≡ ns ++ ks
        → ms ≢ []
    part none ns ks he hk hm = λ e. append-left ns ks (hr ns he) (sym hm ∙ e)
    part (some a) ns ks he hk hm = λ e. append-right ns ks (hf a ks hk) (sym hm ∙ e)

value-Speaks : (x : ℤ) → Speaks (pure (some x))
value-Speaks x ms h k = cc

one-Speaks : (m : Message) → Speaks (returns none (m ∷ []))
one-Speaks m ms h e = cc

calculation-Speaks : (lineno : ℕ) (c : Calculation) → Speaks (of_calculation lineno c)
calculation-Speaks lineno (value x) = value-Speaks x
calculation-Speaks lineno zero_division = one-Speaks (division_by_0 lineno)
calculation-Speaks lineno value_error = λ ms h k. cc
calculation-Speaks lineno not_an_integer = λ ms h k. cc

apply-Speaks : (lineno : ℕ) (op : Operator) (a b : ℤ) → Speaks (apply lineno op (some a) (some b))
unfolding apply
apply-Speaks lineno op a b = calculation-Speaks lineno (calculate op a b)

label-Speaks :
    (lineno : ℕ) (follow : Expr → Outcome) (o : Option (Option Value))
    → ((e : Expr) → Speaks (follow e))
    → Speaks (eval_label false lineno follow o)
label-Speaks lineno follow none h = one-Speaks (undefined_label lineno)
label-Speaks lineno follow (some none) h = one-Speaks (undefined_label lineno)
label-Speaks lineno follow (some (some (address x))) h = value-Speaks x
label-Speaks lineno follow (some (some (equ e))) h = h e

pub try_eval-Speaks :
    (fuel : ℕ) (labels : List (Option Value)) (e : Expr) → Speaks (try_eval fuel false labels e)
unfolding try_eval
try_eval-Speaks zero labels e = λ ms h k. cc
try_eval-Speaks (suc fuel) labels (int x) = value-Speaks x
try_eval-Speaks (suc fuel) labels (label lineno l) =
    label-Speaks lineno (try_eval fuel false labels) (get_elem? labels l)
      (try_eval-Speaks fuel labels)
try_eval-Speaks (suc fuel) labels (minus e) =
    bind-Speaks (try_eval fuel false labels e) (λ x. pure (negate x))
      (try_eval-Speaks fuel labels e) (λ a ms h k. cc)
try_eval-Speaks (suc fuel) labels (plus e) = try_eval-Speaks fuel labels e
try_eval-Speaks (suc fuel) labels (binary lineno op a b) =
    bind-Speaks (try_eval fuel false labels a)
      (λ x. try_eval fuel false labels b >>= (λ y. apply lineno op x y))
      (try_eval-Speaks fuel labels a)
      (λ x.
        bind-Speaks (try_eval fuel false labels b) (λ y. apply lineno op (some x) y)
          (try_eval-Speaks fuel labels b) (apply-Speaks lineno op x))
