-- ===== src/Zxbasm/Expr/Stability.antt =====
-- `Expr.try_eval` of src/zxbasm/expr.py: a value that is found is final.
use zxbasic.Prelude.{
  ℕ, zero, suc, ◌≤◌, Bool, true, false, List, [], ◌++◌, Option, none, some, get_elem?, ◌≡◌, ◌≢◌,
  refl, ◌∙◌, arith,
}
use zxbasic.Prelude.Int.{ℤ}
use zxbasic.Zxbasm.Expr.Operators.{
  Operator, Calculation, value, zero_division, value_error, not_an_integer, calculate,
}
use zxbasic.Zxbasm.Expr.{
  Expr, int, label, minus, plus, binary, Value, address, equ, eval_label, Message, Outcome, returns,
  raises, recursion_error, gives_float, log, ◌>>=◌, pure, negate, of_calculation, apply, undefined,
  try_eval,
}

-- Every label that has a value keeps it; others may get one.
abbrev pub Extends : List (Option Value) → List (Option Value) → Type 0
Extends labels later =
    (l : ℕ) (v : Value) → get_elem? labels l ≡ some (some v) → get_elem? later l ≡ some (some v)

log-nil : (r : Outcome) → log [] r ≡ r
log-nil (returns v ms) = refl
log-nil raises = refl
log-nil recursion_error = refl
log-nil gives_float = refl

log-returns :
    (ns : List Message) (r : Outcome) {v : Option ℤ} {ms : List Message}
    → log ns r ≡ returns v ms
    → (ks : List Message) × (r ≡ returns v ks) × (ms ≡ ns ++ ks)
log-returns ns (returns v ks) h = (ks, cc, cc)
log-returns ns raises h = cc
log-returns ns recursion_error h = cc
log-returns ns gives_float h = cc

-- A bind that returns has both parts return.
pub bind-returns :
    (r : Outcome) (f : Option ℤ → Outcome) {v : Option ℤ} {ms : List Message}
    → (r >>= f) ≡ returns v ms
    → (x : Option ℤ) × (ns : List Message) × (ks : List Message) × (r ≡ returns x ns)
      × (f x ≡ returns v ks)
      × (ms ≡ ns ++ ks)
bind-returns (returns x ns) f h = let (ks, e, m) = log-returns ns (f x) h in (x, ns, ks, refl, e, m)
bind-returns raises f h = cc
bind-returns recursion_error f h = cc
bind-returns gives_float f h = cc

-- What a run that finds `v` shows: no message, and the same value in the later run.
record IsFinal (v : ℤ) (ms : List Message) (later : Outcome) : Type 0 where
  silent : ms ≡ []
  again : later ≡ returns (some v) []

abbrev Settles : Outcome → Outcome → Type 0
Settles r later = (v : ℤ) (ms : List Message) → r ≡ returns (some v) ms → IsFinal v ms later

abbrev FindsNothing : Outcome → Type 0
FindsNothing r = (v : ℤ) (ms : List Message) → r ≢ returns (some v) ms

-- A bind settles if its parts do, and a missing part gives no value.
bind-Settles :
    (r r' : Outcome) (f f' : Option ℤ → Outcome)
    → Settles r r'
    → FindsNothing (f none)
    → ((a : ℤ) → Settles (f (some a)) (f' (some a)))
    → Settles (r >>= f) (r' >>= f')
bind-Settles r r' f f' hr hn hs v ms h =
    let (x, ns, ks, he, hk, hm) = bind-returns r f h in part x ns ks he hk hm
  where
    part :
        (x : Option ℤ) (ns ks : List Message)
        → r ≡ returns x ns
        → f x ≡ returns (some v) ks
        → ms ≡ ns ++ ks
        → IsFinal v ms (r' >>= f')
    part none ns ks he hk hm = absurd (hn v ks hk)
    part (some a) ns ks he hk hm =
        let first = hr a ns he in
        let second = hs a v ks hk in
        record {
          silent = hm ∙ rw (first.silent, second.silent);
          again = rw (first.again, second.again);
        }

bind-FindsNothing :
    (r : Outcome) (f : Option ℤ → Outcome)
    → ((x : Option ℤ) → FindsNothing (f x))
    → FindsNothing (r >>= f)
bind-FindsNothing r f hf v ms h = let (x, ns, ks, he, hk, hm) = bind-returns r f h in hf x v ks hk

undefined-FindsNothing : (ignore : Bool) (lineno : ℕ) → FindsNothing (undefined ignore lineno)
undefined-FindsNothing true lineno v ms h = cc
undefined-FindsNothing false lineno v ms h = cc

pure-Settles : (x : Option ℤ) → Settles (pure x) (pure x)
pure-Settles none v ms h = cc
pure-Settles (some a) v ms h = record { silent = cc; again = cc }

calculation-Settles :
    (lineno : ℕ) (c : Calculation) → Settles (of_calculation lineno c) (of_calculation lineno c)
calculation-Settles lineno (value x) = pure-Settles (some x)
calculation-Settles lineno zero_division = λ v ms h. cc
calculation-Settles lineno value_error = λ v ms h. cc
calculation-Settles lineno not_an_integer = λ v ms h. cc

apply-FindsNothing :
    (lineno : ℕ) (op : Operator) (x : Option ℤ) → FindsNothing (apply lineno op x none)
unfolding apply
apply-FindsNothing lineno op none v ms h = cc
apply-FindsNothing lineno op (some a) v ms h = cc

missing-FindsNothing :
    (lineno : ℕ) (op : Operator) (y : Option ℤ) → FindsNothing (apply lineno op none y)
unfolding apply
missing-FindsNothing lineno op y v ms h = cc

apply-Settles :
    (lineno : ℕ) (op : Operator) (a b : ℤ)
    → Settles (apply lineno op (some a) (some b)) (apply lineno op (some a) (some b))
unfolding apply
apply-Settles lineno op a b = calculation-Settles lineno (calculate op a b)

module _ (labels later : List (Option Value)) (extends : Extends labels later) where
  label-Settles :
      (ignore ignore' : Bool) (lineno l : ℕ) (follow follow' : Expr → Outcome)
      → ((e : Expr) → Settles (follow e) (follow' e))
      → (o : Option (Option Value)) → get_elem? labels l ≡ o
      → Settles
          (eval_label ignore lineno follow o)
          (eval_label ignore' lineno follow' (get_elem? later l))
  label-Settles ignore ignore' lineno l follow follow' ih none e v ms h =
      absurd (undefined-FindsNothing ignore lineno v ms h)
  label-Settles ignore ignore' lineno l follow follow' ih (some none) e v ms h =
      absurd (undefined-FindsNothing ignore lineno v ms h)
  label-Settles ignore ignore' lineno l follow follow' ih (some (some (address x))) e v ms h =
      rw (extends l (address x) e) (pure-Settles (some x) v ms h)
  label-Settles ignore ignore' lineno l follow follow' ih (some (some (equ d))) e v ms h =
      rw (extends l (equ d) e) (ih d v ms h)

  try_eval-Settles :
      (ignore ignore' : Bool) (fuel fuel' : ℕ) (e : Expr)
      → fuel ≤ fuel'
      → Settles (try_eval fuel ignore labels e) (try_eval fuel' ignore' later e)
  unfolding try_eval
  try_eval-Settles ignore ignore' zero fuel' e le = λ v ms h. cc
  try_eval-Settles ignore ignore' (suc fuel) zero e le = absurd (omega arith)
  try_eval-Settles ignore ignore' (suc fuel) (suc fuel') (int x) le = pure-Settles (some x)
  try_eval-Settles ignore ignore' (suc fuel) (suc fuel') (label lineno l) le =
      label-Settles ignore ignore' lineno l (try_eval fuel ignore labels)
        (try_eval fuel' ignore' later)
        (λ d. try_eval-Settles ignore ignore' fuel fuel' d (omega arith)) (get_elem? labels l) refl
  try_eval-Settles ignore ignore' (suc fuel) (suc fuel') (minus e) le =
      bind-Settles (try_eval fuel ignore labels e) (try_eval fuel' ignore' later e)
        (λ x. pure (negate x)) (λ x. pure (negate x))
        (try_eval-Settles ignore ignore' fuel fuel' e (omega arith)) (λ v ms h. cc)
        (λ a. pure-Settles (negate (some a)))
  try_eval-Settles ignore ignore' (suc fuel) (suc fuel') (plus e) le =
      try_eval-Settles ignore ignore' fuel fuel' e (omega arith)
  try_eval-Settles ignore ignore' (suc fuel) (suc fuel') (binary lineno op a b) le =
      bind-Settles (try_eval fuel ignore labels a) (try_eval fuel' ignore' later a)
        (λ x. try_eval fuel ignore labels b >>= (λ y. apply lineno op x y))
        (λ x. try_eval fuel' ignore' later b >>= (λ y. apply lineno op x y))
        (try_eval-Settles ignore ignore' fuel fuel' a (omega arith))
        (bind-FindsNothing (try_eval fuel ignore labels b) (λ y. apply lineno op none y)
          (missing-FindsNothing lineno op))
        (λ x.
          bind-Settles (try_eval fuel ignore labels b) (try_eval fuel' ignore' later b)
            (λ y. apply lineno op (some x) y) (λ y. apply lineno op (some x) y)
            (try_eval-Settles ignore ignore' fuel fuel' b (omega arith))
            (apply-FindsNothing lineno op (some x)) (apply-Settles lineno op x))

-- A value that `try_eval` finds is final: nothing was logged on the way, and the same value is
-- found, with nothing logged, when labels that had no value have got one since and the others have
-- kept theirs, whatever the flag `Expr.ignore` is then, with at least as much fuel.
pub try_eval_stable :
    (labels later : List (Option Value)) (ignore ignore' : Bool) (fuel fuel' : ℕ) (e : Expr) (v : ℤ)
    (ms : List Message)
    → Extends labels later
    → fuel ≤ fuel'
    → try_eval fuel ignore labels e ≡ returns (some v) ms
    → (ms ≡ []) × (try_eval fuel' ignore' later e ≡ returns (some v) [])
try_eval_stable labels later ignore ignore' fuel fuel' e v ms extends le h =
    let final = try_eval-Settles labels later extends ignore ignore' fuel fuel' e le v ms h in
    (final.silent, final.again)
