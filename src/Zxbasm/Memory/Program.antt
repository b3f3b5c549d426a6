-- ===== src/Zxbasm/Memory/Program.antt =====
-- src/zxbasm/memory.py: the calls that the parser makes of it for the labels of a program, in the
-- order of the source.
use zxbasic.Prelude.{
  ℕ, ◌≤◌, Bool, true, List, [], ◌∷◌, Option, some, length, ◌≡◌, ◌≢◌, refl, sym, ◌∙◌,
}
use mathlib.Core.Path.{subst}
use zxbasic.Prelude.Int.{ℤ}
use zxbasic.Zxbasm.Expr.Stability.{try_eval_stable}
use zxbasic.Zxbasm.Expr.{Expr, Value, Message, returns, try_eval}
use zxbasic.Zxbasm.Label.{Globals, is_decimal}
use zxbasic.Zxbasm.Memory.Declare.Sound.{declare_label-Step}
use zxbasic.Zxbasm.Memory.Declare.{declare_label, keeps_order}
use zxbasic.Zxbasm.Memory.Keeps.{
  values, IsValid, Keeps, Keeps-refl, Keeps-trans, Step, Step-pure, Step-bind, Step-weaken,
  Anything, IsPlace,
}
use zxbasic.Zxbasm.Memory.Lookup.Sound.{get_label-Step, set_label-Step}
use zxbasic.Zxbasm.Memory.Lookup.{get_label, set_label}
use zxbasic.Zxbasm.Memory.Procs.Sound.{enter_proc-Step, exit_proc-Step, set_org-Step}
use zxbasic.Zxbasm.Memory.Procs.{enter_proc, set_org, exit_proc}
use zxbasic.Zxbasm.Memory.Store.{Memory, M, ◌>>=◌, pure}

-- A new memory, with its origin.
abbrev pub init : ℤ → Memory
init org = record {
  labels = [];
  index = org;
  org_value = org;
  memory_bytes = [];
  orgs = [];
  global_labels = [];
  inner = [];
  scopes = [];
  tmp_labels = [];
  tmp_labels_lines = [];
  tmp_pending_labels = [];
  errors = [];
  warnings = [];
}

-- The methods with their arguments.
pub data Call : Type 0 where
  enter : ℕ → Call
  exit : ℕ → Call
  org : ℤ → ℕ → Call
  declare : List ℕ → ℕ → Option Value → Bool → Option (List ℕ) → Call
  reference : List ℕ → ℕ → Call
  make_local : List ℕ → ℕ → Bool → Call

unfoldable pub run : Globals → Call → M (Unit {0})
run g (enter lineno) = enter_proc lineno
run g (exit lineno) = exit_proc g lineno
run g (org value lineno) = set_org value lineno
run g (declare label lineno value local namespace) =
    declare_label g label lineno value local namespace
run g (reference label lineno) = get_label g label lineno >>= λ p. pure tt
run g (make_local label lineno local) = set_label g label lineno local >>= λ p. pure tt

-- A label has a name, and the temporary labels of a file are declared in the order of its lines.
abbrev pub Ready : Globals → Call → Memory → Type 0
Ready g (enter lineno) m = Unit
Ready g (exit lineno) m = Unit
Ready g (org value lineno) m = Unit
Ready g (declare label lineno value local namespace) m =
    (label ≢ []) × (is_decimal label ≡ true → keeps_order g.filename lineno m ≡ true)
Ready g (reference label lineno) m = label ≢ []
Ready g (make_local label lineno local) m = label ≢ []

run-Step :
    (g : Globals) (c : Call) {m : Memory} → IsValid m → Ready g c m → Step Anything m (run g c m)
unfolding run
run-Step g (enter lineno) {m} v r =
    Step-weaken (λ u m'. m'.labels ≡ m.labels) Anything (λ u m' x. tt) (enter_proc-Step lineno v)
run-Step g (exit lineno) v r = exit_proc-Step g lineno v
run-Step g (org value lineno) v r = set_org-Step value lineno v
run-Step g (declare [] lineno value local namespace) v r = absurd (r.0 refl)
run-Step g (declare (c ∷ cs) lineno value local namespace) v r =
    declare_label-Step g c cs lineno value local namespace r.1 v
run-Step g (reference [] lineno) v r = absurd (r refl)
run-Step g (reference (c ∷ cs) lineno) v r =
    Step-bind (λ p m'. IsPlace p m') Anything (get_label g (c ∷ cs) lineno) (λ p. pure tt)
      (get_label-Step g c cs lineno v) (λ p m' v' k q. Step-pure Anything tt v' tt)
run-Step g (make_local [] lineno local) v r = absurd (r refl)
run-Step g (make_local (c ∷ cs) lineno local) v r =
    Step-bind (λ p m'. IsPlace p m') Anything (set_label g (c ∷ cs) lineno local) (λ p. pure tt)
      (set_label-Step g c cs lineno local v) (λ p m' v' k q. Step-pure Anything tt v' tt)

-- A memory that some calls lead to.
pub data Reach (g : Globals) (m : Memory) : Memory → Type 0 where
  here : Reach g m m
  next :
      {t u : Memory} (c : Call) → Reach g m t → Ready g c t → run g c t ≡ some (tt, u) → Reach g m u

after_eq :
    {m m' : Memory} → ◌≡◌ {A = Option (Unit {0} × Memory)} (some (tt, m)) (some (tt, m')) → m ≡ m'
after_eq h = cc

Reach-both : {g : Globals} {m m' : Memory} → IsValid m → Reach g m m' → IsValid m' × Keeps m m'
Reach-both {m = m} v here = (v, Keeps-refl m)
Reach-both {g} {m = m} v (next {u = u} c r ready e) =
    let (v', k) = Reach-both v r in
    let s = run-Step g c v' ready in
    let same = after_eq (sym s.returns ∙ e) in
    subst (λ n. IsValid n × Keeps m n) same (s.valid, Keeps-trans k s.keeps)

-- From a valid memory every call that is made with a name for its label, and in the order of the
-- lines for a temporary label, returns: none ends in an exception, the exit of `error` at the limit
-- of errors apart. The memory stays valid after any number of them: every scope that is entered has
-- its line, and the scopes hold labels that exist.
pub run_total :
    (g : Globals) (m t : Memory) (c : Call)
    → IsValid m
    → Reach g m t
    → Ready g c t
    → (u : Memory) × (run g c t ≡ some (tt, u)) × IsValid u
run_total g m t c v r ready =
    let s = run-Step g c (Reach-both v r).0 ready in (s.after, s.returns, s.valid)

-- Over calls that log no error, from a valid memory, a value that an expression has is not lost: it
-- is found again in the later memory, with no message, whatever `Expr.ignore` is
-- and with at least as much fuel.
pub Reach-try_eval :
    (g : Globals) (m m' : Memory) (ignore ignore' : Bool) (fuel fuel' : ℕ) (e : Expr) (v : ℤ)
    (ms : List Message)
    → IsValid m
    → Reach g m m'
    → length m'.errors ≡ length m.errors
    → fuel ≤ fuel'
    → try_eval fuel ignore (values m) e ≡ returns (some v) ms
    → try_eval fuel' ignore' (values m') e ≡ returns (some v) []
Reach-try_eval g m m' ignore ignore' fuel fuel' e v ms valid r quiet le h =
    (try_eval_stable (values m) (values m') ignore ignore' fuel fuel' e v ms
      ((Reach-both valid r).1.values_stay quiet) le h).1
