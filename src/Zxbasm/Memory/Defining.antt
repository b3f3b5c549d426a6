-- ===== src/Zxbasm/Memory/Defining.antt =====
-- src/zxbasm/label.py: what `define` keeps.
use zxbasic.Prelude.{
  ℕ, ◌∷◌, Option, none, some, length, set, length-set, ◌≡◌, refl, arith, if◌then◌else◌,
}
use zxbasic.Prelude.Dict.{text_key, ℤ_key}
use zxbasic.Zxbasm.Expr.{Value}
use zxbasic.Zxbasm.Label.{Globals, Label, defined, name, is_some}
use zxbasic.Zxbasm.Memory.Context.{define}
use zxbasic.Zxbasm.Memory.Access.{Holds, load-Step, store-IsValid, store-Step}
use zxbasic.Zxbasm.Memory.Keeps.{Step-weaken, IsValid, Step, Step-bind, IsPlace}
use zxbasic.Zxbasm.Memory.Store.{
  Memory, ◌>>◌, pure, load, store, error, Message, label_already_defined,
}

-- An error, and then any write.
error-store-Step :
    (e : Message) (p : ℕ) (l : Label) {m : Memory}
    → IsValid m
    → Step (λ u m'. length m'.labels ≡ length m.labels) m ((error e >> store p l) m)
unfolding error store
error-store-Step e p l {m} v =
    let w = store-IsValid p l v in
    record {
      result = tt;
      after = record m { errors = e ∷ m.errors; labels = set m.labels p l };
      returns = refl;
      valid = record {
        entered = w.entered;
        global_bound = w.global_bound;
        inner_bound = w.inner_bound;
      };
      keeps = record {
        more = omega (arith, length-set m.labels p l);
        logged = omega arith;
        values_stay = λ x. absurd (omega arith);
      };
      holds = length-set m.labels p l;
    }

define_found-Step :
    (e : Message) (p : ℕ) (old l : Label) (c : Option Value) {m : Memory}
    → old.value ≡ c
    → IsValid m
    → Holds p old m
    → IsPlace p m
    → Step (λ u m'. IsPlace p m') m (((if is_some c then error e else pure tt) >> store p l) m)
define_found-Step e p old l none {m} c v h q =
    Step-weaken (λ u m'. length m'.labels ≡ length m.labels) (λ u m'. IsPlace p m')
      (λ u m' same. omega arith) (store-Step p old l v h (λ w k. cc))
define_found-Step e p old l (some x) {m} c v h q =
    Step-weaken (λ u m'. length m'.labels ≡ length m.labels) (λ u m'. IsPlace p m')
      (λ u m' same. omega arith) (error-store-Step e p l v)

-- A label that has a value already is an error, so a silent definition gives it its first.
pub define-Step :
    (g : Globals) (p : ℕ) (value : Option Value) (lineno : ℕ) {m : Memory}
    → IsValid m
    → IsPlace p m
    → Step (λ u m'. IsPlace p m') m (define g p value lineno m)
unfolding define
define-Step g p value lineno {m} v h =
    Step-bind (λ l m'. Holds p l m' × IsPlace p m') (λ u m'. IsPlace p m') (load p)
      (λ l.
        (if defined l then error (label_already_defined lineno (name l) l.lineno) else pure tt)
        >> store p (record l { value = value; lineno = lineno; namespace = some g.namespace }))
      (load-Step p v h)
      (λ l m' v' k q.
        define_found-Step (label_already_defined lineno (name l) l.lineno) p l
          (record l { value = value; lineno = lineno; namespace = some g.namespace }) l.value refl
          v' q.0 q.1)
