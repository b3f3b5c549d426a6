-- ===== src/Zxbasm/Memory/Declare/Sound.antt =====
-- src/zxbasm/memory.py: what `declare_label` keeps.
use zxbasic.Prelude.{ℕ, Bool, true, false, not, List, ◌∷◌, Option, none, some, length, ◌≡◌, refl}
use zxbasic.Prelude.Dict.{get, text_key, ℤ_key}
use zxbasic.Zxbasm.Expr.{Value}
use zxbasic.Zxbasm.Label.{Globals, is_some, is_decimal, id_name-some}
use zxbasic.Zxbasm.Memory.Access.{
  Holds, load-Step, store-Step, create-Step, update-Step, IsValid-same,
}
use zxbasic.Zxbasm.Memory.Bindings.{bind_current-Step, set_memory_slot-Step, current_bound}
use zxbasic.Zxbasm.Memory.Context.{set_memory_slot, current, bind_current, define}
use zxbasic.Zxbasm.Memory.Defining.{define-Step}
use zxbasic.Zxbasm.Memory.Keeps.{IsValid, Step, Step-bind, Step-weaken, Anything, IsPlace}
use zxbasic.Zxbasm.Memory.Declare.{
  declare_label, declare_temporary, declare_at, declare_named, keeps_order, add_temporary,
  value_or_org,
}
use zxbasic.Zxbasm.Memory.Store.{Memory, ◌>>=◌, create, load, store}

declare_temporary-Step :
    (g : Globals) (ex_label namespace : List ℕ) (lineno : ℕ) (value : Value) {m : Memory}
    → keeps_order g.filename lineno m ≡ true
    → IsValid m
    → Step Anything m (declare_temporary g ex_label namespace lineno value m)
unfolding declare_temporary add_temporary
declare_temporary-Step g ex_label namespace lineno value {m} order v =
    rw (order, ◌>>=◌)
      (Step-bind (λ p m'. IsPlace p m') Anything
        (create (record {
          full_name = ex_label;
          lineno = lineno;
          value = some value;
          local = false;
          namespace = some namespace;
          current_namespace = g.namespace;
          is_address = true;
        }))
        (λ p m. some (tt, add_temporary g.filename lineno ex_label p m)) (create-Step _ v)
        (λ p m' v' k q.
          Step-weaken (λ u m''. m''.labels ≡ m'.labels) Anything (λ u m'' x. tt)
            (update-Step tt m' (add_temporary g.filename lineno ex_label p m') refl refl
              (IsValid-same _ refl refl refl refl v'))))

declare_at-Step :
    (g : Globals) (ex_label namespace : List ℕ) (lineno : ℕ) (value : Value)
    (is_address local : Bool) (o : Option ℕ) {m : Memory}
    → get (current m) ex_label ≡ o
    → IsValid m
    → Step Anything m (declare_at g ex_label namespace lineno value is_address local o m)
unfolding declare_at
declare_at-Step g ex_label namespace lineno value is_address local (some p) {m} e v =
    Step-bind (λ u m'. IsPlace p m') Anything (define g p (some value) lineno)
      (λ u. load p >>= λ l. store p (record l { is_address = is_address }))
      (define-Step g p (some value) lineno v (current_bound m ex_label v e))
      (λ u m' v' k q.
        Step-bind (λ l m''. Holds p l m'' × IsPlace p m'') Anything (load p)
          (λ l. store p (record l { is_address = is_address })) (load-Step p v' q)
          (λ l m'' v'' k' q'.
            Step-weaken (λ u m'''. length m'''.labels ≡ length m''.labels) Anything (λ u m''' x. tt)
              (store-Step p l (record l { is_address = is_address }) v'' q'.0 (λ w x. x))))
declare_at-Step g ex_label namespace lineno value is_address local none {m} e v =
    Step-bind (λ p m'. IsPlace p m') Anything
      (create (record {
        full_name = ex_label;
        lineno = lineno;
        value = some value;
        local = local;
        namespace = some namespace;
        current_namespace = g.namespace;
        is_address = is_address;
      }))
      (bind_current ex_label) (create-Step _ v)
      (λ p m' v' k q.
        Step-weaken (λ u m''. m''.labels ≡ m'.labels) Anything (λ u m'' x. tt)
          (bind_current-Step ex_label p v' q))

declare_named-Step :
    (g : Globals) (label : List ℕ) (lineno : ℕ) (value : Option Value) (local : Bool)
    (names : List ℕ × List ℕ) (temporary : Bool) {m : Memory}
    → is_decimal label ≡ temporary
    → (temporary ≡ true → keeps_order g.filename lineno m ≡ true)
    → IsValid m
    → Step Anything m (declare_named g label lineno value local (some names) m)
unfolding declare_named
declare_named-Step g label lineno value local (ex_label, namespace) true {m} e order v =
    rw e (
      declare_temporary-Step g ex_label namespace lineno (value_or_org value m.index) (order refl)
        v)
declare_named-Step g label lineno value local (ex_label, namespace) false {m} e order v = rw e (
    Step-bind Anything Anything
      (declare_at g ex_label namespace lineno (value_or_org value m.index) (not (is_some value))
        local (get (current m) ex_label))
      (λ u. set_memory_slot)
      (declare_at-Step g ex_label namespace lineno (value_or_org value m.index)
        (not (is_some value)) local (get (current m) ex_label) refl v)
      (λ u m' v' k q.
        Step-weaken (λ u m''. m''.labels ≡ m'.labels) Anything (λ u m'' x. tt)
          (set_memory_slot-Step v')))

-- A name is resolved if it is not empty; a temporary label has to keep the order of lines.
pub declare_label-Step :
    (g : Globals) (c : ℕ) (cs : List ℕ) (lineno : ℕ) (value : Option Value) (local : Bool)
    (namespace : Option (List ℕ)) {m : Memory}
    → (is_decimal (c ∷ cs) ≡ true → keeps_order g.filename lineno m ≡ true)
    → IsValid m
    → Step Anything m (declare_label g (c ∷ cs) lineno value local namespace m)
unfolding declare_label
declare_label-Step g c cs lineno value local namespace order v =
    let (names, e) = id_name-some g c cs namespace in
    rw e (declare_named-Step g (c ∷ cs) lineno value local names (is_decimal (c ∷ cs)) refl order v)
