-- ===== src/Zxbasm/Memory/Lookup/Found.antt =====
-- src/zxbasm/memory.py: a reference to a label that is declared in the current scope.
use zxbasic.Prelude.{
  ℕ, zero, suc, ◌<◌, Bool, false, List, [], ◌∷◌, ◌++◌, Option, none, some, length, get_elem?,
  get_elem?-append_left, ◌≡◌, refl, ◌∙◌, arith,
}
use zxbasic.Prelude.Dict.{get, text_key, ℤ_key}
use zxbasic.Zxbasm.Expr.{Value}
use zxbasic.Zxbasm.Label.{Globals, Label, is_decimal, is_temporary, starts_with_digit, id_name}
use zxbasic.Zxbasm.Memory.Context.{innermost, current}
use zxbasic.Zxbasm.Memory.Declare.Result.{
  Declared, after_definition, label_of, declare_label-Declared,
}
use zxbasic.Zxbasm.Memory.Declare.{declare_label, value_or_org}
use zxbasic.Zxbasm.Memory.Keeps.{IsValid}
use zxbasic.Zxbasm.Memory.Lookup.{find_label, fresh, or_else, get_named, get_label}
use zxbasic.Zxbasm.Memory.Store.{Memory, create, Scope}

find_label-current :
    (ss : List Scope) (global_labels : Scope) (k : List ℕ) (p : ℕ)
    → get (innermost ss global_labels) k ≡ some p
    → find_label ss global_labels k ≡ some p
unfolding find_label innermost
find_label-current [] global_labels k p e = e
find_label-current (s ∷ ss) global_labels k p e = rw (e, or_else) refl

get_elem?-bound : (xs : List Label) (p : ℕ) (l : Label) → get_elem? xs p ≡ some l → p < length xs
get_elem?-bound [] p l e = cc
get_elem?-bound (x ∷ xs) zero l e = omega arith
get_elem?-bound (x ∷ xs) (suc p) l e = omega (arith, get_elem?-bound xs p l e)

-- The label that is found is the one that the current scope holds.
get_label-Declared :
    (g : Globals) (label k namespace : List ℕ) (v : Value) (lineno lineno' : ℕ) (m : Memory)
    → id_name g label none ≡ some (k, namespace)
    → starts_with_digit k ≡ false
    → Declared k v lineno m
    → (p : ℕ) × (m' : Memory) × (l : Label) × (get_label g label lineno' m ≡ some (p, m'))
      × (get_elem? m'.labels p ≡ some l)
      × (l.value ≡ some v)
      × (l.lineno ≡ lineno)
unfolding get_label get_named create is_temporary innermost
get_label-Declared g label k namespace v lineno lineno' m names plain d =
    let m' = record m { labels = m.labels ++ fresh g k lineno' namespace ∷ [] } in
    (
      d.place,
      m',
      d.label,
      rw names (rw plain (rw (find_label-current m.inner m.global_labels k d.place d.bound) refl)),
      get_elem?-append_left d.place m.labels (fresh g k lineno' namespace ∷ [])
            (get_elem?-bound m.labels d.place d.label d.found)
          ∙ d.found,
      d.has_value,
      d.on_line,
    )

-- A label that is declared is found: from a valid memory, where the name of the label is resolved
-- and is not that of a temporary label, `declare_label` returns, and `get_label` of the same name
-- returns then a label that has the declared value, or the address at the declaration if no value
-- was passed, and its line; also where the scope, or a scope around it, had the name before. If the
-- label of the current scope had a value, "already defined" is logged, though the new value replaces
-- the old one; otherwise no error is logged. (The exit of `error` at the limit of errors is left out.)
pub get_label-declare_label :
    (g : Globals) (label k namespace : List ℕ) (lineno lineno' : ℕ) (value : Option Value)
    (local : Bool) (m : Memory)
    → IsValid m
    → is_decimal label ≡ false
    → id_name g label none ≡ some (k, namespace)
    → starts_with_digit k ≡ false
    → (m' : Memory) × (declare_label g label lineno value local none m ≡ some (tt, m'))
      × (m'.errors ≡ after_definition (label_of (get (current m) k) m) lineno m.errors)
      × (p : ℕ) × (m'' : Memory) × (l : Label) × (get_label g label lineno' m' ≡ some (p, m''))
      × (get_elem? m''.labels p ≡ some l)
      × (l.value ≡ some (value_or_org value m.index))
      × (l.lineno ≡ lineno)
get_label-declare_label g label k namespace lineno lineno' value local m valid number names plain =
    let (m', r, d, logged) =
      declare_label-Declared g label k namespace lineno value local none m valid number names in
    let (p, m'', l, found, held, same, line) =
      get_label-Declared g label k namespace (value_or_org value m.index) lineno lineno' m' names
        plain d in
    (m', r, logged, p, m'', l, found, held, same, line)
