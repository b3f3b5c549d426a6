-- ===== src/Zxbasm/Memory/Declare.antt =====
-- src/zxbasm/memory.py: `declare_label`.
pub mod Sound
pub mod Result
use zxbasic.Prelude.{
  ℕ, Bool, true, false, not, ◌&&◌, ◌||◌, ◌==◌, leb, ltb, List, [], ◌∷◌, ◌++◌, Option, none, some,
  if◌then◌else◌, map, length,
}
use zxbasic.Prelude.Dict.{Dict, get, put, same_text, text_key, ℤ_key, place_key}
use zxbasic.Prelude.Int.{ℤ, pos, negsuc}
use zxbasic.Zxbasm.Expr.{Value, address}
use zxbasic.Zxbasm.Label.{Globals, Label, defined, is_some, is_decimal, is_temporary, id_name, name}
use zxbasic.Zxbasm.Memory.Store.{
  Memory, M, ◌>>=◌, ◌>>◌, pure, raise, create, load, store, error, warn, Message, Scope,
  undefined_local, endp_in_global, org_out_of_range, label_already_defined, already_local,
}
use zxbasic.Zxbasm.Memory.Context.{
  set_memory_slot, innermost, current, set_innermost, bind_current, define, entries,
}

-- A temporary label, behind the assertion that lines come in order.
last_line : List ℕ → Option ℕ
last_line [] = none
last_line (x ∷ []) = some x
last_line (x ∷ y ∷ xs) = last_line (y ∷ xs)

unfoldable pub lines_of : List ℕ → Memory → List ℕ
unfolding entries
lines_of fname m = entries (get m.tmp_labels_lines fname)

in_order : Option ℕ → ℕ → Bool
in_order none lineno = true
in_order (some line) lineno = leb line lineno

is_new : Option ℕ → ℕ → Bool
is_new none lineno = true
is_new (some line) lineno = not (line == lineno)

unfoldable pub keeps_order : List ℕ → ℕ → Memory → Bool
unfolding lines_of in_order last_line
keeps_order fname lineno m = in_order (last_line (lines_of fname m)) lineno

scope_of : Option Scope → Scope
scope_of none = []
scope_of (some s) = s

add_temporary : List ℕ → ℕ → List ℕ → ℕ → Memory → Memory
unfolding lines_of is_new last_line scope_of
add_temporary fname lineno ex_label p m =
    let lines = lines_of fname m in
    record m {
      tmp_labels_lines =
          if is_new (last_line lines) lineno
          then put m.tmp_labels_lines fname (lines ++ lineno ∷ [])
          else m.tmp_labels_lines;
      tmp_labels =
          put m.tmp_labels (fname, lineno)
            (put (scope_of (get m.tmp_labels (fname, lineno))) ex_label p);
    }

declare_temporary : Globals → List ℕ → List ℕ → ℕ → Value → M (Unit {0})
unfolding keeps_order add_temporary
declare_temporary g ex_label namespace lineno value = do
  λ m. if keeps_order g.filename lineno m then some (tt, m) else none
  p ← create (record {
    full_name = ex_label;
    lineno = lineno;
    value = some value;
    local = false;
    namespace = some namespace;
    current_namespace = g.namespace;
    is_address = true;
  })
  λ m. some (tt, add_temporary g.filename lineno ex_label p m)

declare_at : Globals → List ℕ → List ℕ → ℕ → Value → Bool → Bool → Option ℕ → M (Unit {0})
unfolding define bind_current
declare_at g ex_label namespace lineno value is_address local (some p) = do
  define g p (some value) lineno
  l ← load p
  store p (record l { is_address = is_address })
declare_at g ex_label namespace lineno value is_address local none = do
  p ← create (record {
    full_name = ex_label;
    lineno = lineno;
    value = some value;
    local = local;
    namespace = some namespace;
    current_namespace = g.namespace;
    is_address = is_address;
  })
  bind_current ex_label p

unfoldable pub value_or_org : Option Value → ℤ → Value
value_or_org none org = address org
value_or_org (some v) org = v

declare_named : Globals → List ℕ → ℕ → Option Value → Bool → Option (List ℕ × List ℕ) → M (Unit {0})
unfolding declare_temporary declare_at value_or_org set_memory_slot innermost
declare_named g label lineno value local none m = none
declare_named g label lineno value local (some (ex_label, namespace)) m =
    let v = value_or_org value m.index in
    if is_decimal label
    then declare_temporary g ex_label namespace lineno v m
    else (do
      declare_at g ex_label namespace lineno v (not (is_some value)) local
          (get (current m) ex_label)
      set_memory_slot)
        m

unfoldable pub declare_label :
    Globals → List ℕ → ℕ → Option Value → Bool → Option (List ℕ) → M (Unit {0})
unfolding declare_named id_name
declare_label g label lineno value local namespace =
    declare_named g label lineno value local (id_name g label namespace)
