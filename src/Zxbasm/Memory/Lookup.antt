-- ===== src/Zxbasm/Memory/Lookup.antt =====
-- src/zxbasm/memory.py: `get_label` and `set_label`.
pub mod Sound
pub mod Found
use zxbasic.Prelude.{
  ℕ, Bool, true, false, not, ◌&&◌, ◌||◌, ◌==◌, leb, ltb, List, [], ◌∷◌, ◌++◌, Option, none, some,
  if◌then◌else◌, map, length,
}
use zxbasic.Prelude.Dict.{Dict, get, put, same_text, text_key, ℤ_key, place_key}
use zxbasic.Prelude.Int.{ℤ, pos, negsuc}
use zxbasic.Zxbasm.Expr.{Value, address}
use zxbasic.Zxbasm.Label.{Globals, Label, defined, is_some, is_decimal, is_temporary, id_name, name}
use zxbasic.Zxbasm.Memory.Store.{
  Memory, M, ◌>>=◌, ◌>>◌, pure, raise, create, load, store, error, warn, Message, Scope,
  undefined_local, endp_in_global, org_out_of_range, label_already_defined, already_local,
}
use zxbasic.Zxbasm.Memory.Context.{
  set_memory_slot, innermost, current, set_innermost, bind_current, define, entries,
}

abbrev same_bool : Bool → Bool → Bool
same_bool true b = b
same_bool false b = not b

-- The scopes, innermost first, and then the global one.
abbrev or_else : Option ℕ → Option ℕ → Option ℕ
or_else none o = o
or_else (some p) o = some p

unfoldable pub find_label : List Scope → Scope → List ℕ → Option ℕ
find_label [] global_labels k = get global_labels k
find_label (s ∷ ss) global_labels k = or_else (get s k) (find_label ss global_labels k)

add_pending : List ℕ → ℕ → Memory → Memory
unfolding entries
add_pending fname p m = record m {
  tmp_pending_labels =
      put m.tmp_pending_labels fname (entries (get m.tmp_pending_labels fname) ++ p ∷ []);
}

abbrev fresh : Globals → List ℕ → ℕ → List ℕ → Label
fresh g ex_label lineno namespace = record {
  full_name = ex_label;
  lineno = lineno;
  value = none;
  local = false;
  namespace = some namespace;
  current_namespace = g.namespace;
  is_address = false;
}

get_or_bind : List ℕ → ℕ → Option ℕ → M ℕ
unfolding bind_current
get_or_bind ex_label p (some q) = pure q
get_or_bind ex_label p none = do bind_current ex_label p; pure p

get_named : Globals → ℕ → Option (List ℕ × List ℕ) → M ℕ
unfolding is_temporary add_pending get_or_bind find_label
get_named g lineno none = raise
get_named g lineno (some (ex_label, namespace)) = do
  p ← create (fresh g ex_label lineno namespace)
  λ m.
      if is_temporary (fresh g ex_label lineno namespace)
      then some (p, add_pending g.filename p m)
      else get_or_bind ex_label p (find_label m.inner m.global_labels ex_label) m

unfoldable pub get_label : Globals → List ℕ → ℕ → M ℕ
unfolding get_named id_name
get_label g label lineno = get_named g lineno (id_name g label none)

mark : Globals → List ℕ → ℕ → Option ℕ → M ℕ
unfolding bind_current
mark g ex_label lineno (some p) = do l ← load p; store p (record l { lineno = lineno }); pure p
mark g ex_label lineno none = do
  p ← create (fresh g ex_label lineno g.namespace)
  bind_current ex_label p
  pure p

set_named : Globals → List ℕ → ℕ → Bool → Option (List ℕ × List ℕ) → M ℕ
unfolding mark innermost
set_named g label lineno local none = raise
set_named g label lineno local (some (ex_label, namespace)) = do
  p ← λ m. mark g ex_label lineno (get (current m) ex_label) m
  l ← load p
  if same_bool l.local local then warn (already_local lineno label) else pure tt
  store p (record l { local = local })
  pure p

unfoldable pub set_label : Globals → List ℕ → ℕ → Bool → M ℕ
unfolding set_named id_name
set_label g label lineno local = set_named g label lineno local (id_name g label none)
