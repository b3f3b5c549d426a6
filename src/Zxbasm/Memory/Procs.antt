-- ===== src/Zxbasm/Memory/Procs.antt =====
-- src/zxbasm/memory.py: `set_org`, and the scopes of PROC and ENDP.
pub mod Sound
pub mod Kept
pub mod Scoping
use zxbasic.Prelude.{
  ℕ, Bool, true, false, not, ◌&&◌, ◌||◌, ◌==◌, leb, ltb, List, [], ◌∷◌, ◌++◌, Option, none, some,
  if◌then◌else◌, map, length,
}
use zxbasic.Prelude.Dict.{Dict, get, put, same_text, text_key, ℤ_key, place_key}
use zxbasic.Prelude.Int.{ℤ, pos, negsuc}
use zxbasic.Zxbasm.Expr.{Value, address}
use zxbasic.Zxbasm.Label.{Globals, Label, defined, is_some, is_decimal, is_temporary, id_name, name}
use zxbasic.Zxbasm.Memory.Store.{
  Memory, M, ◌>>=◌, ◌>>◌, pure, raise, create, load, store, error, warn, Message, Scope,
  undefined_local, endp_in_global, org_out_of_range, label_already_defined, already_local,
}
use zxbasic.Zxbasm.Memory.Context.{
  set_memory_slot, innermost, current, set_innermost, bind_current, define, entries,
}

clear_temporary_labels : Memory → Memory
clear_temporary_labels m = record m {
  tmp_labels_lines = [];
  tmp_labels = [];
  tmp_pending_labels = [];
}

-- An address that is out of range is set all the same.
in_range : ℤ → Bool
in_range (pos n) = leb n 65535
in_range (negsuc n) = false

unfoldable pub set_org : ℤ → ℕ → M (Unit {0})
unfolding in_range clear_temporary_labels
set_org value lineno = do
  if in_range value then pure tt else error (org_out_of_range lineno value)
  λ m. some (tt, record (clear_temporary_labels m) { index = value; org_value = value })

unfoldable pub enter_proc : ℕ → M (Unit {0})
enter_proc lineno m = some (tt, record m { inner = [] ∷ m.inner; scopes = lineno ∷ m.scopes })

bind_global : List ℕ → ℕ → M (Unit {0})
bind_global k p m = some (tt, record m { global_labels = put m.global_labels k p })

-- The loop of `exit_proc` over the labels of the scope; false is the return on an error.
pub transfer : Globals → ℕ → Label → Option ℕ → M (Unit {0})
unfolding bind_global define
transfer g p l none = bind_global (name l) p
transfer g p l (some q) = define g q l.value l.lineno

pub export_label : Globals → ℕ → ℕ → Label → M Bool
unfolding transfer
export_label g lineno p l =
    if l.local
    then (if not (defined l)
        then (do error (undefined_local lineno (name l)); pure false)
        else pure true)
    else (λ m. (do transfer g p l (get m.global_labels (name l)); pure true) m)

export_labels : Globals → ℕ → List ℕ → M Bool
unfolding export_label
export_labels g lineno [] = pure true
export_labels g lineno (p ∷ ps) = do
  l ← load p
  done ← export_label g lineno p l
  let rest = export_labels g lineno ps
  if done then rest else pure false

-- `pop`, of a list with the last item first
abbrev tail {ℓ} : {A : Type ℓ} → List A → List A
tail [] = []
tail (x ∷ xs) = xs

-- The scope is left only if the loop came to its end. `scopes` has an item then, as IsValid says, so
-- that its `pop` raises nothing.
pop_scope : Bool → M (Unit {0})
pop_scope false m = some (tt, m)
pop_scope true m = some (tt, record m { inner = tail m.inner; scopes = tail m.scopes })

leave : Globals → ℕ → List Scope → M (Unit {0})
unfolding export_labels pop_scope
leave g lineno [] = error (endp_in_global lineno)
leave g lineno (s ∷ rest) = do
  done ← export_labels g lineno (map (λ item. item.1) s)
  pop_scope done

unfoldable pub exit_proc : Globals → ℕ → M (Unit {0})
unfolding leave
exit_proc g lineno m = leave g lineno m.inner m
