-- ===== src/Zxbasm/Memory/Context.antt =====
-- src/zxbasm/memory.py, src/zxbasm/label.py: the current address and the current scope, and the
-- definition of a label.
use zxbasic.Prelude.{ℕ, List, [], ◌∷◌, Option, none, some, if◌then◌else◌}
use zxbasic.Prelude.Dict.{get, put, text_key, ℤ_key, place_key}
use zxbasic.Prelude.Int.{pos}
use zxbasic.Zxbasm.Expr.{Value}
use zxbasic.Zxbasm.Label.{Globals, defined, is_some, name}
use zxbasic.Zxbasm.Memory.Store.{
  Memory, M, ◌>>=◌, ◌>>◌, pure, load, store, error, Scope, label_already_defined,
}

set_slot : Memory → Memory
set_slot m = if is_some (get m.orgs m.index) then m else record m {
  orgs = put m.orgs m.index [];
  memory_bytes = put m.memory_bytes m.index (pos 0);
}

unfoldable pub set_memory_slot : M (Unit {0})
unfolding set_slot
set_memory_slot m = some (tt, set_slot m)

unfoldable pub entries : Option (List ℕ) → List ℕ
entries none = []
entries (some xs) = xs

-- `Label.define`, called with no namespace
unfoldable pub define : Globals → ℕ → Option Value → ℕ → M (Unit {0})
define g p value lineno = do
  l ← load p
  if defined l then error (label_already_defined lineno (name l) l.lineno) else pure tt
  store p (record l { value = value; lineno = lineno; namespace = some g.namespace })

-- `local_labels[-1]`
unfoldable pub innermost : List Scope → Scope → Scope
innermost [] global_labels = global_labels
innermost (s ∷ ss) global_labels = s

abbrev pub current : Memory → Scope
unfolding innermost
current m = innermost m.inner m.global_labels

unfoldable pub set_innermost : List Scope → Scope → Memory → Memory
set_innermost [] s m = record m { global_labels = s }
set_innermost (t ∷ ts) s m = record m { inner = s ∷ ts }

-- `local_labels[-1][k] = p`
unfoldable pub bind_current : List ℕ → ℕ → M (Unit {0})
unfolding set_innermost innermost
bind_current k p m =
    some (tt, set_innermost m.inner (put (innermost m.inner m.global_labels) k p) m)
