-- ===== src/Zxbasm/Memory/Store.antt =====
-- src/zxbasm/memory.py: the state of the assembler's memory, and the objects and messages that its
-- methods read, change and log.
use zxbasic.Prelude.{ℕ, List, [], ◌∷◌, ◌++◌, Option, none, some, get_elem?, set, length}
use zxbasic.Prelude.Dict.{Dict}
use zxbasic.Prelude.Int.{ℤ}
use zxbasic.Zxbasm.Label.{Label}

-- The errors and warnings that are logged.
pub data Message : Type 0 where
  label_already_defined : ℕ → List ℕ → ℕ → Message
  undefined_local : ℕ → List ℕ → Message
  endp_in_global : ℕ → Message
  org_out_of_range : ℕ → ℤ → Message
  already_local : ℕ → List ℕ → Message

-- Names to labels, by their places.
abbrev pub Scope : Type 0
Scope = Dict (List ℕ) ℕ

-- `local_labels` is `global_labels` with the scopes of `inner` after it; `inner` and `scopes` have
-- the innermost one first. An instruction of `orgs` is its place in the store of Asm objects.
-- `errors` and `warnings` have the last one first.
pub record Memory : Type 0 where
  pub labels : List Label
  pub index : ℤ
  pub org_value : ℤ
  pub memory_bytes : Dict ℤ ℤ
  pub orgs : Dict ℤ (List ℕ)
  pub global_labels : Scope
  pub inner : List Scope
  pub scopes : List ℕ
  pub tmp_labels : Dict (List ℕ × ℕ) Scope
  pub tmp_labels_lines : Dict (List ℕ) (List ℕ)
  pub tmp_pending_labels : Dict (List ℕ) (List ℕ)
  pub errors : List Message
  pub warnings : List Message

-- `none` is an exception. An access outside the store is one too, and does not happen.
abbrev pub M : Type 0 → Type 0
M A = Memory → Option (A × Memory)

infixl 5 ◌>>=◌ ◌>>◌
abbrev pub ◌>>=◌ : {A B : Type 0} → M A → (A → M B) → M B
◌>>=◌ m f s = elim (m s) [ none ↦ none | some (a, s') ↦ f a s' ]

abbrev pub ◌>>◌ : {B : Type 0} → M (Unit {0}) → M B → M B
m >> k = m >>= λ _. k

abbrev pub pure : {A : Type 0} → A → M A
pure a m = some (a, m)

abbrev pub raise : {A : Type 0} → M A
raise m = none

unfoldable pub load : ℕ → M Label
load p m = elim (get_elem? m.labels p) [ none ↦ none | some l ↦ some (l, m) ]

unfoldable pub store : ℕ → Label → M (Unit {0})
store p l m = some (tt, record m { labels = set m.labels p l })

-- A new object, and its place.
unfoldable pub create : Label → M ℕ
create l m = some (length m.labels, record m { labels = m.labels ++ l ∷ [] })

-- The messages count; the exit at `max_syntax_errors` is not modelled.
unfoldable pub error : Message → M (Unit {0})
error e m = some (tt, record m { errors = e ∷ m.errors })

unfoldable pub warn : Message → M (Unit {0})
warn e m = some (tt, record m { warnings = e ∷ m.warnings })
