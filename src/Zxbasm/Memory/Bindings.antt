-- ===== src/Zxbasm/Memory/Bindings.antt =====
-- src/zxbasm/memory.py: what a binding of a name in a scope keeps.
use zxbasic.Prelude.{
  ℕ, ◌<◌, Bool, true, false, List, [], ◌∷◌, some, length, ◌≡◌, refl, sym, ◌∙◌, ap, All,
  if◌then◌else◌,
}
use mathlib.Core.Path.{subst}
use zxbasic.Prelude.Dict.{get, put, text_key, ℤ_key}
use zxbasic.Prelude.Int.{pos}
use zxbasic.Zxbasm.Label.{is_some}
use zxbasic.Zxbasm.Memory.Context.{set_memory_slot, innermost, current, set_innermost, bind_current}
use zxbasic.Zxbasm.Memory.Access.{update-Step, IsValid-same}
use zxbasic.Zxbasm.Memory.Keeps.{Bound, IsValid, Step, IsPlace, Bound-put, Bound-get}
use zxbasic.Zxbasm.Memory.Store.{Memory, Scope}

bind_in-Step :
    (k : List ℕ) (p : ℕ) (ss : List Scope) {m : Memory}
    → m.inner ≡ ss
    → IsValid m
    → IsPlace p m
    → Step
        (λ u m'. m'.labels ≡ m.labels)
        m
        (some (tt, set_innermost ss (put (innermost ss m.global_labels) k p) m))
unfolding set_innermost innermost
bind_in-Step k p [] {m} e v h =
    update-Step tt m (record m { global_labels = put m.global_labels k p }) refl refl
      (record {
        entered = v.entered;
        global_bound = Bound-put m.global_labels k h v.global_bound;
        inner_bound = v.inner_bound;
      })
bind_in-Step k p (t ∷ ts) {m} e v h =
    let bounds : All (Bound (length m.labels)) (t ∷ ts) =
      subst (λ ss. All (Bound (length m.labels)) ss) e v.inner_bound in
    update-Step tt m (record m { inner = put t k p ∷ ts }) refl refl
      (record {
        entered = sym (ap length e) ∙ v.entered;
        global_bound = v.global_bound;
        inner_bound = (Bound-put t k h bounds.0, bounds.1);
      })

pub bind_current-Step :
    (k : List ℕ) (p : ℕ) {m : Memory}
    → IsValid m
    → IsPlace p m
    → Step (λ u m'. m'.labels ≡ m.labels) m (bind_current k p m)
unfolding bind_current
bind_current-Step k p {m} v h = bind_in-Step k p m.inner refl v h

slot-Step :
    (b : Bool) (m m' : Memory)
    → IsValid m
    → m'.labels ≡ m.labels
    → m'.errors ≡ m.errors
    → IsValid m'
    → Step (λ u m''. m''.labels ≡ m.labels) m (some (tt, if b then m else m'))
slot-Step true m m' v l e v' = update-Step tt m m refl refl v
slot-Step false m m' v l e v' = update-Step tt m m' l e v'

pub set_memory_slot-Step :
    {m : Memory} → IsValid m → Step (λ u m'. m'.labels ≡ m.labels) m (set_memory_slot m)
unfolding set_memory_slot
set_memory_slot-Step {m} v =
    slot-Step (is_some (get m.orgs m.index)) m
      (record m { orgs = put m.orgs m.index []; memory_bytes = put m.memory_bytes m.index (pos 0) })
      v refl refl (IsValid-same _ refl refl refl refl v)

innermost_in-Bound :
    {n : ℕ} {p : ℕ} (ss : List Scope) (global_labels : Scope) (k : List ℕ)
    → All (Bound n) ss
    → Bound n global_labels
    → get (innermost ss global_labels) k ≡ some p
    → p < n
unfolding innermost
innermost_in-Bound {p = p} [] global_labels k b c e = Bound-get {p = p} global_labels k c e
innermost_in-Bound {p = p} (s ∷ ss) global_labels k b c e = Bound-get {p = p} s k b.0 e

pub current_bound :
    (m : Memory) {p : ℕ} (k : List ℕ) → IsValid m → get (current m) k ≡ some p → IsPlace p m
unfolding innermost
current_bound m {p} k v e =
    innermost_in-Bound {n = length m.labels} {p = p} m.inner m.global_labels k v.inner_bound
      v.global_bound e
