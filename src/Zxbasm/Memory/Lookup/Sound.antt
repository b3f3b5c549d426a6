-- ===== src/Zxbasm/Memory/Lookup/Sound.antt =====
-- src/zxbasm/memory.py: what `get_label` and `set_label` keep.
use zxbasic.Prelude.{
  ℕ, ◌<◌, Bool, true, false, List, [], ◌∷◌, Option, none, some, length, ◌≡◌, refl, arith, All, inl,
  inr, ◌⊎◌, if◌then◌else◌,
}
use zxbasic.Prelude.Dict.{get, text_key, ℤ_key}
use zxbasic.Zxbasm.Label.{Globals, is_temporary, id_name-some}
use zxbasic.Zxbasm.Memory.Access.{
  Holds, load-Step, store-Step, create-Step, update-Step, IsValid-same, warn-Step,
}
use zxbasic.Zxbasm.Memory.Bindings.{bind_current-Step, current_bound}
use zxbasic.Zxbasm.Memory.Context.{current, bind_current}
use zxbasic.Zxbasm.Memory.Keeps.{Bound, IsValid, Step, Step-pure, Step-bind, IsPlace, Bound-get}
use zxbasic.Zxbasm.Memory.Lookup.{
  find_label, add_pending, fresh, or_else, get_or_bind, get_named, get_label, mark, set_named,
  set_label, same_bool,
}
use zxbasic.Zxbasm.Memory.Store.{
  Memory, ◌>>=◌, ◌>>◌, pure, create, load, store, warn, Message, Scope, already_local,
}

or_else-some : (a b : Option ℕ) (p : ℕ) → or_else a b ≡ some p → (a ≡ some p) ⊎ (b ≡ some p)
or_else-some none b p h = inr h
or_else-some (some q) b p h = inl h

find_label-Bound :
    (n p : ℕ) (ss : List Scope) (global_labels : Scope) (k : List ℕ)
    → All (Bound n) ss
    → Bound n global_labels
    → find_label ss global_labels k ≡ some p
    → p < n
unfolding find_label
find_label-Bound n p [] global_labels k b c e = Bound-get {p = p} global_labels k c e
find_label-Bound n p (s ∷ ss) global_labels k b c e =
    elim (or_else-some (get s k) (find_label ss global_labels k) p e) [
      | inl here ↦ Bound-get {p = p} s k b.0 here
      | inr further ↦ find_label-Bound n p ss global_labels k b.1 c further
    ]

get_or_bind-Step :
    (ex_label : List ℕ) (p : ℕ) (o : Option ℕ) {m : Memory}
    → ((q : ℕ) → o ≡ some q → IsPlace q m)
    → IsValid m
    → IsPlace p m
    → Step (λ r m'. IsPlace r m') m (get_or_bind ex_label p o m)
unfolding get_or_bind
get_or_bind-Step ex_label p (some q) found v h = Step-pure (λ r m'. IsPlace r m') q v (found q refl)
get_or_bind-Step ex_label p none {m} found v h =
    Step-bind (λ u m'. m'.labels ≡ m.labels) (λ r m'. IsPlace r m') (bind_current ex_label p)
      (λ u. pure p) (bind_current-Step ex_label p v h)
      (λ u m' v' k q. Step-pure (λ r m''. IsPlace r m'') p v' (omega (arith, k.more)))

-- A reference to a temporary label is put aside; any other is looked up, or bound.
reference-Step :
    (fname ex_label : List ℕ) (p : ℕ) (temporary : Bool) {m : Memory}
    → IsValid m
    → IsPlace p m
    → Step
        (λ r m'. IsPlace r m')
        m
        (if temporary
          then some (p, add_pending fname p m)
          else get_or_bind ex_label p (find_label m.inner m.global_labels ex_label) m)
unfolding add_pending
reference-Step fname ex_label p true {m} v h =
    Step-bind (λ u m'. m'.labels ≡ m.labels) (λ r m'. IsPlace r m')
      (λ m. some (tt, add_pending fname p m)) (λ u. pure p)
      (update-Step tt m (add_pending fname p m) refl refl (IsValid-same _ refl refl refl refl v))
      (λ u m' v' k q. Step-pure (λ r m''. IsPlace r m'') p v' (omega (arith, k.more)))
reference-Step fname ex_label p false {m} v h =
    get_or_bind-Step ex_label p (find_label m.inner m.global_labels ex_label)
      (λ q e.
        find_label-Bound (length m.labels) q m.inner m.global_labels ex_label v.inner_bound
          v.global_bound e)
      v h

pub get_label-Step :
    (g : Globals) (c : ℕ) (cs : List ℕ) (lineno : ℕ) {m : Memory}
    → IsValid m
    → Step (λ r m'. IsPlace r m') m (get_label g (c ∷ cs) lineno m)
unfolding get_label get_named
get_label-Step g c cs lineno {m} v =
    let (names, e) = id_name-some g c cs none in
    rw e (
      Step-bind (λ p m'. IsPlace p m') (λ r m'. IsPlace r m')
        (create (fresh g names.0 lineno names.1))
        (λ p m.
          if is_temporary (fresh g names.0 lineno names.1)
          then some (p, add_pending g.filename p m)
          else get_or_bind names.0 p (find_label m.inner m.global_labels names.0) m)
        (create-Step (fresh g names.0 lineno names.1) v)
        (λ p m' v' k q.
          reference-Step g.filename names.0 p (is_temporary (fresh g names.0 lineno names.1)) v' q))

mark-Step :
    (g : Globals) (ex_label : List ℕ) (lineno : ℕ) (o : Option ℕ) {m : Memory}
    → ((p : ℕ) → o ≡ some p → IsPlace p m)
    → IsValid m
    → Step (λ r m'. IsPlace r m') m (mark g ex_label lineno o m)
unfolding mark
mark-Step g ex_label lineno (some p) {m} found v =
    Step-bind (λ l m'. Holds p l m' × IsPlace p m') (λ r m'. IsPlace r m') (load p)
      (λ l. store p (record l { lineno = lineno }) >> pure p) (load-Step p v (found p refl))
      (λ l m' v' k q.
        Step-bind (λ u m''. length m''.labels ≡ length m'.labels) (λ r m''. IsPlace r m'')
          (store p (record l { lineno = lineno })) (λ u. pure p)
          (store-Step p l (record l { lineno = lineno }) v' q.0 (λ w x. x))
          (λ u m'' v'' k' q'.
            Step-pure (λ r m'''. IsPlace r m''') p v'' (omega (arith, q.1, k'.more))))
mark-Step g ex_label lineno none {m} found v =
    Step-bind (λ p m'. IsPlace p m') (λ r m'. IsPlace r m')
      (create (fresh g ex_label lineno g.namespace)) (λ p. bind_current ex_label p >> pure p)
      (create-Step (fresh g ex_label lineno g.namespace) v)
      (λ p m' v' k q.
        Step-bind (λ u m''. m''.labels ≡ m'.labels) (λ r m''. IsPlace r m'')
          (bind_current ex_label p) (λ u. pure p) (bind_current-Step ex_label p v' q)
          (λ u m'' v'' k' q'. Step-pure (λ r m'''. IsPlace r m''') p v'' (omega (arith, k'.more))))

warn_if-Step :
    (b : Bool) (e : Message) {m : Memory}
    → IsValid m
    → Step (λ u m'. m'.labels ≡ m.labels) m ((if b then warn e else pure tt) m)
warn_if-Step true e v = warn-Step e v
warn_if-Step false e {m} v = Step-pure (λ u m'. m'.labels ≡ m.labels) tt v refl

-- The flag of a label is set.
set_local-Step :
    (lineno p : ℕ) (label : List ℕ) (local : Bool) {m : Memory}
    → IsValid m
    → IsPlace p m
    → Step
        (λ r m'. IsPlace r m')
        m
        ((do
          l ← load p
          if same_bool l.local local then warn (already_local lineno label) else pure tt
          store p (record l { local = local })
          pure p)
          m)
set_local-Step lineno p label local {m} v h =
    Step-bind (λ l m'. Holds p l m' × IsPlace p m') (λ r m'. IsPlace r m') (load p)
      (λ l.
        (if same_bool l.local local then warn (already_local lineno label) else pure tt)
        >> (store p (record l { local = local }) >> pure p))
      (load-Step p v h)
      (λ l m' v' k q.
        Step-bind (λ u m''. m''.labels ≡ m'.labels) (λ r m''. IsPlace r m'')
          (if same_bool l.local local then warn (already_local lineno label) else pure tt)
          (λ u. store p (record l { local = local }) >> pure p)
          (warn_if-Step (same_bool l.local local) (already_local lineno label) v')
          (λ u m'' v'' k' q'.
            Step-bind (λ u m'''. length m'''.labels ≡ length m''.labels) (λ r m'''. IsPlace r m''')
              (store p (record l { local = local })) (λ u. pure p)
              (store-Step p l (record l { local = local }) v'' (rw q' q.0) (λ w x. x))
              (λ u m3 v3 k3 q3.
                Step-pure (λ r m'''. IsPlace r m''') p v3 (omega (arith, q.1, k'.more, k3.more)))))

pub set_label-Step :
    (g : Globals) (c : ℕ) (cs : List ℕ) (lineno : ℕ) (local : Bool) {m : Memory}
    → IsValid m
    → Step (λ r m'. IsPlace r m') m (set_label g (c ∷ cs) lineno local m)
unfolding set_label set_named
set_label-Step g c cs lineno local {m} v =
    let (names, e) = id_name-some g c cs none in
    rw e (
      Step-bind (λ p m'. IsPlace p m') (λ r m'. IsPlace r m')
        (λ m. mark g names.0 lineno (get (current m) names.0) m)
        (λ p. do
          l ← load p
          if same_bool l.local local then warn (already_local lineno (c ∷ cs)) else pure tt
          store p (record l { local = local })
          pure p)
        (mark-Step g names.0 lineno (get (current m) names.0) (λ p. current_bound m names.0 v) v)
        (λ p m' v' k q. set_local-Step lineno p (c ∷ cs) local v' q))
