-- ===== src/Zxbasm/Memory/Procs/Sound.antt =====
-- src/zxbasm/memory.py: what PROC, ENDP and ORG keep.
use zxbasic.Prelude.{
  ℕ, suc, ◌<◌, ◌≤◌, Bool, true, false, List, [], ◌∷◌, Option, none, some, map, length, ◌≡◌, refl,
  ap, arith, All, if◌then◌else◌,
}
use zxbasic.Prelude.Dict.{get, put, text_key, ℤ_key}
use zxbasic.Prelude.Int.{ℤ}
use zxbasic.Zxbasm.Label.{Globals, Label, defined, name}
use zxbasic.Zxbasm.Memory.Access.{Holds, load-Step, update-Step, error-Step, IsValid-same}
use zxbasic.Zxbasm.Memory.Defining.{define-Step}
use zxbasic.Zxbasm.Memory.Keeps.{
  Bound, IsValid, Step, Step-pure, Step-bind, Step-weaken, Anything, IsPlace, Bound-put, Bound-get,
}
use zxbasic.Zxbasm.Memory.Procs.{
  enter_proc, set_org, exit_proc, bind_global, transfer, export_label, export_labels, pop_scope,
  leave, tail, in_range, clear_temporary_labels,
}
use zxbasic.Zxbasm.Memory.Store.{
  Memory, M, ◌>>=◌, pure, load, error, Scope, undefined_local, endp_in_global, org_out_of_range,
}

pub enter_proc-Step :
    (lineno : ℕ) {m : Memory}
    → IsValid m
    → Step (λ u m'. m'.labels ≡ m.labels) m (enter_proc lineno m)
unfolding enter_proc
enter_proc-Step lineno {m} v = update-Step tt m _ refl refl (record {
  entered = ap suc v.entered;
  global_bound = v.global_bound;
  inner_bound = (tt, v.inner_bound);
})

bind_global-Step :
    (k : List ℕ) (p : ℕ) {m : Memory}
    → IsValid m
    → IsPlace p m
    → Step (λ u m'. m'.labels ≡ m.labels) m (bind_global k p m)
unfolding bind_global
bind_global-Step k p {m} v h =
    update-Step tt m (record m { global_labels = put m.global_labels k p }) refl refl
      (record {
        entered = v.entered;
        global_bound = Bound-put m.global_labels k h v.global_bound;
        inner_bound = v.inner_bound;
      })

transfer-Step :
    (g : Globals) (p : ℕ) (l : Label) (o : Option ℕ) {m : Memory}
    → IsValid m
    → IsPlace p m
    → get m.global_labels (name l) ≡ o
    → Step Anything m (transfer g p l o m)
unfolding transfer
transfer-Step g p l none {m} v h e =
    Step-weaken (λ u m'. m'.labels ≡ m.labels) Anything (λ u m' x. tt)
      (bind_global-Step (name l) p v h)
transfer-Step g p l (some q) {m} v h e =
    Step-weaken (λ u m'. IsPlace q m') Anything (λ u m' x. tt)
      (define-Step g q l.value l.lineno v (Bound-get m.global_labels (name l) v.global_bound e))

pub export_label-Step :
    (g : Globals) (lineno p : ℕ) (l : Label) (local set : Bool) {m : Memory}
    → l.local ≡ local
    → defined l ≡ set
    → IsValid m
    → IsPlace p m
    → Step Anything m (export_label g lineno p l m)
unfolding export_label name
export_label-Step g lineno p l true true {m} a b v h = rw (a, b) (Step-pure Anything true v tt)
export_label-Step g lineno p l true false {m} a b v h =
    rw (a, b)
      (Step-bind (λ u m'. m'.labels ≡ m.labels) Anything (error (undefined_local lineno (name l)))
        (λ u. pure false) (error-Step (undefined_local lineno (name l)) v)
        (λ u m' v' k q. Step-pure Anything false v' tt))
export_label-Step g lineno p l false set {m} a b v h = rw a (
    Step-bind Anything Anything (transfer g p l (get m.global_labels (name l))) (λ u. pure true)
      (transfer-Step g p l (get m.global_labels (name l)) v h refl)
      (λ u m' v' k q. Step-pure Anything true v' tt))

places_more : {n k : ℕ} (ps : List ℕ) → n ≤ k → All (λ p. p < n) ps → All (λ p. p < k) ps
places_more [] h a = tt
places_more (p ∷ ps) h a = (omega arith, places_more ps h a.1)

export_labels-Step :
    (g : Globals) (lineno : ℕ) (ps : List ℕ) {m : Memory}
    → IsValid m
    → All (λ p. IsPlace p m) ps
    → Step Anything m (export_labels g lineno ps m)
unfolding export_labels
export_labels-Step g lineno [] {m} v h = Step-pure Anything true v tt
export_labels-Step g lineno (p ∷ ps) {m} v h =
    Step-bind (λ l m'. Holds p l m' × IsPlace p m') Anything (load p)
      (λ l. export_label g lineno p l >>= after g lineno ps) (load-Step p v h.0)
      (λ l m' v' k q.
        Step-bind Anything Anything (export_label g lineno p l) (after g lineno ps)
          (export_label-Step g lineno p l l.local (defined l) refl refl v' q.1)
          (λ done m'' v'' k' q'. after-Step done v'' (
            export_labels-Step g lineno ps v''
              (places_more ps (omega (arith, k.more, k'.more)) h.1))))
  where
    after : Globals → ℕ → List ℕ → Bool → M Bool
    after g lineno ps done = if done then export_labels g lineno ps else pure false

    after-Step :
        (done : Bool) {m : Memory}
        → IsValid m
        → Step Anything m (export_labels g lineno ps m)
        → Step Anything m (after g lineno ps done m)
    after-Step true v s = s
    after-Step false v s = Step-pure Anything false v tt

length-tail :
    {A B : Type 0} (xs : List A) (ys : List B)
    → length xs ≡ length ys
    → length (tail xs) ≡ length (tail ys)
length-tail [] [] e = refl
length-tail [] (y ∷ ys) e = absurd (omega (arith, e))
length-tail (x ∷ xs) [] e = absurd (omega (arith, e))
length-tail (x ∷ xs) (y ∷ ys) e = omega (arith, e)

Bound-tail : (n : ℕ) (ss : List Scope) → All (Bound n) ss → All (Bound n) (tail ss)
Bound-tail n [] b = tt
Bound-tail n (s ∷ ss) b = b.1

pop_scope-Step : (done : Bool) {m : Memory} → IsValid m → Step Anything m (pop_scope done m)
unfolding pop_scope
pop_scope-Step false v = Step-pure Anything tt v tt
pop_scope-Step true {m} v =
    Step-weaken (λ u m'. m'.labels ≡ m.labels) Anything (λ u m' x. tt)
      (update-Step tt m (record m { inner = tail m.inner; scopes = tail m.scopes }) refl refl
        (record {
          entered = length-tail m.inner m.scopes v.entered;
          global_bound = v.global_bound;
          inner_bound = Bound-tail (length m.labels) m.inner v.inner_bound;
        }))

Bound-places :
    (n : ℕ) (s : Scope) → Bound n s → All (λ p. p < n) (map (λ (item : List ℕ × ℕ). item.1) s)
Bound-places n [] b = tt
Bound-places n (item ∷ s) b = (b.0, Bound-places n s b.1)

leave-Step :
    (g : Globals) (lineno : ℕ) (ss : List Scope) {m : Memory}
    → All (Bound (length m.labels)) ss
    → IsValid m
    → Step Anything m (leave g lineno ss m)
unfolding leave
leave-Step g lineno [] {m} b v =
    Step-weaken (λ u m'. m'.labels ≡ m.labels) Anything (λ u m' x. tt)
      (error-Step (endp_in_global lineno) v)
leave-Step g lineno (s ∷ rest) {m} b v =
    Step-bind Anything Anything (export_labels g lineno (map (λ item. item.1) s)) pop_scope
      (export_labels-Step g lineno (map (λ item. item.1) s) v
        (Bound-places (length m.labels) s b.0))
      (λ done m' v' k q. pop_scope-Step done v')

pub exit_proc-Step :
    (g : Globals) (lineno : ℕ) {m : Memory} → IsValid m → Step Anything m (exit_proc g lineno m)
unfolding exit_proc
exit_proc-Step g lineno {m} v = leave-Step g lineno m.inner v.inner_bound v

org-Step :
    (value : ℤ) (lineno : ℕ) (good : Bool) {m : Memory}
    → IsValid m
    → Step Anything m ((if good then pure tt else error (org_out_of_range lineno value)) m)
org-Step value lineno true v = Step-pure Anything tt v tt
org-Step value lineno false {m} v =
    Step-weaken (λ u m'. m'.labels ≡ m.labels) Anything (λ u m' x. tt)
      (error-Step (org_out_of_range lineno value) v)

pub set_org-Step :
    (value : ℤ) (lineno : ℕ) {m : Memory} → IsValid m → Step Anything m (set_org value lineno m)
unfolding set_org
set_org-Step value lineno {m} v =
    Step-bind Anything Anything
      (if in_range value then pure tt else error (org_out_of_range lineno value))
      (λ u m. some (tt, record (clear_temporary_labels m) { index = value; org_value = value }))
      (org-Step value lineno (in_range value) v)
      (λ u m' v' k q.
        Step-weaken (λ u m''. m''.labels ≡ m'.labels) Anything (λ u m'' x. tt)
          (update-Step tt m'
            (record (clear_temporary_labels m') { index = value; org_value = value }) refl refl
            (IsValid-same _ refl refl refl refl v')))
