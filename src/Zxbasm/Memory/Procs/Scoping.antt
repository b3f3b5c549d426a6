-- ===== src/Zxbasm/Memory/Procs/Scoping.antt =====
-- src/zxbasm/memory.py: what ENDP leaves of the labels of a PROC.
use zxbasic.Prelude.{
  ℕ, ◌<◌, Bool, true, false, List, [], ◌∷◌, some, map, length, get_elem?, ◌≢◌, sym, ◌∙◌, ◌≡◌, refl,
  ap, arith, All, if◌then◌else◌,
}
use mathlib.Core.Path.{subst}
use zxbasic.Prelude.Dict.{get, text_key, ℤ_key}
use zxbasic.Zxbasm.Label.{Globals, Label, defined, name, name_same}
use zxbasic.Zxbasm.Memory.Access.{get_elem?-lt, load-Holds}
use zxbasic.Zxbasm.Memory.Keeps.{
  Keeps, Step-with, Bound, IsValid, Step, Step-pure, Step-bind, Step-weaken, Anything, IsPlace,
  Bound-get,
}
use zxbasic.Zxbasm.Memory.Lookup.{find_label}
use zxbasic.Zxbasm.Memory.Procs.Kept.{Kept, Kept-refl, Kept-trans, transfer-Kept}
use zxbasic.Zxbasm.Memory.Procs.Sound.{export_label-Step}
use zxbasic.Zxbasm.Memory.Procs.{
  exit_proc, transfer, export_label, export_labels, pop_scope, leave, tail,
}
use zxbasic.Zxbasm.Memory.Store.{Memory, M, ◌>>=◌, pure, error, Scope, undefined_local}

-- What one label of the scope, or all of them, do to the rest.
abbrev Result : List ℕ → Memory → Bool → Memory → Type 0
Result k m done m' = Kept k m m' × (done ≡ false → length m.errors < length m'.errors)

export-transfer :
    (g : Globals) (lineno p : ℕ) (l : Label) (m m' : Memory)
    → l.local ≡ false
    → transfer g p l (get m.global_labels (name l)) m ≡ some (tt, m')
    → export_label g lineno p l m ≡ some (true, m')
unfolding export_label name
export-transfer g lineno p l m m' a r = simp a (rw (r, ◌>>=◌) refl)

kept_step :
    (k : List ℕ) (g : Globals) (lineno p : ℕ) (l : Label) (local valued : Bool) (m : Memory)
    → l.local ≡ local
    → defined l ≡ valued
    → (l.local ≡ false → name l ≢ k)
    → IsValid m
    → (done : Bool) × (m' : Memory) × (export_label g lineno p l m ≡ some (done, m'))
      × Result k m done m'
unfolding export_label error name
kept_step k g lineno p l true true m a b n v = (true, m, rw (a, b), (Kept-refl k m, λ e. cc))
kept_step k g lineno p l true false m a b n v = (
  false,
  record m { errors = undefined_local lineno (name l) ∷ m.errors },
  rw (a, b),
  (
    record {
      same_inner = refl;
      same_scopes = refl;
      same_length = refl;
      same_global = refl;
      back = λ q l' e. (l', e, refl, refl);
    },
    λ e. omega arith,
  ),
)
kept_step k g lineno p l false valued m a b n v =
    let (m', r, kept) =
      transfer-Kept k g p l (get m.global_labels (name l)) m (n a)
        (λ q e. Bound-get m.global_labels (name l) v.global_bound e) in
    (true, m', export-transfer g lineno p l m m' a r, (kept, λ e. cc))

-- No label of the list goes to the global scope under the name.
abbrev pub Apart : List ℕ → List ℕ → Memory → Type 0
Apart k ps m =
    All (λ (p : ℕ). (l : Label) → get_elem? m.labels p ≡ some l → l.local ≡ false → name l ≢ k) ps

Apart-Kept : (k : List ℕ) (ps : List ℕ) (m m' : Memory) → Kept k m m' → Apart k ps m → Apart k ps m'
Apart-Kept k [] m m' kept a = tt
Apart-Kept k (p ∷ ps) m m' kept a = (
  (λ l' e f.
      let (l, e', local, same) = kept.back p l' e in
      λ n. a.0 l e' (local ∙ f) (name_same l l' same ∙ n)),
  Apart-Kept k ps m m' kept a.1,
)

places_kept : (ps : List ℕ) (n k : ℕ) → k ≡ n → All (λ p. p < n) ps → All (λ p. p < k) ps
places_kept [] n k e h = tt
places_kept (p ∷ ps) n k e h = (omega arith, places_kept ps n k e h.1)

rest-Step :
    (k : List ℕ) (done : Bool) (rest : M Bool) {m m' : Memory}
    → Result k m done m'
    → Keeps m m'
    → IsValid m'
    → Step (Result k m') m' (rest m')
    → Step (Result k m) m' ((if done then rest else pure false) m')
rest-Step k true rest {m} {m'} kept more v s =
    Step-weaken (Result k m') (Result k m)
      (λ d m'' r. (Kept-trans kept.0 r.0, λ e. omega (arith, r.1 e, more.logged))) s
rest-Step k false rest {m} kept more v s = Step-pure (Result k m) false v (kept.0, λ e. kept.1 refl)

labels-Kept :
    (k : List ℕ) (g : Globals) (lineno : ℕ) (ps : List ℕ) {m : Memory}
    → IsValid m
    → All (λ p. IsPlace p m) ps
    → Apart k ps m
    → Step (Result k m) m (export_labels g lineno ps m)
unfolding export_labels
labels-Kept k g lineno [] {m} v h a = Step-pure (Result k m) true v (Kept-refl k m, λ e. cc)
labels-Kept k g lineno (p ∷ ps) {m} v h a =
    let (l, e) = get_elem?-lt m.labels p h.0 in
    let (d, m', r, result) = kept_step k g lineno p l l.local (defined l) m refl refl (a.0 l e) v in
    rw (load-Holds p l m e, ◌>>=◌)
      (Step-bind (Result k m) (Result k m) (export_label g lineno p l)
        (λ done. if done then export_labels g lineno ps else pure false)
        (Step-with Anything (Result k m)
          (export_label-Step g lineno p l l.local (defined l) refl refl v h.0) d m' r result)
        (λ done m'' v'' more q. rest-Step k done (export_labels g lineno ps) q more v'' (
          labels-Kept k g lineno ps v''
            (places_kept ps (length m.labels) (length m''.labels) q.0.same_length h.1)
            (Apart-Kept k ps m m'' q.0 a.1))))

abbrev pub places : Scope → List ℕ
places s = map (λ (item : List ℕ × ℕ). item.1) s

Bound-places : (n : ℕ) (s : Scope) → Bound n s → All (λ p. p < n) (places s)
Bound-places n [] b = tt
Bound-places n (item ∷ s) b = (b.0, Bound-places n s b.1)

find_label-same :
    (ss : List Scope) (gl gl' : Scope) (k : List ℕ)
    → get gl' k ≡ get gl k
    → find_label ss gl' k ≡ find_label ss gl k
unfolding find_label
find_label-same [] gl gl' k e = e
find_label-same (s ∷ ss) gl gl' k e = rw (find_label-same ss gl gl' k e)

-- The scope is popped if the loop came to its end, and that it did if no error was logged.
pop-Kept :
    (k : List ℕ) (s : Scope) (rest : List Scope) (line : ℕ) (lines : List ℕ) (done : Bool)
    (m after m' : Memory)
    → m.inner ≡ s ∷ rest
    → m.scopes ≡ line ∷ lines
    → Result k m done after
    → pop_scope done after ≡ some (tt, m')
    → length m'.errors ≡ length m.errors
    → (m'.inner ≡ rest)
      × (m'.scopes ≡ lines)
      × (find_label m'.inner m'.global_labels k ≡ find_label rest m.global_labels k)
unfolding pop_scope
pop-Kept k s rest line lines false m after m' i l r e quiet =
    let same : after ≡ m' = cc e in
    absurd (omega (arith, r.1 refl, ap (λ (x : Memory). length x.errors) same))
pop-Kept k s rest line lines true m after m' i l r e quiet =
    let same : record after { inner = tail after.inner; scopes = tail after.scopes } ≡ m' = cc e in
    let inner : m'.inner ≡ rest =
      sym (ap (λ (x : Memory). x.inner) same) ∙ ap tail (r.0.same_inner ∙ i) in
    let global : get m'.global_labels k ≡ get m.global_labels k =
      sym (ap (λ (x : Memory). get x.global_labels k) same) ∙ r.0.same_global in
    (
      inner,
      sym (ap (λ (x : Memory). x.scopes) same) ∙ ap tail (r.0.same_scopes ∙ l),
      rw inner (find_label-same rest m.global_labels m'.global_labels k global),
    )

leave-Kept :
    (g : Globals) (lineno : ℕ) (s : Scope) (rest : List Scope) (line : ℕ) (lines : List ℕ)
    (k : List ℕ) (m m' : Memory)
    → IsValid m
    → Bound (length m.labels) s
    → m.inner ≡ s ∷ rest
    → m.scopes ≡ line ∷ lines
    → Apart k (places s) m
    → leave g lineno (s ∷ rest) m ≡ some (tt, m')
    → length m'.errors ≡ length m.errors
    → (m'.inner ≡ rest)
      × (m'.scopes ≡ lines)
      × (find_label m'.inner m'.global_labels k ≡ find_label rest m.global_labels k)
unfolding leave
leave-Kept g lineno s rest line lines k m m' v b i l apart e quiet =
    let run = labels-Kept k g lineno (places s) v (Bound-places (length m.labels) s b) apart in
    pop-Kept k s rest line lines run.result m run.after m' i l run.holds
      (rw (run.returns, ◌>>=◌) at e) quiet

-- ENDP gives the names back: it leaves a PROC, in a valid memory, with no error. Then the scopes
-- are those round the PROC, and a name that no label of the PROC takes to the global scope, such as
-- that of a LOCAL label, is looked up as it would have been round the PROC before.
pub exit_proc-find_label :
    (g : Globals) (lineno : ℕ) (s : Scope) (rest : List Scope) (line : ℕ) (lines : List ℕ)
    (k : List ℕ) (m m' : Memory)
    → IsValid m
    → m.inner ≡ s ∷ rest
    → m.scopes ≡ line ∷ lines
    → Apart k (places s) m
    → exit_proc g lineno m ≡ some (tt, m')
    → length m'.errors ≡ length m.errors
    → (m'.inner ≡ rest)
      × (m'.scopes ≡ lines)
      × (find_label m'.inner m'.global_labels k ≡ find_label rest m.global_labels k)
unfolding exit_proc
exit_proc-find_label g lineno s rest line lines k m m' v i l apart e quiet =
    let bounds : All (Bound (length m.labels)) (s ∷ rest) =
      subst (λ ss. All (Bound (length m.labels)) ss) i v.inner_bound in
    leave-Kept g lineno s rest line lines k m m' v bounds.0 i l apart
      (subst (λ ss. leave g lineno ss m ≡ some (tt, m')) i e) quiet
