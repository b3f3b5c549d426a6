-- ===== src/Zxbasm/Memory/Procs/Kept.antt =====
-- src/zxbasm/memory.py: what `define` and a transfer to the global scope leave as it was.
use zxbasic.Prelude.{
  ℕ, suc, Bool, true, false, List, [], ◌∷◌, Option, none, some, length, get_elem?, set, length-set,
  zero, ◌≢◌, ◌∙◌, Bool-cases, inl, inr, ◌≡◌, refl, if◌then◌else◌,
}
use zxbasic.Prelude.Dict.{get-put, get, put, text_key, ℤ_key}
use zxbasic.Prelude.Text.{equal, equal_iff}
use zxbasic.Zxbasm.Expr.{Value}
use zxbasic.Zxbasm.Label.{Globals, Label, defined, name}
use zxbasic.Zxbasm.Memory.Access.{get_elem?-lt, load-Holds, Holds}
use zxbasic.Zxbasm.Memory.Context.{define}
use zxbasic.Zxbasm.Memory.Keeps.{IsPlace}
use zxbasic.Zxbasm.Memory.Procs.{bind_global, transfer}
use zxbasic.Zxbasm.Memory.Store.{
  Message, label_already_defined, store, ◌>>◌, Memory, ◌>>=◌, pure, error,
}

-- The scopes stay, a name keeps its global label, and no label changes its name or its flag.
pub record Kept (k : List ℕ) (m m' : Memory) : Type 0 where
  pub same_inner : m'.inner ≡ m.inner
  pub same_scopes : m'.scopes ≡ m.scopes
  pub same_length : length m'.labels ≡ length m.labels
  pub same_global : get m'.global_labels k ≡ get m.global_labels k
  pub back :
      (p : ℕ) (l' : Label)
      → get_elem? m'.labels p ≡ some l'
      → (l : Label) × (get_elem? m.labels p ≡ some l)
        × (l.local ≡ l'.local)
        × (l.full_name ≡ l'.full_name)

pub Kept-refl : (k : List ℕ) (m : Memory) → Kept k m m
Kept-refl k m = record {
  same_inner = refl;
  same_scopes = refl;
  same_length = refl;
  same_global = refl;
  back = λ p l e. (l, e, refl, refl);
}

pub Kept-trans : {k : List ℕ} {m m' m'' : Memory} → Kept k m m' → Kept k m' m'' → Kept k m m''
Kept-trans a b = record {
  same_inner = b.same_inner ∙ a.same_inner;
  same_scopes = b.same_scopes ∙ a.same_scopes;
  same_length = b.same_length ∙ a.same_length;
  same_global = b.same_global ∙ a.same_global;
  back = λ p l e.
      let (l', e', local', name') = b.back p l e in
      let (l'', e'', local'', name'') = a.back p l' e' in
      (l'', e'', local'' ∙ local', name'' ∙ name');
}

set_back :
    (xs : List Label) (p q : ℕ) (old new l' : Label)
    → get_elem? xs p ≡ some old
    → old.local ≡ new.local
    → old.full_name ≡ new.full_name
    → get_elem? (set xs p new) q ≡ some l'
    → (l : Label) × (get_elem? xs q ≡ some l) × (l.local ≡ l'.local) × (l.full_name ≡ l'.full_name)
set_back [] p q old new l' e a b h = cc
set_back (x ∷ xs) zero zero old new l' e a b h = (x, refl, cc, cc)
set_back (x ∷ xs) zero (suc q) old new l' e a b h = (l', h, refl, refl)
set_back (x ∷ xs) (suc p) zero old new l' e a b h = (l', h, refl, refl)
set_back (x ∷ xs) (suc p) (suc q) old new l' e a b h = set_back xs p q old new l' e a b h

store-Kept :
    (k : List ℕ) (e : Message) (p : ℕ) (old new : Label) (b : Bool) (m : Memory)
    → Holds p old m
    → old.local ≡ new.local
    → old.full_name ≡ new.full_name
    → (m' : Memory) × (((if b then error e else pure tt) >> store p new) m ≡ some (tt, m'))
      × Kept k m m'
unfolding store error
store-Kept k e p old new true m h a b = (
  record m { errors = e ∷ m.errors; labels = set m.labels p new },
  refl,
  record {
    same_inner = refl;
    same_scopes = refl;
    same_length = length-set m.labels p new;
    same_global = refl;
    back = λ q l' f. set_back m.labels p q old new l' h a b f;
  },
)
store-Kept k e p old new false m h a b = (
  record m { labels = set m.labels p new },
  refl,
  record {
    same_inner = refl;
    same_scopes = refl;
    same_length = length-set m.labels p new;
    same_global = refl;
    back = λ q l' f. set_back m.labels p q old new l' h a b f;
  },
)

define-Kept :
    (k : List ℕ) (g : Globals) (p : ℕ) (v : Option Value) (lineno : ℕ) (m : Memory)
    → IsPlace p m
    → (m' : Memory) × (define g p v lineno m ≡ some (tt, m')) × Kept k m m'
unfolding define
define-Kept k g p v lineno m h =
    let (l, e) = get_elem?-lt m.labels p h in
    let (m', r, kept) =
      store-Kept k (label_already_defined lineno (name l) l.lineno) p l
        (record l { value = v; lineno = lineno; namespace = some g.namespace }) (defined l) m e refl
        refl in
    (m', rw (load-Holds p l m e, ◌>>=◌) r, kept)

other_key : (j k : List ℕ) → j ≢ k → equal j k ≡ false
other_key j k n = elim (Bool-cases (equal j k)) [
  | inl same ↦ absurd (n ((equal_iff j k).0 same))
  | inr other ↦ other
]

pub transfer-Kept :
    (k : List ℕ) (g : Globals) (p : ℕ) (l : Label) (o : Option ℕ) (m : Memory)
    → name l ≢ k
    → ((q : ℕ) → o ≡ some q → IsPlace q m)
    → (m' : Memory) × (transfer g p l o m ≡ some (tt, m')) × Kept k m m'
unfolding transfer bind_global
transfer-Kept k g p l none m n h = (
  record m { global_labels = put m.global_labels (name l) p },
  refl,
  record {
    same_inner = refl;
    same_scopes = refl;
    same_length = refl;
    same_global = rw (get-put, other_key (name l) k n);
    back = λ q l' e. (l', e, refl, refl);
  },
)
transfer-Kept k g p l (some q) m n h = define-Kept k g q l.value l.lineno m (h q refl)
