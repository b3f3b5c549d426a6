-- ===== src/Zxbasm/Memory/Declare/Result.antt =====
-- src/zxbasm/memory.py: the label that `declare_label` leaves behind.
use zxbasic.Prelude.{
  ℕ, Bool, true, false, not, List, [], ◌∷◌, ◌++◌, Option, none, some, length, get_elem?, set,
  get_elem?-set_self, length-set, ◌≡◌, refl, ◌∙◌, arith, if◌then◌else◌,
}
use zxbasic.Prelude.Dict.{get-put_self, get, put, text_key, ℤ_key}
use zxbasic.Zxbasm.Expr.{Value}
use zxbasic.Zxbasm.Label.{Globals, Label, defined, name, is_some, is_decimal, id_name}
use zxbasic.Zxbasm.Memory.Access.{get_elem?-lt, load-Holds, Holds}
use zxbasic.Zxbasm.Memory.Bindings.{current_bound}
use zxbasic.Zxbasm.Memory.Context.{
  set_innermost, set_memory_slot, innermost, current, bind_current, define,
}
use zxbasic.Zxbasm.Memory.Keeps.{IsValid, IsPlace}
use zxbasic.Zxbasm.Memory.Declare.{declare_label, declare_at, declare_named, value_or_org}
use zxbasic.Zxbasm.Memory.Store.{
  label_already_defined, Memory, ◌>>=◌, ◌>>◌, pure, create, store, error, Message, Scope,
}

-- A name that the current scope gives a value on a line.
pub record Declared (k : List ℕ) (v : Value) (lineno : ℕ) (m : Memory) : Type 0 where
  pub place : ℕ
  pub label : Label
  pub bound : get (current m) k ≡ some place
  pub found : Holds place label m
  pub has_value : label.value ≡ some v
  pub on_line : label.lineno ≡ lineno

-- The errors after a declaration: the message if there is a label with a value already
abbrev pub after_definition : Option Label → ℕ → List Message → List Message
after_definition none lineno es = es
after_definition (some l) lineno es =
    if defined l then label_already_defined lineno (name l) l.lineno ∷ es else es

-- The label that the current scope has for a name
abbrev pub label_of : Option ℕ → Memory → Option Label
label_of none m = none
label_of (some p) m = get_elem? m.labels p

-- The step leaves the value and the line in the label at the place.
record Written (p : ℕ) (v : Value) (lineno : ℕ) (es : List Message) (m m' : Memory) : Type 0 where
  same_inner : m'.inner ≡ m.inner
  same_global : m'.global_labels ≡ m.global_labels
  same_length : length m'.labels ≡ length m.labels
  errors : m'.errors ≡ es
  label : Label
  found : get_elem? m'.labels p ≡ some label
  has_value : label.value ≡ some v
  on_line : label.lineno ≡ lineno

store-Written :
    (e : Message) (p : ℕ) (l : Label) (v : Value) (lineno : ℕ) (b : Bool) (m : Memory)
    → IsPlace p m
    → l.value ≡ some v
    → l.lineno ≡ lineno
    → (m' : Memory) × (((if b then error e else pure tt) >> store p l) m ≡ some (tt, m'))
      × Written p v lineno (if b then e ∷ m.errors else m.errors) m m'
unfolding store error
store-Written e p l v lineno true m h hv hl = (
  record m { errors = e ∷ m.errors; labels = set m.labels p l },
  refl,
  record {
    same_inner = refl;
    same_global = refl;
    same_length = length-set m.labels p l;
    errors = refl;
    label = l;
    found = get_elem?-set_self m.labels p l h;
    has_value = hv;
    on_line = hl;
  },
)
store-Written e p l v lineno false m h hv hl = (
  record m { labels = set m.labels p l },
  refl,
  record {
    same_inner = refl;
    same_global = refl;
    same_length = length-set m.labels p l;
    errors = refl;
    label = l;
    found = get_elem?-set_self m.labels p l h;
    has_value = hv;
    on_line = hl;
  },
)

define-Written :
    (g : Globals) (p : ℕ) (v : Value) (lineno : ℕ) (m : Memory)
    → IsPlace p m
    → (m' : Memory) × (define g p (some v) lineno m ≡ some (tt, m'))
      × Written p v lineno (after_definition (get_elem? m.labels p) lineno m.errors) m m'
unfolding define
define-Written g p v lineno m h =
    let (l, e) = get_elem?-lt m.labels p h in
    let (m', r, w) =
      store-Written (label_already_defined lineno (name l) l.lineno) p
        (record l { value = some v; lineno = lineno; namespace = some g.namespace }) v lineno
        (defined l) m h refl refl in
    (m', rw (load-Holds p l m e, ◌>>=◌) r, rw e w)

current-set_innermost :
    (ss : List Scope) (s : Scope) (m : Memory) → m.inner ≡ ss → current (set_innermost ss s m) ≡ s
unfolding innermost set_innermost
current-set_innermost [] s m e = rw (e, innermost)
current-set_innermost (t ∷ ts) s m e = refl

labels-set_innermost :
    (ss : List Scope) (s : Scope) (m : Memory) → (set_innermost ss s m).labels ≡ m.labels
unfolding set_innermost
labels-set_innermost [] s m = refl
labels-set_innermost (t ∷ ts) s m = refl

errors-set_innermost :
    (ss : List Scope) (s : Scope) (m : Memory) → (set_innermost ss s m).errors ≡ m.errors
unfolding set_innermost
errors-set_innermost [] s m = refl
errors-set_innermost (t ∷ ts) s m = refl

get_elem?-end : (xs : List Label) (l : Label) → get_elem? (xs ++ l ∷ []) (length xs) ≡ some l
get_elem?-end [] l = refl
get_elem?-end (x ∷ xs) l = get_elem?-end xs l

declare_at-Declared :
    (g : Globals) (k namespace : List ℕ) (lineno : ℕ) (v : Value) (is_address local : Bool)
    (o : Option ℕ) (m : Memory)
    → get (current m) k ≡ o
    → IsValid m
    → (m' : Memory) × (declare_at g k namespace lineno v is_address local o m ≡ some (tt, m'))
      × Declared k v lineno m'
      × (m'.errors ≡ after_definition (label_of o m) lineno m.errors)
unfolding declare_at store create bind_current
declare_at-Declared g k namespace lineno v is_address local (some p) m e valid =
    let (m', r, w) = define-Written g p v lineno m (current_bound m k valid e) in
    let l = record w.label { is_address = is_address } in
    (
      record m' { labels = set m'.labels p l },
      rw (r, ◌>>=◌) (rw (load-Holds p w.label m' w.found, ◌>>=◌) refl),
      record {
        place = p;
        label = l;
        bound = rw (w.same_inner, w.same_global) e;
        found =
            get_elem?-set_self m'.labels p l
              (omega (arith, w.same_length, current_bound m k valid e));
        has_value = w.has_value;
        on_line = w.on_line;
      },
      w.errors,
    )
declare_at-Declared g k namespace lineno v is_address local none m e valid =
    let l : Label = record {
      full_name = k;
      lineno = lineno;
      value = some v;
      local = local;
      namespace = some namespace;
      current_namespace = g.namespace;
      is_address = is_address;
    } in
    let m' = record m { labels = m.labels ++ l ∷ [] } in
    let s = put (innermost m.inner m.global_labels) k (length m.labels) in
    (
      set_innermost m.inner s m',
      refl,
      record {
        place = length m.labels;
        label = l;
        bound =
            rw (current-set_innermost m.inner s m' refl)
              (get-put_self (innermost m.inner m.global_labels) k (length m.labels));
        found = rw (labels-set_innermost m.inner s m') (get_elem?-end m.labels l);
        has_value = refl;
        on_line = refl;
      },
      errors-set_innermost m.inner s m',
    )

Declared-same :
    {k : List ℕ} {v : Value} {lineno : ℕ} (m m' : Memory)
    → m'.labels ≡ m.labels
    → m'.inner ≡ m.inner
    → m'.global_labels ≡ m.global_labels
    → Declared k v lineno m
    → Declared k v lineno m'
unfolding innermost
Declared-same m m' l i gl d = record {
  place = d.place;
  label = d.label;
  bound = rw (i, gl) d.bound;
  found = rw l d.found;
  has_value = d.has_value;
  on_line = d.on_line;
}

slot_pick :
    {k : List ℕ} {v : Value} {lineno : ℕ} (b : Bool) (m m' : Memory)
    → Declared k v lineno m
    → Declared k v lineno m'
    → Declared k v lineno (if b then m else m')
slot_pick true m m' d d' = d
slot_pick false m m' d d' = d'

errors_pick :
    {es : List Message} (b : Bool) (m m' : Memory)
    → m.errors ≡ es
    → m'.errors ≡ es
    → (if b then m else m').errors ≡ es
errors_pick true m m' h k = h
errors_pick false m m' h k = k

slot-Declared :
    {k : List ℕ} {v : Value} {lineno : ℕ} (m : Memory)
    → Declared k v lineno m
    → (m' : Memory) × (set_memory_slot m ≡ some (tt, m'))
      × Declared k v lineno m'
      × (m'.errors ≡ m.errors)
unfolding set_memory_slot
slot-Declared m d = (
  _,
  refl,
  slot_pick (is_some (get m.orgs m.index)) m _ d (Declared-same m _ refl refl refl d),
  errors_pick (is_some (get m.orgs m.index)) m _ refl refl,
)

-- A label that is no temporary one is declared: the current scope then gives its name the value
-- that is passed, or the current address, with the line, also where it had another before; and an
-- error is logged exactly if the label of that scope had a value.
pub declare_label-Declared :
    (g : Globals) (label ex_label namespace : List ℕ) (lineno : ℕ) (value : Option Value)
    (local : Bool) (given : Option (List ℕ)) (m : Memory)
    → IsValid m
    → is_decimal label ≡ false
    → id_name g label given ≡ some (ex_label, namespace)
    → (m' : Memory) × (declare_label g label lineno value local given m ≡ some (tt, m'))
      × Declared ex_label (value_or_org value m.index) lineno m'
      × (m'.errors ≡ after_definition (label_of (get (current m) ex_label) m) lineno m.errors)
unfolding declare_label declare_named
declare_label-Declared g label ex_label namespace lineno value local given m valid plain names =
    let (m1, r1, d1, e1) =
      declare_at-Declared g ex_label namespace lineno (value_or_org value m.index)
        (not (is_some value)) local (get (current m) ex_label) m refl valid in
    let (m2, r2, d2, e2) = slot-Declared m1 d1 in
    (m2, rw names (rw plain (rw (r1, ◌>>=◌) r2)), d2, e2 ∙ e1)
