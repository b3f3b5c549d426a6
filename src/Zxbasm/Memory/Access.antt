-- ===== src/Zxbasm/Memory/Access.antt =====
-- src/zxbasm/memory.py: what each access to the state keeps.
use zxbasic.Prelude.{
  ℕ, zero, suc, ◌<◌, List, [], ◌∷◌, ◌++◌, Option, some, map, length, get_elem?, set, length-append,
  length-set, ◌≡◌, refl, sym, ap, arith,
}
use zxbasic.Prelude.Dict.{text_key, ℤ_key}
use zxbasic.Zxbasm.Expr.Stability.{Extends}
use zxbasic.Zxbasm.Expr.{Value}
use zxbasic.Zxbasm.Label.{Label}
use zxbasic.Zxbasm.Memory.Keeps.{
  values, IsValid, Keeps-refl, Step, IsPlace, Bound-mono, Bounds_mono,
}
use zxbasic.Zxbasm.Memory.Store.{Memory, create, load, store, error, warn, Message}

abbrev value_of : Label → Option Value
value_of l = l.value

map-set :
    (xs : List Label) (p : ℕ) (l : Label)
    → map value_of (set xs p l) ≡ set (map value_of xs) p l.value
map-set [] p l = refl
map-set (x ∷ xs) zero l = refl
map-set (x ∷ xs) (suc p) l = ap (◌∷◌ x.value) (map-set xs p l)

get_elem?-map :
    (xs : List Label) (p : ℕ) (l : Label) (v : Option Value)
    → get_elem? xs p ≡ some l
    → get_elem? (map value_of xs) p ≡ some v
    → v ≡ l.value
get_elem?-map [] p l v h k = cc
get_elem?-map (x ∷ xs) zero l v h k = cc
get_elem?-map (x ∷ xs) (suc p) l v h k = get_elem?-map xs p l v h k

Extends-set :
    (xs : List (Option Value)) (p : ℕ) (v : Option Value)
    → ((w : Value) → get_elem? xs p ≡ some (some w) → v ≡ some w)
    → Extends xs (set xs p v)
Extends-set [] p v same l w h = h
Extends-set (x ∷ xs) zero v same zero w h = ap some (same w h)
Extends-set (x ∷ xs) zero v same (suc l) w h = h
Extends-set (x ∷ xs) (suc p) v same zero w h = h
Extends-set (x ∷ xs) (suc p) v same (suc l) w h = Extends-set xs p v same l w h

Extends-append :
    (xs : List Label) (l : Label) → Extends (map value_of xs) (map value_of (xs ++ l ∷ []))
Extends-append [] l p w h = cc
Extends-append (x ∷ xs) l zero w h = h
Extends-append (x ∷ xs) l (suc p) w h = Extends-append xs l p w h

pub get_elem?-lt :
    (xs : List Label) (p : ℕ) → p < length xs → (l : Label) × (get_elem? xs p ≡ some l)
get_elem?-lt [] p h = elim h [ ]
get_elem?-lt (x ∷ xs) zero h = (x, refl)
get_elem?-lt (x ∷ xs) (suc p) h = get_elem?-lt xs p (omega arith)

-- A label in the store.
abbrev pub Holds : ℕ → Label → Memory → Type 0
Holds p l m = get_elem? m.labels p ≡ some l

pub load-Holds : (p : ℕ) (l : Label) (m : Memory) → Holds p l m → load p m ≡ some (l, m)
unfolding load
load-Holds p l m e = rw (e, load)

pub load-Step :
    (p : ℕ) {m : Memory}
    → IsValid m
    → IsPlace p m
    → Step (λ l m'. Holds p l m' × (IsPlace p m')) m (load p m)
unfolding load
load-Step p {m} v h =
    let (l, e) = get_elem?-lt m.labels p h in
    record {
      result = l;
      after = m;
      returns = rw (e, load);
      valid = v;
      keeps = Keeps-refl m;
      holds = (e, h);
    }

-- The store is as long as before, and nothing else changes.
pub store-IsValid :
    (p : ℕ) (l : Label) {m : Memory} → IsValid m → IsValid (record m { labels = set m.labels p l })
store-IsValid p l {m} v = record {
  entered = v.entered;
  global_bound = Bound-mono m.global_labels (omega (arith, length-set m.labels p l)) v.global_bound;
  inner_bound = Bounds_mono m.inner (omega (arith, length-set m.labels p l)) v.inner_bound;
}

-- A write of a label that has the value of the old one, or that gives it its first.
pub store-Step :
    (p : ℕ) (old l : Label) {m : Memory}
    → IsValid m
    → Holds p old m
    → ((w : Value) → old.value ≡ some w → l.value ≡ some w)
    → Step (λ u m'. length m'.labels ≡ length m.labels) m (store p l m)
unfolding store
store-Step p old l {m} v h same = record {
  result = tt;
  after = record m { labels = set m.labels p l };
  returns = refl;
  valid = store-IsValid p l v;
  keeps = record {
    more = omega (arith, length-set m.labels p l);
    logged = omega arith;
    values_stay = λ e. rw (map-set m.labels p l) (
        Extends-set (values m) p l.value
          (λ w k. same w (sym (get_elem?-map m.labels p old (some w) h k))));
  };
  holds = length-set m.labels p l;
}

pub create-Step : (l : Label) {m : Memory} → IsValid m → Step (λ p m'. IsPlace p m') m (create l m)
unfolding create
create-Step l {m} v = record {
  result = length m.labels;
  after = record m { labels = m.labels ++ l ∷ [] };
  returns = refl;
  valid = record {
    entered = v.entered;
    global_bound =
        Bound-mono m.global_labels (omega (arith, length-append m.labels (l ∷ []))) v.global_bound;
    inner_bound =
        Bounds_mono m.inner (omega (arith, length-append m.labels (l ∷ []))) v.inner_bound;
  };
  keeps = record {
    more = omega (arith, length-append m.labels (l ∷ []));
    logged = omega arith;
    values_stay = λ e. Extends-append m.labels l;
  };
  holds = omega (arith, length-append m.labels (l ∷ []));
}

-- A change of the state beside its labels, errors and scopes.
pub update-Step :
    {A : Type 0} (a : A) (m m' : Memory)
    → m'.labels ≡ m.labels
    → m'.errors ≡ m.errors
    → IsValid m'
    → Step (λ u m''. m''.labels ≡ m.labels) m (some (a, m'))
update-Step a m m' labels errors v = record {
  result = a;
  after = m';
  returns = refl;
  valid = v;
  keeps = record {
    more = omega (arith, ap length labels);
    logged = omega (arith, ap length errors);
    values_stay = λ e l w h. rw labels h;
  };
  holds = labels;
}

pub error-Step :
    (e : Message) {m : Memory} → IsValid m → Step (λ u m'. m'.labels ≡ m.labels) m (error e m)
unfolding error
error-Step e {m} v = record {
  result = tt;
  after = record m { errors = e ∷ m.errors };
  returns = refl;
  valid = record {
    entered = v.entered;
    global_bound = v.global_bound;
    inner_bound = v.inner_bound;
  };
  keeps = record {
    more = omega arith;
    logged = omega arith;
    values_stay = λ x. absurd (omega arith);
  };
  holds = refl;
}

-- A change of the fields that validity does not read.
pub IsValid-same :
    {m : Memory} (m' : Memory)
    → m'.labels ≡ m.labels
    → m'.inner ≡ m.inner
    → m'.scopes ≡ m.scopes
    → m'.global_labels ≡ m.global_labels
    → IsValid m
    → IsValid m'
IsValid-same m' l i s gl v = record {
  entered = rw (i, s) v.entered;
  global_bound = rw (l, gl) v.global_bound;
  inner_bound = rw (l, i) v.inner_bound;
}

pub warn-Step :
    (e : Message) {m : Memory} → IsValid m → Step (λ u m'. m'.labels ≡ m.labels) m (warn e m)
unfolding warn
warn-Step e {m} v =
    update-Step tt m (record m { warnings = e ∷ m.warnings }) refl refl
      (IsValid-same _ refl refl refl refl v)
