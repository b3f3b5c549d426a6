-- ===== src/Zxbasm/Memory/Keeps.antt =====
-- src/zxbasm/memory.py: what its methods keep, and the rules to show it of a `do` block.
use zxbasic.Prelude.{
  ℕ, ◌<◌, ◌≤◌, List, [], ◌∷◌, Option, some, map, length, ◌≡◌, ◌∙◌, sym, refl, arith, All,
}
use mathlib.Core.Path.{subst}
use zxbasic.Prelude.Dict.{get, put, text_key}
use zxbasic.Zxbasm.Expr.Stability.{Extends}
use zxbasic.Zxbasm.Expr.{Value}
use zxbasic.Zxbasm.Memory.Store.{Memory, M, ◌>>=◌, pure, Scope}

-- The values of the labels, as expressions read them.
abbrev pub values : Memory → List (Option Value)
values m = map (λ l. l.value) m.labels

-- The names of a scope stand for labels that exist.
abbrev pub Bound : ℕ → Scope → Type 0
Bound n s = All (λ (item : List ℕ × ℕ). item.1 < n) s

-- Every scope that is entered has its line, and the scopes hold labels.
pub record IsValid (m : Memory) : Type 0 where
  pub entered : length m.inner ≡ length m.scopes
  pub global_bound : Bound (length m.labels) m.global_labels
  pub inner_bound : All (Bound (length m.labels)) m.inner

-- No label vanishes, no error is taken back, and with no error every value stays.
pub record Keeps (m m' : Memory) : Type 0 where
  pub more : length m.labels ≤ length m'.labels
  pub logged : length m.errors ≤ length m'.errors
  pub values_stay : length m'.errors ≡ length m.errors → Extends (values m) (values m')

pub Keeps-refl : (m : Memory) → Keeps m m
Keeps-refl m = record { more = omega arith; logged = omega arith; values_stay = λ e l v h. h }

pub Keeps-trans : {m m' m'' : Memory} → Keeps m m' → Keeps m' m'' → Keeps m m''
Keeps-trans a b = record {
  more = omega (arith, a.more, b.more);
  logged = omega (arith, a.logged, b.logged);
  values_stay = λ e l v h.
      b.values_stay (omega (arith, a.logged, b.logged)) l v
        (a.values_stay (omega (arith, a.logged, b.logged)) l v h);
}

-- A step returns, leaves a valid state that keeps the labels of `m`, and its result satisfies `Q`.
pub record Step {A : Type 0} (Q : A → Memory → Type 0) (m : Memory) (r : Option (A × Memory))
    : Type 0 where
  pub result : A
  pub after : Memory
  pub returns : r ≡ some (result, after)
  pub valid : IsValid after
  pub keeps : Keeps m after
  pub holds : Q result after

pub Step-pure :
    {A : Type 0} (Q : A → Memory → Type 0) {m : Memory} (a : A)
    → IsValid m
    → Q a m
    → Step Q m (pure a m)
Step-pure Q {m} a v q = record {
  result = a;
  after = m;
  returns = refl;
  valid = v;
  keeps = Keeps-refl m;
  holds = q;
}

pub Step-bind :
    {A B : Type 0} (Q : A → Memory → Type 0) (R : B → Memory → Type 0) (x : M A) (f : A → M B)
    {m : Memory}
    → Step Q m (x m)
    → ((a : A) (m' : Memory) → IsValid m' → Keeps m m' → Q a m' → Step R m' (f a m'))
    → Step R m ((x >>= f) m)
Step-bind Q R x f h k =
    let next = k h.result h.after h.valid h.keeps h.holds in
    record {
      result = next.result;
      after = next.after;
      returns = rw (h.returns, ◌>>=◌) next.returns;
      valid = next.valid;
      keeps = Keeps-trans h.keeps next.keeps;
      holds = next.holds;
    }

pub Step-weaken :
    {A : Type 0} (Q R : A → Memory → Type 0) {m : Memory} {r : Option (A × Memory)}
    → ((a : A) (m' : Memory) → Q a m' → R a m')
    → Step Q m r
    → Step R m r
Step-weaken Q R f h = record {
  result = h.result;
  after = h.after;
  returns = h.returns;
  valid = h.valid;
  keeps = h.keeps;
  holds = f h.result h.after h.holds;
}

-- A step returns one thing only, so what is known of it holds of the step.
pub Step-with :
    {A : Type 0} (Q R : A → Memory → Type 0) {m : Memory} {r : Option (A × Memory)}
    → Step Q m r
    → (a : A) (m' : Memory) → r ≡ some (a, m')
    → R a m'
    → Step R m r
Step-with Q R {m} h a m' e q =
    let same : h.after ≡ m' = cc (sym h.returns ∙ e) in
    record {
      result = a;
      after = m';
      returns = e;
      valid = subst (λ n. IsValid n) same h.valid;
      keeps = subst (λ n. Keeps m n) same h.keeps;
      holds = q;
    }

abbrev pub Anything : {A : Type 0} → A → Memory → Type 0
Anything a m = Unit {0}

-- The place of a label.
abbrev pub IsPlace : ℕ → Memory → Type 0
IsPlace p m = p < length m.labels

pub Bound-mono : {n k : ℕ} (s : Scope) → n ≤ k → Bound n s → Bound k s
Bound-mono [] h b = tt
Bound-mono (item ∷ s) h b = (omega arith, Bound-mono s h b.1)

pub Bounds_mono : {n k : ℕ} (ss : List Scope) → n ≤ k → All (Bound n) ss → All (Bound k) ss
Bounds_mono [] h b = tt
Bounds_mono (s ∷ ss) h b = (Bound-mono s h b.0, Bounds_mono ss h b.1)

pub Bound-put : {n p : ℕ} (s : Scope) (k : List ℕ) → p < n → Bound n s → Bound n (put s k p)
unfolding put
Bound-put [] k h b = ground arith
Bound-put ((j, q) ∷ s) k h b = ground (arith, Bound-put s k h b.1)

pub Bound-get : {n p : ℕ} (s : Scope) (k : List ℕ) → Bound n s → get s k ≡ some p → p < n
unfolding get
Bound-get [] k b h = cc
Bound-get {p = p} ((j, q) ∷ s) k b h = ground (arith, Bound-get {p = p} s k b.1)
