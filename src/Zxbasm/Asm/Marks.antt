-- ===== src/Zxbasm/Asm/Marks.antt =====
-- The errors that the evaluation of a directive's arguments leaves, in src/zxbasm/asm.py.
use zxbasic.Prelude.{
  ℕ, Bool, true, false, ◌||◌, List, [], ◌∷◌, Option, none, some, map, ◌≡◌, ◌≢◌, refl, ◌∙◌, ap, sym,
}
use zxbasic.Prelude.Int.{ℤ}
use zxbasic.Zxbasm.Expr.{
  Expr, Value, Message, Outcome, returns, raises, recursion_error, gives_float, eval,
}
use zxbasic.Zxbasm.Expr.Reported.{try_eval-Speaks}
use zxbasic.Zxbasm.Asm.{
  Log, Exit, finishes, type_error, index_error, assertion_error, passes, node, any_message,
  of_outcome, term_values, after,
}

-- Some value is None.
abbrev pub lacks : List (Option ℤ) → Bool
lacks [] = false
lacks (none ∷ xs) = true
lacks (some x ∷ xs) = lacks xs

false_ne_true : false ≢ true
false_ne_true e = cc

or_true : (b : Bool) → (b || true) ≡ true
or_true true = refl
or_true false = refl

or_left : (b c : Bool) → b ≡ true → (b || c) ≡ true
or_left true c h = refl
or_left false c h = cc

value-of : {A : Type 0} {a b : A} {l m : Log} → finishes a l ≡ finishes b m → a ≡ b
value-of e = cc

log-of : {A : Type 0} {a b : A} {l m : Log} → finishes a l ≡ finishes b m → l ≡ m
log-of e = cc

after-finishes :
    {A B : Type 0} (r : Exit A) (f : A → Log → Exit B) {b : B} {log : Log}
    → after r f ≡ finishes b log
    → (a : A) × (l : Log) × (r ≡ finishes a l) × (f a l ≡ finishes b log)
after-finishes (finishes a l) f e = (a, l, refl, e)
after-finishes type_error f e = cc
after-finishes index_error f e = cc
after-finishes assertion_error f e = cc
after-finishes passes f e = cc

-- An error stays on record, and a missing value puts one there.
pub record Marks (log log' : Log) (missing : Bool) : Type 0 where
  pub keeps : log.has_errors ≡ true → log'.has_errors ≡ true
  pub marks : missing ≡ true → log'.has_errors ≡ true

outcome-Marks :
    (o : Outcome) (log log' : Log) (v : Option ℤ)
    → ((ms : List Message) → o ≡ returns none ms → ms ≢ [])
    → of_outcome o log ≡ finishes v log'
    → Marks log log' (lacks (v ∷ []))
outcome-Marks (returns none []) log log' v h e = absurd (h [] refl refl)
outcome-Marks (returns none (m ∷ ms)) log log' v h e =
    let marked = ap (λ l. l.has_errors) (sym (log-of e)) ∙ or_true log.has_errors in
    record { keeps = λ k. marked; marks = λ k. marked }
outcome-Marks (returns (some x) ms) log log' v h e = record {
  keeps = λ k. ap (λ l. l.has_errors) (sym (log-of e)) ∙ or_left log.has_errors (any_message ms) k;
  marks = λ k. absurd (false_ne_true (ap (λ w. lacks (w ∷ [])) (value-of e) ∙ k));
}
outcome-Marks raises log log' v h e = cc
outcome-Marks recursion_error log log' v h e = cc
outcome-Marks gives_float log log' v h e = cc

Marks-finishes :
    {log l log' : Log} {vs os : List (Option ℤ)}
    → finishes vs l ≡ finishes os log'
    → Marks log l (lacks vs)
    → Marks log log' (lacks os)
Marks-finishes e m = record {
  keeps = λ k. ap (λ l. l.has_errors) (sym (log-of e)) ∙ m.keeps k;
  marks = λ k. ap (λ l. l.has_errors) (sym (log-of e)) ∙ m.marks (ap lacks (value-of e) ∙ k);
}

Marks-trans :
    {log l log' : Log} (v : Option ℤ) (vs : List (Option ℤ))
    → Marks log l (lacks (v ∷ []))
    → Marks l log' (lacks vs)
    → Marks log log' (lacks (v ∷ vs))
Marks-trans none vs h k = record {
  keeps = λ e. k.keeps (h.keeps e);
  marks = λ e. k.keeps (h.marks e);
}
Marks-trans (some x) vs h k = record { keeps = λ e. k.keeps (h.keeps e); marks = k.marks }

module _ (fuel : ℕ) (labels : List (Option Value)) where
  eval-Marks :
      (e : Expr) (log log' : Log) (v : Option ℤ)
      → of_outcome (eval fuel labels e) log ≡ finishes v log'
      → Marks log log' (lacks (v ∷ []))
  unfolding eval
  eval-Marks e log log' v h =
      outcome-Marks (eval fuel labels e) log log' v (try_eval-Speaks fuel labels e) h

  pub term_values-Marks :
      (es : List Expr) (log log' : Log) (os : List (Option ℤ))
      → term_values fuel labels (map node es) log ≡ finishes os log'
      → Marks log log' (lacks os)
  unfolding term_values
  term_values-Marks [] log log' os h =
      Marks-finishes h (record { keeps = λ k. k; marks = λ k. absurd (false_ne_true k) })
  term_values-Marks (e ∷ es) log log' os h =
      let (v, l, hv, hr) = after-finishes (of_outcome (eval fuel labels e) log) _ h in
      let (vs, l', hs, hl) = after-finishes (term_values fuel labels (map node es) l) _ hr in
      Marks-finishes hl
        (Marks-trans v vs (eval-Marks e log l v hv) (term_values-Marks es l l' vs hs))
