-- ===== src/Zxbasm/Label/Namespace.antt =====
-- src/zxbasm/global_.py: the normal form of a namespace.
use mathlib.Core.Path.{subst}
use zxbasic.Prelude.Text.{split_by, cons_head}
use zxbasic.Prelude.{
  ℕ, Bool, false, ◌==◌, List, [], ◌∷◌, ◌++◌, append-nil, ◌≡◌, ◌≢◌, refl, ap, sym, ◌∙◌, All,
  Bool-cases, ◌⊎◌, inl, inr,
}
use zxbasic.Zxbasm.Label.{normalize_namespace, dotted, or_dot}

abbrev is_dot : ℕ → Bool
is_dot c = c == b'.'

abbrev Undotted : List ℕ → Type 0
Undotted = All (λ c. is_dot c ≡ false)

-- The parts of a normal form.
abbrev Proper : List (List ℕ) → Type 0
Proper = All (λ p. (p ≢ []) × Undotted p)

split_by-append :
    (p r q : List ℕ) (qs : List (List ℕ))
    → Undotted p
    → split_by is_dot r ≡ q ∷ qs
    → split_by is_dot (p ++ r) ≡ (p ++ q) ∷ qs
unfolding split_by
split_by-append [] r q qs h e = e
split_by-append (c ∷ p) r q qs h e = rw (h.0, split_by-append p r q qs h.1 e) refl

split_by-dotted : (ps : List (List ℕ)) → Proper ps → split_by is_dot (dotted ps) ≡ [] ∷ ps
unfolding split_by dotted
split_by-dotted [] h = refl
split_by-dotted ([] ∷ ps) h = absurd (h.0.0 refl)
split_by-dotted ((c ∷ cs) ∷ ps) h =
    ap (λ s. [] ∷ s)
      (split_by-append (c ∷ cs) (dotted ps) [] ps h.0.1 (split_by-dotted ps h.1)
        ∙ ap (λ s. s ∷ ps) (append-nil (c ∷ cs)))

-- The parts that are kept.
kept : List (List ℕ) → List (List ℕ)
kept [] = []
kept ([] ∷ ps) = kept ps
kept ((c ∷ cs) ∷ ps) = (c ∷ cs) ∷ kept ps

dotted-kept : (ps : List (List ℕ)) → dotted ps ≡ dotted (kept ps)
unfolding dotted kept
dotted-kept [] = refl
dotted-kept ([] ∷ ps) = dotted-kept ps
dotted-kept ((c ∷ cs) ∷ ps) = rw (dotted-kept ps) refl

kept-Proper : (ps : List (List ℕ)) → All Undotted ps → Proper (kept ps)
unfolding kept
kept-Proper [] h = tt
kept-Proper ([] ∷ ps) h = kept-Proper ps h.1
kept-Proper ((c ∷ cs) ∷ ps) h = (((λ e. cc), h.0), kept-Proper ps h.1)

cons_head-Undotted :
    (c : ℕ) (ss : List (List ℕ))
    → is_dot c ≡ false
    → All Undotted ss
    → All Undotted (cons_head c ss)
unfolding cons_head
cons_head-Undotted c [] e h = ((e, tt), tt)
cons_head-Undotted c (s ∷ ss) e h = ((e, h.0), h.1)

split_by-Undotted : (s : List ℕ) → All Undotted (split_by is_dot s)
unfolding split_by
split_by-Undotted [] = (tt, tt)
split_by-Undotted (c ∷ s) = elim (Bool-cases (is_dot c)) [
  | inl dot ↦ rw dot (tt, split_by-Undotted s)
  | inr other ↦ rw other (cons_head-Undotted c (split_by is_dot s) other (split_by-Undotted s))
]

-- The form of a normalised namespace: a dot, or names that are not empty, each behind a dot.
abbrev pub IsNormal : List ℕ → Type 0
IsNormal s =
    (s ≡ b'.' ∷ [])
    ⊎ ((p : List ℕ) × (ps : List (List ℕ)) × (split_by is_dot s ≡ [] ∷ p ∷ ps)
        × All (λ q. q ≢ []) (p ∷ ps))

not_empty : (ps : List (List ℕ)) → Proper ps → All (λ q. q ≢ []) ps
not_empty [] h = tt
not_empty (p ∷ ps) h = (h.0.0, not_empty ps h.1)

dotted-IsNormal : (ps : List (List ℕ)) → Proper ps → IsNormal (or_dot (dotted ps))
unfolding or_dot dotted
dotted-IsNormal [] h = inl refl
dotted-IsNormal ([] ∷ ps) h = absurd (h.0.0 refl)
dotted-IsNormal ((c ∷ cs) ∷ ps) h =
    inr (c ∷ cs, ps, split_by-dotted ((c ∷ cs) ∷ ps) h, not_empty ((c ∷ cs) ∷ ps) h)

dotted_again :
    (ps : List (List ℕ))
    → Proper ps
    → or_dot (dotted (split_by is_dot (or_dot (dotted ps)))) ≡ or_dot (dotted ps)
unfolding or_dot dotted split_by
dotted_again [] h = refl
dotted_again ([] ∷ ps) h = absurd (h.0.0 refl)
dotted_again ((c ∷ cs) ∷ ps) h = ap (λ t. or_dot (dotted t)) (split_by-dotted ((c ∷ cs) ∷ ps) h)

-- A normalised namespace is a single dot, or names that are not empty, each behind a dot; and to
-- normalise it again changes nothing.
pub normalize_namespace-IsNormal :
    (s : List ℕ)
    → IsNormal (normalize_namespace s)
      × (normalize_namespace (normalize_namespace s) ≡ normalize_namespace s)
unfolding normalize_namespace
normalize_namespace-IsNormal s =
    let ps = kept (split_by is_dot s) in
    let proper = kept-Proper (split_by is_dot s) (split_by-Undotted s) in
    let e = dotted-kept (split_by is_dot s) in
    (
      subst (λ d. IsNormal (or_dot d)) (sym e) (dotted-IsNormal ps proper),
      subst (λ d. or_dot (dotted (split_by is_dot (or_dot d))) ≡ or_dot d) (sym e)
          (dotted_again ps proper),
    )
