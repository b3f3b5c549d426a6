-- ===== src/Zxbasm/Asm/Given.antt =====
-- The arguments of a data directive of src/zxbasm/asm.py whose values are known.
use zxbasic.Prelude.{
  ℕ, Bool, true, false, List, [], ◌∷◌, Option, some, map, ◌≡◌, refl, arith, if◌then◌else◌,
}
use zxbasic.Prelude.Int.{ℤ, pos, ltb_ℤ}
use zxbasic.Zxbasm.Expr.{Value, returns, eval}
use zxbasic.Zxbasm.Asm.{
  Asm, Log, Exit, finishes, Run, Term, node, value, defb, defs, defw, any_exceeds, term_values,
  warn, pure, Mnemonic, warn_truncated, argval, after,
}

-- A log without errors.
abbrev pub clean : List ℕ → Log
clean ws = record { has_errors = false; truncated = ws }

module _ (fuel : ℕ) (labels : List (Option Value)) where
  abbrev pub HasValue : Term → ℤ → Type 0
  HasValue (node e) x = eval fuel labels e ≡ returns (some x) []
  HasValue (value v) x = v ≡ some x

  abbrev pub HaveValues : List Term → List ℤ → Type 0
  HaveValues [] [] = Unit
  HaveValues [] (x ∷ xs) = ⊥
  HaveValues (t ∷ ts) [] = ⊥
  HaveValues (t ∷ ts) (x ∷ xs) = HasValue t x × HaveValues ts xs

  pub values-HaveValues : (xs : List ℤ) → HaveValues (map value (map some xs)) xs
  values-HaveValues [] = tt
  values-HaveValues (x ∷ xs) = (refl, values-HaveValues xs)

  term_values-some :
      (ts : List Term) (xs : List ℤ) (ws : List ℕ)
      → HaveValues ts xs
      → term_values fuel labels ts (clean ws) ≡ finishes (map some xs) (clean ws)
  unfolding term_values
  term_values-some [] [] ws h = refl
  term_values-some [] (x ∷ xs) ws h = absurd h
  term_values-some (t ∷ ts) [] ws h = absurd h
  term_values-some (node e ∷ ts) (x ∷ xs) ws h = rw (h.0, term_values-some ts xs ws h.1)
  term_values-some (value v ∷ ts) (x ∷ xs) ws h = rw (h.0, term_values-some ts xs ws h.1)

-- The outcome is a value, with no error and perhaps warnings.
pub record Finishes {A : Type 0} (a : A) (r : Exit A) : Type 0 where
  pub warnings : List ℕ
  pub run : r ≡ finishes a (clean warnings)

any_over : List ℤ → Bool
any_over [] = false
any_over (x ∷ xs) = if ltb_ℤ (pos 255) x then true else any_over xs

any_exceeds-some :
    (xs : List ℤ) (log : Log) → any_exceeds (map some xs) log ≡ finishes (any_over xs) log
unfolding any_exceeds any_over
any_exceeds-some [] log = refl
any_exceeds-some (x ∷ xs) log = ground (arith, any_exceeds-some xs log)

pub Finishes-after :
    {A B : Type 0} {a : A} {b : B} (r : Exit A) (f : A → Run B)
    → Finishes a r
    → ((ws : List ℕ) → Finishes b (f a (clean ws)))
    → Finishes b (after r f)
Finishes-after r f h k =
    let next = k h.warnings in record { warnings = next.warnings; run = rw h.run next.run }

warn_when :
    (lineno : ℕ) (b : Bool) (ws : List ℕ)
    → Finishes tt ((if b then warn lineno else pure tt) (clean ws))
warn_when lineno true ws = record { warnings = lineno ∷ ws; run = refl }
warn_when lineno false ws = record { warnings = ws; run = refl }

warn_truncated-Finishes :
    (lineno : ℕ) (asm : Mnemonic) (xs : List ℤ) (ws : List ℕ)
    → Finishes tt (warn_truncated lineno asm (map some xs) (clean ws))
warn_truncated-Finishes lineno defb xs ws =
    rw (any_exceeds-some) (warn_when lineno (any_over xs) ws)
warn_truncated-Finishes lineno defs xs ws = record { warnings = ws; run = refl }
warn_truncated-Finishes lineno defw xs ws = record { warnings = ws; run = refl }

pub argval-Finishes :
    (fuel : ℕ) (labels : List (Option Value)) (a : Asm) (xs : List ℤ) (ws : List ℕ)
    → HaveValues fuel labels a.arg xs
    → Finishes (map some xs) (argval fuel labels a (clean ws))
unfolding argval
argval-Finishes fuel labels a xs ws h =
    let rest = warn_truncated-Finishes a.lineno a.asm xs ws in
    record {
      warnings = rest.warnings;
      run = rw (term_values-some fuel labels a.arg xs ws h, rest.run);
    }
