-- ===== src/Zxbasm/Asm/Errors.antt =====
-- A data directive of src/zxbasm/asm.py with an argument that has no value when `Memory.dump` comes
-- to it.
use zxbasic.Prelude.{
  ℕ, Bool, true, false, List, [], ◌∷◌, Option, none, some, map, length, ◌≡◌, refl, ◌∙◌, ◌⊎◌, inl,
  inr, if◌then◌else◌,
}
use zxbasic.Prelude.Int.{ℤ, pos, ltb_ℤ}
use zxbasic.Zxbasm.Expr.{Expr, Value}
use zxbasic.Zxbasm.Asm.Given.{clean}
use zxbasic.Zxbasm.Asm.{
  pure, Mnemonic, Asm, Log, Exit, finishes, type_error, index_error, assertion_error, passes, Term,
  node, value, defb, defs, defw, any_exceeds, term_values, warn_truncated, warn, argval, bytes,
  resolve, from_terms, after, defb_bytes, defw_bytes, defs_bytes,
}
use zxbasic.Zxbasm.Asm.Marks.{lacks, term_values-Marks}

-- The exception of a directive whose values are `[None]`.
abbrev pub on_none : {A : Type 0} → Mnemonic → Exit A
on_none defb = type_error
on_none defs = index_error
on_none defw = type_error

abbrev settled_with : ℕ → ℕ → Mnemonic → List Term → Asm
settled_with lineno arg_num asm arg = record {
  lineno = lineno;
  asm = asm;
  pending = false;
  arg = arg;
  arg_num = arg_num;
}

module _ (fuel : ℕ) (labels : List (Option Value)) where
  -- With errors the values are `[None]`.
  bytes-None :
      (lineno arg_num : ℕ) (asm : Mnemonic) (arg : List Term) (log : Log)
      → log.has_errors ≡ true
      → bytes fuel labels (settled_with lineno arg_num asm arg) log ≡ on_none asm
  unfolding bytes argval defb_bytes defw_bytes defs_bytes
  bytes-None lineno arg_num defb arg log h = rw h
  bytes-None lineno arg_num defs arg log h = rw h
  bytes-None lineno arg_num defw arg log h = rw h

-- A run that passes a stage by, or has the exception of its kind.
record Stage (asm : Mnemonic) (log : Log) (r : Exit (Unit {0})) : Type 0 where
  stage : (r ≡ on_none asm) ⊎ ((l : Log) × (l.has_errors ≡ log.has_errors) × (r ≡ finishes tt l))

exceeds-Stage :
    (lineno : ℕ) (xs : List (Option ℤ)) (log : Log)
    → Stage defb log (warn_truncated lineno defb xs log)
unfolding any_exceeds
exceeds-Stage lineno [] log = record { stage = inr (log, refl, refl) }
exceeds-Stage lineno (none ∷ xs) log = record { stage = inl refl }
exceeds-Stage lineno (some x ∷ xs) log = found (ltb_ℤ (pos 255) x) (exceeds-Stage lineno xs log)
  where
    found :
        (b : Bool)
        → Stage defb log (warn_truncated lineno defb xs log)
        → Stage defb log (
            after
              (if b then finishes true log else any_exceeds xs log)
              (λ big. if big then warn lineno else pure tt))
    found true h = record {
      stage = inr (record log { truncated = lineno ∷ log.truncated }, refl, refl);
    }
    found false h = h

warn_truncated-Stage :
    (lineno : ℕ) (asm : Mnemonic) (xs : List (Option ℤ)) (log : Log)
    → Stage asm log (warn_truncated lineno asm xs log)
warn_truncated-Stage lineno defb xs log = exceeds-Stage lineno xs log
warn_truncated-Stage lineno defs xs log = record { stage = inr (log, refl, refl) }
warn_truncated-Stage lineno defw xs log = record { stage = inr (log, refl, refl) }

after_none :
    {A B : Type 0} (asm : Mnemonic) (f : A → Log → Exit B) → after (on_none asm) f ≡ on_none asm
after_none defb f = refl
after_none defs f = refl
after_none defw f = refl

after_assoc :
    {A B C : Type 0} (r : Exit A) (f : A → Log → Exit B) (g : B → Log → Exit C)
    → after (after r f) g ≡ after r (λ a l. after (f a l) g)
after_assoc (finishes a l) f g = refl
after_assoc type_error f g = refl
after_assoc index_error f g = refl
after_assoc assertion_error f g = refl
after_assoc passes f g = refl

-- After the stage comes what has the exception too.
after-on_none :
    {A : Type 0} (asm : Mnemonic) (log : Log) (r : Exit (Unit {0})) (f : Unit {0} → Log → Exit A)
    → Stage asm log r
    → ((l : Log) → l.has_errors ≡ log.has_errors → f tt l ≡ on_none asm)
    → after r f ≡ on_none asm
after-on_none asm log r f h k = elim h.stage [
  | inl e ↦ rw e (after_none asm f)
  | inr (l, same, e) ↦ rw e (k l same)
]

-- A directive of expressions of which some has no value when the second pass comes to it, with no
-- error before: an error has been logged by the end of the evaluation, and the pass does not stop
-- with that message but raises an exception, TypeError for DEFB and DEFW and IndexError for DEFS.
pub resolve-None :
    (fuel : ℕ) (labels : List (Option Value)) (lineno : ℕ) (asm : Mnemonic) (es : List Expr)
    (os : List (Option ℤ)) (ws : List ℕ) (log : Log)
    → term_values fuel labels (map node es) (clean ws) ≡ finishes os log
    → lacks os ≡ true
    → (log.has_errors ≡ true)
      × (resolve fuel labels (from_terms lineno asm (map node es)) (clean ws) ≡ on_none asm)
unfolding resolve argval from_terms
resolve-None fuel labels lineno asm es os ws log e m =
    let marked = (term_values-Marks fuel labels es (clean ws) log os e).marks m in
    (
      marked,
      rw e (
          after_assoc (warn_truncated lineno asm os log) (λ _. pure os) _
          ∙ after-on_none asm log (warn_truncated lineno asm os log) _
              (warn_truncated-Stage lineno asm os log)
              (λ l same.
                rw
                  (bytes-None fuel labels lineno (length (map node es)) asm (map value os) l
                    (same ∙ marked))
                  (after_none asm _))),
    )
