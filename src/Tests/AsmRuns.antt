-- ===== src/Tests/AsmRuns.antt =====
-- src/zxbasm/asm.py: runs of the data directives, and the theorems at concrete inputs.
use zxbasic.Prelude.{
  zero, suc, true, false, List, [], ◌∷◌, Option, none, some, map, ◌≡◌, refl, arith,
}
use zxbasic.Prelude.Int.{pos, negsuc}
use zxbasic.Zxbasm.Expr.{Expr, int, label, binary, Value, address, try_eval, eval, apply}
use zxbasic.Zxbasm.Expr.Operators.{div, calculate, divide}
use zxbasic.Zxbasm.Expr.Stability.{Extends}
use zxbasic.Zxbasm.Asm.{
  Asm, Log, finishes, type_error, Term, node, value, defb, defw, term_values, from_terms, bytes,
  argval, resolve, defw_bytes,
}
use zxbasic.Zxbasm.Asm.Given.{clean, HaveValues}
use zxbasic.Zxbasm.Asm.Errors.{resolve-None}
use zxbasic.Zxbasm.Asm.Resolved.{Fills, resolve-Fills}

-- DEFW of a label that comes later, and of -1
abbrev label_and_minus : List Term
label_and_minus = node (label 4 0) ∷ node (int (negsuc 0)) ∷ []

abbrev unknown : List (Option Value)
unknown = none ∷ []

abbrev known : List (Option Value)
known = some (address (pos 32769)) ∷ []

unknown-Extends : Extends unknown known
unknown-Extends zero v h = cc
unknown-Extends (suc l) v h = cc

room_run :
    bytes 3 unknown (from_terms 4 defw label_and_minus) (clean [])
    ≡ finishes (0 ∷ 0 ∷ 0 ∷ 0 ∷ []) (clean [])
unfolding bytes from_terms
room_run = refl

known_values : HaveValues 3 known label_and_minus (pos 32769 ∷ negsuc 0 ∷ [])
unfolding eval try_eval
known_values = (refl, (refl, tt))

abbrev settled : Asm
settled = record {
  lineno = 4;
  asm = defw;
  pending = false;
  arg = value (some (pos 32769)) ∷ value (some (negsuc 0)) ∷ [];
  arg_num = 2;
}

words_run :
    resolve 3 known (from_terms 4 defw label_and_minus) (clean [])
    ≡ finishes (1 ∷ 128 ∷ 255 ∷ 255 ∷ [], settled) (clean [])
unfolding resolve argval term_values bytes defw_bytes from_terms eval try_eval
words_run = refl

resolve-Fills_example :
    Fills
      (0 ∷ 0 ∷ 0 ∷ 0 ∷ [])
      defw
      (pos 32769 ∷ negsuc 0 ∷ [])
      (resolve 3 known (from_terms 4 defw label_and_minus) (clean []))
resolve-Fills_example =
    resolve-Fills 3 3 unknown known 4 defw label_and_minus (pos 32769 ∷ negsuc 0 ∷ []) (clean [])
      (clean []) (0 ∷ 0 ∷ 0 ∷ 0 ∷ []) [] (omega arith) unknown-Extends room_run known_values tt

-- DEFB 1, 1 / 0
abbrev one_by_zero : List Expr
one_by_zero = int (pos 1) ∷ binary 7 div (int (pos 1)) (int (pos 0)) ∷ []

abbrev with_error : Log
with_error = record { has_errors = true; truncated = [] }

division_run :
    term_values 3 [] (map node one_by_zero) (clean [])
    ≡ finishes (some (pos 1) ∷ none ∷ []) with_error
unfolding term_values eval try_eval apply calculate divide
division_run = refl

resolve-None_example :
    (with_error.has_errors ≡ true)
    × (resolve 3 [] (from_terms 7 defb (map node one_by_zero)) (clean []) ≡ type_error)
resolve-None_example =
    resolve-None 3 [] 7 defb one_by_zero (some (pos 1) ∷ none ∷ []) [] with_error division_run refl
