-- ===== src/Zxbasm/Asm.antt =====
-- src/zxbasm/asm.py: the data directives, DEFB, DEFS and DEFW, of the class `Asm`, and the step of
-- `Memory.dump` in src/zxbasm/memory.py that gives a pending one its bytes.
pub mod Given
pub mod Contents
pub mod Marks
pub mod Errors
pub mod Resolved
use zxbasic.Prelude.{
  ℕ, zero, suc, ◌-◌, ◌*◌, ◌/◌, ◌%◌, ◌^◌, Bool, true, false, ◌||◌, List, [], ◌∷◌, ◌++◌, Option, none,
  some, map, length, replicate, if◌then◌else◌,
}
use zxbasic.Prelude.Int.{ℤ, pos, negsuc, ltb_ℤ}
use zxbasic.Zxbasm.Expr.{
  Expr, int, Value, Message, Outcome, returns, raises, recursion_error, gives_float, eval,
}

pub data Mnemonic : Type 0 where
  defb defs defw : Mnemonic

-- An argument: an expression, or what one has been replaced by, an integer or None.
pub data Term : Type 0 where
  node : Expr → Term
  value : Option ℤ → Term

pub record Asm : Type 0 where
  pub lineno : ℕ
  pub asm : Mnemonic
  pub pending : Bool
  pub arg : List Term
  pub arg_num : ℕ

-- What the methods share with the rest: whether there were errors, and the lines of the warnings
-- that a value will be truncated, the last one first.
pub record Log : Type 0 where
  pub has_errors : Bool
  pub truncated : List ℕ

-- `passes` is an exception of an expression, or a run that leaves the integers.
pub data Exit (A : Type 0) : Type 0 where
  finishes : A → Log → Exit A
  type_error index_error assertion_error passes : Exit A

abbrev pub Run : Type 0 → Type 0
Run A = Log → Exit A

infixl 5 ◌>>=◌ ◌>>◌
abbrev pub after : {A B : Type 0} → Exit A → (A → Run B) → Exit B
after (finishes a log) f = f a log
after type_error f = type_error
after index_error f = index_error
after assertion_error f = assertion_error
after passes f = passes

abbrev pub ◌>>=◌ : {A B : Type 0} → Run A → (A → Run B) → Run B
◌>>=◌ m f log = after (m log) f

abbrev pub ◌>>◌ : {B : Type 0} → Run (Unit {0}) → Run B → Run B
m >> k = m >>= λ _. k

abbrev pub pure : {A : Type 0} → A → Run A
pure a log = finishes a log

abbrev pub warn : ℕ → Run (Unit {0})
warn lineno log = finishes tt (record log { truncated = lineno ∷ log.truncated })

abbrev any_message : List Message → Bool
any_message [] = false
any_message (m ∷ ms) = true

-- `x.eval()`: each message counts as an error.
abbrev pub of_outcome : Outcome → Run (Option ℤ)
of_outcome (returns v ms) log =
    finishes v (record log { has_errors = log.has_errors || any_message ms })
of_outcome raises log = passes
of_outcome recursion_error log = passes
of_outcome gives_float log = passes

-- `__init__`; a text is one expression for each character.
unfoldable pub from_terms : ℕ → Mnemonic → List Term → Asm
from_terms lineno asm arg = record {
  lineno = lineno;
  asm = asm;
  pending = true;
  arg = arg;
  arg_num = length arg;
}

unfoldable pub from_text : ℕ → Mnemonic → List ℕ → Asm
unfolding from_terms
from_text lineno asm cs = from_terms lineno asm (map (λ x. node (int (pos x))) cs)

-- `any(x > 255 for x in result)`
unfoldable pub any_exceeds : List (Option ℤ) → Run Bool
any_exceeds [] log = finishes false log
any_exceeds (none ∷ xs) log = type_error
any_exceeds (some x ∷ xs) log = if ltb_ℤ (pos 255) x then finishes true log else any_exceeds xs log

-- `x & (2 ** k - 1)`, in two's complement
abbrev pub low_bits : ℕ → ℤ → ℕ
low_bits k (pos x) = x % 2 ^ k
low_bits k (negsuc x) = 2 ^ k - 1 - x % 2 ^ k

-- `bytearray(x & 0xFF for x in self.argval())`
unfoldable pub defb_bytes : List (Option ℤ) → Run (List ℕ)
defb_bytes [] = pure []
defb_bytes (none ∷ xs) = λ log. type_error
defb_bytes (some x ∷ xs) = do rest ← defb_bytes xs; pure (low_bits 8 x ∷ rest)

unfoldable pub defw_bytes : List (Option ℤ) → Run (List ℕ)
defw_bytes [] = pure []
defw_bytes (none ∷ xs) = λ log. type_error
defw_bytes (some i ∷ xs) = do
  let x = low_bits 16 i
  rest ← defw_bytes xs
  pure (x % 256 ∷ x / 256 ∷ rest)

-- A sequence of one byte, repeated; a negative count gives none.
abbrev pub times : ℕ → ℤ → List ℕ
times num (pos n) = replicate n num
times num (negsuc n) = []

unfoldable pub defs_bytes : ℕ → List (Option ℤ) → Run (List ℕ)
defs_bytes lineno [] log = index_error
defs_bytes lineno (arg0 ∷ []) log = index_error
defs_bytes lineno (none ∷ arg1 ∷ args) log = assertion_error
defs_bytes lineno (some arg0 ∷ none ∷ args) log = assertion_error
defs_bytes lineno (some arg0 ∷ some arg1 ∷ args) log =
    let result : Run (List ℕ) = pure (times (low_bits 8 arg1) arg0) in
    if ltb_ℤ (pos 255) arg1 then (warn lineno >> result) log else result log

-- `(0,) * N`
abbrev empty_space : Option ℤ → Run (List ℕ)
empty_space none log = type_error
empty_space (some n) log = finishes (times 0 n) log

abbrev pub warn_truncated : ℕ → Mnemonic → List (Option ℤ) → Run (Unit {0})
warn_truncated lineno defb result = do
  big ← any_exceeds result
  if big then warn lineno else pure tt
warn_truncated lineno defs result = pure tt
warn_truncated lineno defw result = pure tt

-- The methods, over the values of the labels; the fuel is that of the expressions.
module _ (fuel : ℕ) (labels : List (Option Value)) where
  abbrev pub term_value : Term → Run (Option ℤ)
  term_value (node e) = of_outcome (eval fuel labels e)
  term_value (value v) = pure v

  unfoldable pub term_values : List Term → Run (List (Option ℤ))
  term_values [] = pure []
  term_values (x ∷ xs) = do v ← term_value x; vs ← term_values xs; pure (v ∷ vs)

  -- `argval`; with errors it is `[None]`.
  unfoldable pub argval : Asm → Run (List (Option ℤ))
  argval a log =
      let found : Run (List (Option ℤ)) = do
        result ← term_values a.arg
        warn_truncated a.lineno a.asm result
        pure result
      in if log.has_errors then finishes (none ∷ []) log else found log

  -- The room for a pending DEFS.
  abbrev pub reserved : List Term → Run (List ℕ)
  reserved [] log = index_error
  reserved (n ∷ rest) log = (term_value n >>= empty_space) log

  unfoldable pub bytes : Asm → Run (List ℕ)
  bytes a = elim a.asm [
    | defb ↦ if a.pending then pure (replicate a.arg_num 0) else (argval a >>= defb_bytes)
    | defs ↦ if a.pending then reserved a.arg else (argval a >>= defs_bytes a.lineno)
    | defw ↦ if a.pending then pure (replicate (2 * a.arg_num) 0) else (argval a >>= defw_bytes)
  ]

  -- What `dump` does with a pending one: the arguments are replaced by their values for good, and
  -- the bytes taken.
  unfoldable pub resolve : Asm → Run (List ℕ × Asm)
  resolve a = do
    xs ← argval a
    let a' = record a { arg = map value xs; pending = false }
    tmp ← bytes a'
    pure (tmp, a')
