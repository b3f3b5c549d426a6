-- ===== src/Zxbasm/Instruction/Outcome.antt =====
-- What a step of the assembler returns or raises: the exceptions of src/zxbasm/asm_instruction.py,
-- and those of the language.

pub data Error : Type 0 where
  invalid_mnemonic invalid_arg mismatch_size index_error type_error value_error : Error

pub data Result {ℓ} (A : Type ℓ) : Type ℓ where
  ok : A → Result A
  err : Error → Result A

infixl 5 ◌>>=◌
abbrev pub ◌>>=◌ {ℓ κ} : {A : Type ℓ} {B : Type κ} → Result A → (A → Result B) → Result B
ok a >>= f = f a
err e >>= f = err e
