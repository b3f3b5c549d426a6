-- ===== src/Zxbasm/Asm/Contents.antt =====
-- The bytes of a data directive of src/zxbasm/asm.py, once its arguments are values.
use zxbasic.Prelude.{
  ℕ, ◌*◌, ◌+◌, ◌%◌, ◌/◌, Bool, true, false, List, [], ◌∷◌, ◌<◌, Option, some, map, length,
  replicate, ◌≡◌, refl, arith, IsBytes, All-replicate, if◌then◌else◌,
}
use zxbasic.Prelude.Int.{ℤ, pos, negsuc, pos_part, ltb_ℤ}
use zxbasic.Zxbasm.Expr.{Value}
use zxbasic.Zxbasm.Instruction.Numbers.{residue}
use zxbasic.Zxbasm.Asm.{
  Mnemonic, Asm, Log, Exit, finishes, value, defb, defs, defw, low_bits, times, defb_bytes,
  defw_bytes, defs_bytes, bytes, argval, warn, pure, ◌>>◌,
}
use zxbasic.Zxbasm.Asm.Given.{clean, values-HaveValues, Finishes, Finishes-after, argval-Finishes}

-- The words of bytes, lowest byte first.
abbrev pub words : List ℕ → List ℕ
words [] = []
words (low ∷ []) = []
words (low ∷ high ∷ rest) = (low + 256 * high) ∷ words rest

-- What the bytes of a directive are to be: the residues of the values modulo 256 or 65536, or a
-- count of one residue.
abbrev pub Encodes : Mnemonic → List ℤ → List ℕ → Type 0
Encodes defb xs out = out ≡ map (λ x. residue x 256) xs
Encodes defw xs out = (words out ≡ map (λ x. residue x 65536) xs) × (length out ≡ 2 * length xs)
Encodes defs (n ∷ x ∷ xs) out = out ≡ replicate (pos_part n) (residue x 256)
Encodes defs _ out = ⊥

-- DEFS is given a count and a value.
abbrev pub Fits : Mnemonic → List ℤ → Type 0
Fits defs (n ∷ x ∷ xs) = Unit
Fits defs _ = ⊥
Fits _ xs = Unit

abbrev word_bytes : List ℤ → List ℕ
word_bytes [] = []
word_bytes (x ∷ xs) = low_bits 16 x % 256 ∷ low_bits 16 x / 256 ∷ word_bytes xs

defb_bytes-some :
    (xs : List ℤ) (log : Log)
    → defb_bytes (map some xs) log ≡ finishes (map (λ x. residue x 256) xs) log
unfolding defb_bytes
defb_bytes-some [] log = refl
defb_bytes-some (pos x ∷ xs) log = rw (defb_bytes-some xs log)
defb_bytes-some (negsuc x ∷ xs) log = rw (defb_bytes-some xs log)

defw_bytes-some :
    (xs : List ℤ) (log : Log) → defw_bytes (map some xs) log ≡ finishes (word_bytes xs) log
unfolding defw_bytes
defw_bytes-some [] log = refl
defw_bytes-some (x ∷ xs) log = rw (defw_bytes-some xs log)

word_parts : (a : ℕ) → a % 256 + 256 * (a / 256) ≡ a
word_parts a = omega arith

low_bits-residue : (x : ℤ) → low_bits 16 x ≡ residue x 65536
low_bits-residue (pos x) = refl
low_bits-residue (negsuc x) = refl

words-word_bytes : (xs : List ℤ) → words (word_bytes xs) ≡ map (λ x. residue x 65536) xs
words-word_bytes [] = refl
words-word_bytes (x ∷ xs) = rw (word_parts, words-word_bytes xs, low_bits-residue)

length-word_bytes : (xs : List ℤ) → length (word_bytes xs) ≡ 2 * length xs
length-word_bytes [] = refl
length-word_bytes (x ∷ xs) = omega (arith, length-word_bytes xs)

residue_byte : (x : ℤ) → residue x 256 < 256
residue_byte x = ground arith

residues-IsBytes : (xs : List ℤ) → IsBytes (map (λ x. residue x 256) xs)
residues-IsBytes [] = tt
residues-IsBytes (x ∷ xs) = (residue_byte x, residues-IsBytes xs)

word_bytes-IsBytes : (xs : List ℤ) → IsBytes (word_bytes xs)
word_bytes-IsBytes [] = tt
word_bytes-IsBytes (pos x ∷ xs) = (omega arith, (omega arith, word_bytes-IsBytes xs))
word_bytes-IsBytes (negsuc x ∷ xs) = (omega arith, (omega arith, word_bytes-IsBytes xs))

times-residue : (n x : ℤ) → times (low_bits 8 x) n ≡ replicate (pos_part n) (residue x 256)
times-residue (pos n) (pos x) = refl
times-residue (pos n) (negsuc x) = refl
times-residue (negsuc n) x = refl

warn_before :
    {A : Type 0} (lineno : ℕ) (b : Bool) (a : A) (ws : List ℕ)
    → Finishes a (if b then (warn lineno >> pure a) (clean ws) else pure a (clean ws))
warn_before lineno true a ws = record { warnings = lineno ∷ ws; run = refl }
warn_before lineno false a ws = record { warnings = ws; run = refl }

-- The second pass gives bytes that encode the values.
pub record Gives (asm : Mnemonic) (xs : List ℤ) (r : Exit (List ℕ)) : Type 0 where
  pub out : List ℕ
  pub gives : Finishes out r
  pub encodes : Encodes asm xs out
  pub are_bytes : IsBytes out

module _ (fuel : ℕ) (labels : List (Option Value)) (lineno arg_num : ℕ) where
  abbrev pub settled : Mnemonic → List ℤ → Asm
  settled asm xs = record {
    lineno = lineno;
    asm = asm;
    pending = false;
    arg = map value (map some xs);
    arg_num = arg_num;
  }

  settled-values :
      (asm : Mnemonic) (xs : List ℤ) (ws : List ℕ)
      → Finishes (map some xs) (argval fuel labels (settled asm xs) (clean ws))
  settled-values asm xs ws =
      argval-Finishes fuel labels (settled asm xs) xs ws (values-HaveValues fuel labels xs)

  pub settled-Gives :
      (asm : Mnemonic) (xs : List ℤ) (ws : List ℕ)
      → Fits asm xs
      → Gives asm xs (bytes fuel labels (settled asm xs) (clean ws))
  unfolding bytes defs_bytes
  settled-Gives defb xs ws h = record {
    out = map (λ x. residue x 256) xs;
    gives =
        Finishes-after (argval fuel labels (settled defb xs) (clean ws)) defb_bytes
          (settled-values defb xs ws)
          (λ vs. record { warnings = vs; run = defb_bytes-some xs (clean vs) });
    encodes = refl;
    are_bytes = residues-IsBytes xs;
  }
  settled-Gives defw xs ws h = record {
    out = word_bytes xs;
    gives =
        Finishes-after (argval fuel labels (settled defw xs) (clean ws)) defw_bytes
          (settled-values defw xs ws)
          (λ vs. record { warnings = vs; run = defw_bytes-some xs (clean vs) });
    encodes = (words-word_bytes xs, length-word_bytes xs);
    are_bytes = word_bytes-IsBytes xs;
  }
  settled-Gives defs [] ws h = absurd h
  settled-Gives defs (n ∷ []) ws h = absurd h
  settled-Gives defs (n ∷ x ∷ xs) ws h = record {
    out = times (low_bits 8 x) n;
    gives =
        Finishes-after (argval fuel labels (settled defs (n ∷ x ∷ xs)) (clean ws))
          (defs_bytes lineno) (settled-values defs (n ∷ x ∷ xs) ws)
          (λ vs. warn_before lineno (ltb_ℤ (pos 255) x) (times (low_bits 8 x) n) vs);
    encodes = times-residue n x;
    are_bytes =
        rw times-residue
          (All-replicate (λ b. b < 256) (pos_part n) (residue x 256) (residue_byte x));
  }
