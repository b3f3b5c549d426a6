-- ===== src/Zxbasm/Instruction/Table.antt =====
-- Checks of the table `Z80SET` of src/zxbasm/z80.py, entry by entry.
use zxbasic.Prelude.{
  ℕ, Bool, true, false, ◌&&◌, List, [], ◌∷◌, ◌++◌, length, replicate, some, Bool-cases, some_eq,
  and_parts, Option-cases, length-replicate, map, sym, ap, ◌∙◌, ◌≡◌, inl, inr, refl, arith,
}
use zxbasic.Prelude.Int.{ℤ, pos}
use zxbasic.Prelude.Text.{codes, equal, equal_iff, upper, split_by, before}
use zxbasic.Zxbasm.Opcodes.Entry.{Opcode}
use zxbasic.Zxbasm.Opcodes.{z80set, find_opcode}
use zxbasic.Zxbasm.Opcodes.PartOne.{part_one}
use zxbasic.Zxbasm.Opcodes.PartTwo.{part_two}
use zxbasic.Zxbasm.Opcodes.PartThree.{part_three}
use zxbasic.Zxbasm.Opcodes.PartFour.{part_four}
use zxbasic.Zxbasm.Opcodes.PartFive.{part_five}
use zxbasic.Zxbasm.Opcodes.PartSix.{part_six}
use zxbasic.Zxbasm.Instruction.{
  Arg, from_opcode, init, AsmInstruction, all_bytes, bytes, bytes_loop, argval, arg_at, hex_value,
  find_args, num2bytes,
}
use zxbasic.Zxbasm.Instruction.Encoding.{ints, bytes-ints}
use zxbasic.Zxbasm.Instruction.Outcome.{Error, Result, ok, err}

is_ok : Result (List ℕ) → Bool
is_ok (ok b) = true
is_ok (err e) = false

zeros_for : Opcode → List ℤ
zeros_for o = replicate (length (find_args (codes o.key))) (pos 0)

-- With zeros for its arguments the entry is encoded.
encodes_zeros : Opcode → Bool
unfolding is_ok zeros_for
encodes_zeros o = is_ok (bytes (from_opcode (codes o.key) (ints (zeros_for o)) o))

all_entries : (Opcode → Bool) → List Opcode → Bool
all_entries p [] = true
all_entries p (o ∷ os) = p o && all_entries p os

all_entries-append :
    (p : Opcode → Bool) (xs ys : List Opcode)
    → all_entries p xs ≡ true
    → all_entries p ys ≡ true
    → all_entries p (xs ++ ys) ≡ true
unfolding all_entries
all_entries-append p [] ys h k = k
all_entries-append p (x ∷ xs) ys h k = ground (arith, all_entries-append p xs ys)

-- What a check of all entries gives for the one that a lookup finds.
find_opcode-all_entries :
    (p : Opcode → Bool) (mnemo : List ℕ) (table : List Opcode) {o : Opcode}
    → all_entries p table ≡ true
    → find_opcode mnemo table ≡ some o
    → (p o ≡ true) × (equal (codes o.key) mnemo ≡ true)
unfolding find_opcode all_entries
find_opcode-all_entries p mnemo [] h f = cc
find_opcode-all_entries p mnemo (x ∷ xs) {o} h f = elim (Bool-cases (equal (codes x.key) mnemo)) [
  | inl here ↦ let e : x ≡ o = some_eq (rw here at f) in rw (← e) ((and_parts (p x) _ h).0, here)
  | inr later ↦ find_opcode-all_entries p mnemo xs (and_parts (p x) _ h).1 (rw later at f)
]

part_one_encodes : all_entries encodes_zeros part_one ≡ true
unfolding all_entries encodes_zeros part_one from_opcode bytes find_args split_by num2bytes
    bytes_loop arg_at argval equal hex_value
part_one_encodes = refl

part_two_encodes : all_entries encodes_zeros part_two ≡ true
unfolding all_entries encodes_zeros part_two from_opcode bytes find_args split_by num2bytes
    bytes_loop arg_at argval equal hex_value
part_two_encodes = refl

part_three_encodes : all_entries encodes_zeros part_three ≡ true
unfolding all_entries encodes_zeros part_three from_opcode bytes find_args split_by num2bytes
    bytes_loop arg_at argval equal hex_value
part_three_encodes = refl

part_four_encodes : all_entries encodes_zeros part_four ≡ true
unfolding all_entries encodes_zeros part_four from_opcode bytes find_args split_by num2bytes
    bytes_loop arg_at argval equal hex_value
part_four_encodes = refl

part_five_encodes : all_entries encodes_zeros part_five ≡ true
unfolding all_entries encodes_zeros part_five from_opcode bytes find_args split_by num2bytes
    bytes_loop arg_at argval equal hex_value
part_five_encodes = refl

part_six_encodes : all_entries encodes_zeros part_six ≡ true
unfolding all_entries encodes_zeros part_six from_opcode bytes find_args split_by num2bytes
    bytes_loop arg_at argval equal hex_value
part_six_encodes = refl

z80set_encodes : all_entries encodes_zeros z80set ≡ true
unfolding z80set
z80set_encodes = all_entries-append encodes_zeros part_one _ part_one_encodes (
    all_entries-append encodes_zeros part_two _ part_two_encodes (
      all_entries-append encodes_zeros part_three _ part_three_encodes (
        all_entries-append encodes_zeros part_four _ part_four_encodes
          (all_entries-append encodes_zeros part_five _ part_five_encodes part_six_encodes))))

is_ok-some : (r : Result (List ℕ)) → is_ok r ≡ true → (out : List ℕ) × (r ≡ ok out)
unfolding is_ok
is_ok-some (ok out) h = (out, refl)
is_ok-some (err e) h = cc

ok_eq {ℓ} : {A : Type ℓ} {a b : A} → ok a ≡ ok b → a ≡ b
ok_eq h = cc

ok_ne_err {ℓ} : {A : Type ℓ} {a : A} {e : Error} → err e ≡ ok a → ⊥
ok_ne_err h = cc

-- An object that the constructor makes is that of an entry whose key is the instruction.
init-from_opcode :
    (text : List ℕ) (arg : List Arg) (i : AsmInstruction)
    → map upper (before b';' text) ≡ before b';' text
    → init text arg ≡ ok i
    → (o : Opcode) × (i ≡ from_opcode (codes o.key) arg o) × (encodes_zeros o ≡ true)
unfolding init
init-from_opcode text arg i up made =
    elim (Option-cases (find_opcode (map upper (before b';' text)) z80set)) [
      | inl missing ↦ absurd (ok_ne_err (rw missing at made))
      | inr (o, found) ↦
          let (checked, key) =
            find_opcode-all_entries encodes_zeros _ z80set z80set_encodes found in
          let same : codes o.key ≡ before b';' text = (equal_iff _ _).0 key ∙ up in
          (o, rw same (sym (ok_eq (rw found at made))), checked)
    ]

encodes_zeros-bytes :
    (o : Opcode)
    → encodes_zeros o ≡ true
    → (out : List ℕ) × (bytes (from_opcode (codes o.key) (ints (zeros_for o)) o) ≡ ok out)
unfolding encodes_zeros
encodes_zeros-bytes o h = is_ok-some _ h

length-zeros_for : (o : Opcode) → length (zeros_for o) ≡ length (find_args (codes o.key))
unfolding zeros_for
length-zeros_for o = length-replicate (length (find_args (codes o.key))) (pos 0)

-- Every instruction that the constructor accepts, written in upper case, is encoded whatever
-- integers its arguments are, if there are as many as it takes: `bytes` raises nothing, the code
-- has exactly the size that the table gives, and all of it are bytes.
pub bytes-init :
    (text : List ℕ) (xs : List ℤ) (i : AsmInstruction)
    → map upper (before b';' text) ≡ before b';' text
    → init text (ints xs) ≡ ok i
    → length xs ≡ i.arg_num
    → (out : List ℕ) × (bytes i ≡ ok out) × (length out ≡ i.size) × (all_bytes out ≡ true)
unfolding from_opcode
bytes-init text xs i up made count =
    let (o, is_entry, checked) = init-from_opcode text (ints xs) i up made in
    let (_, zeros) = encodes_zeros-bytes o checked in
    let same : length (zeros_for o) ≡ length xs =
      length-zeros_for o ∙ sym (ap (λ (j : AsmInstruction). j.arg_num) is_entry) ∙ sym count in
    let (out, returns, size, are_bytes) = bytes-ints (codes o.key) o (zeros_for o) xs same zeros in
    (out, rw is_entry returns, rw is_entry size, are_bytes)
