-- ===== src/Zxbasm/Instruction/Encoding.antt =====
-- `AsmInstruction.bytes` of src/zxbasm/asm_instruction.py: every instruction of the table is encoded
-- in the size that the table gives, and its arguments are little endian two's complement numbers.
use zxbasic.Prelude.{
  ℕ, zero, suc, ◌+◌, ◌-◌, ◌/◌, true, false, ◌&&◌, List, [], ◌∷◌, ◌++◌, map, length, length-append,
  ◌==◌, ◌≡◌, inl, inr, refl, sym, ap, ◌∙◌, arith, Bool-cases,
}
use zxbasic.Prelude.Int.{ℤ}
use zxbasic.Prelude.Text.{codes, equal, split_by}
use zxbasic.Zxbasm.Opcodes.Entry.{Opcode}
use zxbasic.Zxbasm.Instruction.{
  Arg, int, any_unset, all_ints, argval, arg_at, get_arg, num2bytes, little_endian, masked,
  find_args, from_opcode, bytes_loop, pops, opcode_byte, all_bytes, checked, bytes,
}
use zxbasic.Zxbasm.Instruction.Outcome.{Error, Result, ok, err, ◌>>=◌}

abbrev pub ints : List ℤ → List Arg
ints = map int

any_unset-ints : (xs : List ℤ) → any_unset (ints xs) ≡ false
any_unset-ints [] = refl
any_unset-ints (x ∷ xs) = any_unset-ints xs

all_ints-ints : (xs : List ℤ) → all_ints (ints xs) ≡ true
all_ints-ints [] = refl
all_ints-ints (x ∷ xs) = all_ints-ints xs

get_arg-ints :
    (xs ys : List ℤ) (i : ℕ) {a : Arg}
    → length xs ≡ length ys
    → get_arg (ints xs) i ≡ ok a
    → (y : ℤ) × (x : ℤ) × (a ≡ int x) × (get_arg (ints ys) i ≡ ok (int y))
unfolding get_arg
get_arg-ints [] ys i e h = cc
get_arg-ints (x ∷ xs) [] i e h = absurd (omega (arith, e))
get_arg-ints (x ∷ xs) (y ∷ ys) zero e h = (y, x, cc, refl)
get_arg-ints (x ∷ xs) (y ∷ ys) (suc i) e h = get_arg-ints xs ys i (omega arith) h

arg_at-ints : (xs : List ℤ) (i : ℕ) → arg_at (ints xs) i ≡ get_arg (ints xs) i
unfolding arg_at argval
arg_at-ints xs i = rw (any_unset-ints xs) (rw (all_ints-ints xs))

length-little_endian : (n x : ℕ) → length (little_endian n x) ≡ n
unfolding little_endian
length-little_endian zero x = refl
length-little_endian (suc n) x = ap suc (length-little_endian n (x / 256))

all_bytes-little_endian : (n x : ℕ) → all_bytes (little_endian n x) ≡ true
unfolding little_endian
all_bytes-little_endian zero x = refl
all_bytes-little_endian (suc n) x = ground (arith, all_bytes-little_endian n (x / 256))

all_bytes-append : (xs ys : List ℕ) → all_bytes (xs ++ ys) ≡ (all_bytes xs && all_bytes ys)
all_bytes-append [] ys = refl
all_bytes-append (x ∷ xs) ys = ground (arith, all_bytes-append xs ys)

-- As long, and of bytes if the other is.
record SameShape (out out' : List ℕ) : Type 0 where
  size : length out' ≡ length out
  is_bytes : all_bytes out ≡ true → all_bytes out' ≡ true

SameShape-append :
    (xs xs' ys ys' : List ℕ)
    → SameShape xs xs'
    → SameShape ys ys'
    → SameShape (xs ++ ys) (xs' ++ ys')
SameShape-append xs xs' ys ys' h k = record {
  size = omega (arith, length-append xs ys, length-append xs' ys', h.size, k.size);
  is_bytes =
      λ p. ground (arith, all_bytes-append xs ys, all_bytes-append xs' ys', h.is_bytes, k.is_bytes);
}

SameShape-num2bytes : (x y : ℤ) (n : ℕ) → SameShape (num2bytes (int x) n) (num2bytes (int y) n)
unfolding num2bytes
SameShape-num2bytes x y n = record {
  size = length-little_endian n (masked y n) ∙ sym (length-little_endian n (masked x n));
  is_bytes = λ p. all_bytes-little_endian n (masked y n);
}

>>=-eq-ok {ℓ κ} :
    {A : Type ℓ} {B : Type κ} (r : Result A) (f : A → Result B) {b : B}
    → (r >>= f) ≡ ok b
    → (a : A) × (r ≡ ok a) × (f a ≡ ok b)
>>=-eq-ok (ok a) f h = (a, refl, h)
>>=-eq-ok (err e) f h = cc

ok-injective : {a b : List ℕ} → ok a ≡ ok b → a ≡ b
ok-injective h = cc

ok_ne_err : {b : List ℕ} {e : Error} → err e ≡ ok b → ⊥
ok_ne_err h = cc

record Encoded (out : List ℕ) (r : Result (List ℕ)) : Type 0 where
  value : List ℕ
  returns : r ≡ ok value
  shape : SameShape out value

SameShape-refl : (xs : List ℕ) → SameShape xs xs
SameShape-refl xs = record { size = refl; is_bytes = λ p. p }

-- The two branches of a round, from the rounds that follow.
Encoded-arg :
    (xs ys : List ℤ) (n argi : ℕ) (op : List (List ℕ))
    (next next' : List (List ℕ) → Result (List ℕ)) {out : List ℕ}
    → length xs ≡ length ys
    → ((op : List (List ℕ)) (out : List ℕ) → next op ≡ ok out → Encoded out (next' op))
    → (pops (n - 1) op >>= λ op.
        arg_at (ints xs) argi >>= λ value. next op >>= λ rest. ok (num2bytes value n ++ rest))
      ≡ ok out
    → Encoded out (
        pops (n - 1) op >>= λ op.
        arg_at (ints ys) argi >>= λ value. next' op >>= λ rest. ok (num2bytes value n ++ rest))
Encoded-arg xs ys n argi op next next' {out} same ih h =
    let (op', popped, h₁) = >>=-eq-ok (pops (n - 1) op) _ h in
    let (a, found, h₂) = >>=-eq-ok (arg_at (ints xs) argi) _ h₁ in
    let (rest, later, h₃) = >>=-eq-ok (next op') _ h₂ in
    let (y, x, is_int, found') = get_arg-ints xs ys argi same (rw (arg_at-ints xs argi) at found) in
    let e = ih op' rest later in
    rw popped (
      rw (arg_at-ints ys argi) (
        rw found' (
          rw e.returns (record {
            value = num2bytes (int y) n ++ e.value;
            returns = refl;
            shape =
                let eq : num2bytes a n ++ rest ≡ out = ok-injective h₃ in
                rw (← eq)
                  (rw is_int (SameShape-append _ _ _ _ (SameShape-num2bytes x y n) e.shape));
          }))))

Encoded-plain :
    (q : List ℕ) (r r' : Result (List ℕ)) {out : List ℕ}
    → ((out : List ℕ) → r ≡ ok out → Encoded out r')
    → (opcode_byte q >>= λ first. r >>= λ rest. ok (first ++ rest)) ≡ ok out
    → Encoded out (opcode_byte q >>= λ first. r' >>= λ rest. ok (first ++ rest))
Encoded-plain q r r' {out} ih h =
    let (first, read, h₁) = >>=-eq-ok (opcode_byte q) _ h in
    let (rest, later, h₂) = >>=-eq-ok r _ h₁ in
    let e = ih rest later in
    rw read (
      rw e.returns (record {
        value = first ++ e.value;
        returns = refl;
        shape =
            let eq : first ++ rest ≡ out = ok-injective h₂ in
            rw (← eq) (SameShape-append _ _ _ _ (SameShape-refl first) e.shape);
      }))

-- The outcome does not depend on the values of the arguments, but for the bytes that encode them.
bytes_loop-Encoded :
    (fuel : ℕ) (op : List (List ℕ)) (argbytes : List ℕ) (xs ys : List ℤ) (argi : ℕ)
    → length xs ≡ length ys
    → (out : List ℕ) → bytes_loop fuel op argbytes (ints xs) argi ≡ ok out
    → Encoded out (bytes_loop fuel op argbytes (ints ys) argi)
unfolding bytes_loop
bytes_loop-Encoded zero [] argbytes xs ys argi same out h = record {
  value = [];
  returns = refl;
  shape = rw (← ok-injective h) (SameShape-refl []);
}
bytes_loop-Encoded (suc f) [] argbytes xs ys argi same out h = record {
  value = [];
  returns = refl;
  shape = rw (← ok-injective h) (SameShape-refl []);
}
bytes_loop-Encoded zero (q ∷ op) argbytes xs ys argi same out h = cc
bytes_loop-Encoded (suc f) (q ∷ op) [] xs ys argi same out h =
    elim (Bool-cases (equal q (codes "XX"))) [
      | inl arg ↦ absurd (ok_ne_err (rw arg at h))
      | inr plain ↦
          rw plain
            (Encoded-plain q _ _ (bytes_loop-Encoded f op [] xs ys argi same) (rw plain at h))
    ]
bytes_loop-Encoded (suc f) (q ∷ op) (n ∷ later) xs ys argi same out h =
    elim (Bool-cases (equal q (codes "XX"))) [
      | inl arg ↦ rw arg (
          Encoded-arg xs ys n argi op _ _ same
            (λ op. bytes_loop-Encoded f op later xs ys (argi + 1) same) (rw arg at h))
      | inr plain ↦ rw plain (
          Encoded-plain q _ _ (bytes_loop-Encoded f op (n ∷ later) xs ys argi same) (rw plain at h))
    ]

checked-ok :
    (size : ℕ) (out : List ℕ) {bs : List ℕ}
    → checked size out ≡ ok bs
    → (length out ≡ size) × (all_bytes out ≡ true) × (out ≡ bs)
unfolding checked
checked-ok size out h = ground arith

checked-SameShape :
    {size : ℕ} (out out' : List ℕ)
    → length out ≡ size
    → all_bytes out ≡ true
    → SameShape out out'
    → checked size out' ≡ ok out'
unfolding checked
checked-SameShape {size} out out' h k s =
    let same : (length out' == size) ≡ true = ground (arith, s.size) in rw same (rw (s.is_bytes k))

-- If an entry is encoded with some integers, it is with any others, as many.
pub bytes-ints :
    (asm : List ℕ) (o : Opcode) (xs ys : List ℤ) {out : List ℕ}
    → length xs ≡ length ys
    → bytes (from_opcode asm (ints xs) o) ≡ ok out
    → (out' : List ℕ) × (bytes (from_opcode asm (ints ys) o) ≡ ok out')
      × (length out' ≡ o.size)
      × (all_bytes out' ≡ true)
unfolding bytes from_opcode
bytes-ints asm o xs ys same h =
    let op = split_by (λ c. c == b' ') (codes o.opcode) in
    let (made, looped, h₁) =
      >>=-eq-ok (bytes_loop (length op) op (find_args asm) (ints xs) 0) _ h in
    let (fits, are_bytes, _) = checked-ok o.size made h₁ in
    let e = bytes_loop-Encoded (length op) op (find_args asm) xs ys 0 same made looped in
    (
      e.value,
      rw e.returns (checked-SameShape made e.value fits are_bytes e.shape),
      e.shape.size ∙ fits,
      e.shape.is_bytes are_bytes,
    )
