-- ===== src/Backend/Bits16/Sums.antt =====
-- src/arch/z80/backend/_16bit.py: `add16` and `sub16` push the sum and the difference of a word.
use mathlib.Core.Path.{subst}
use zxbasic.Prelude.{
  ℕ, zero, suc, ◌+◌, ◌-◌, ◌*◌, ◌/◌, ◌%◌, ◌<◌, ◌≡◌, refl, sym, ◌==◌, ltb, List, [], ◌∷◌, ◌++◌,
  Option, none, some, arith, append_assoc, inl, inr, replicate,
}
use zxbasic.Prelude.Int.{ℤ}
use zxbasic.Backend.Machine.{
  de, hl, ld_number, inc_word, dec_word, add_hl, plain, Platform, Cpu, Line, exec, flags, join,
  next, minus_one,
}
use zxbasic.Backend.Operand.{Operand, is_int, is_global}
use zxbasic.Backend.Operand.Meaning.{Stack, Sound, Runs}
use zxbasic.Backend.Operand.Pushes.{if_elim}
use zxbasic.Backend.Bits16.{int16, push_hl, get_oper16, get_opers16, get_opers16_reversed}
use zxbasic.Backend.Bits8.Arithmetic.{int_ops}
use zxbasic.Backend.Bits8.Arithmetic.Operands.{int_ops-cases}
use zxbasic.Backend.Bits16.{add_word, add16_ops, add16, sub_word, sub16_ops, sub16, subtract_de}
use zxbasic.Backend.Bits16.Word.{word}
use zxbasic.Backend.Bits16.Given.{
  GivenWords, get_opers16-LoadsPair, get_opers16_reversed-LoadsPair, int-FixedWord,
  GivenWords-second, GivenWords-first, GivenWords-swap,
}
use zxbasic.Backend.Bits16.Pushes.{
  PushesWord, lines-PushesWord, one-PushesWord, pair-PushesWord, word-lt, word_of-lt,
}

-- `inc hl` or `dec hl`, n times
Moves : Platform → List Line → Line → ℕ → ℕ → Cpu → Type 0
Moves p whole line by n s =
    (t : Cpu) × Runs p whole (replicate n line) s t
    × (join (t.h, t.l) ≡ (join (s.h, s.l) + n * by) % 65536)
    × (t.stack ≡ s.stack)
    × (t.memory ≡ s.memory)

inc-Moves :
    (p : Platform)
    → (whole : List Line) → (n : ℕ) → (s : Cpu) → join (s.h, s.l) < 65536
    → Moves p whole (plain (inc_word hl)) 1 n s
unfolding Moves Runs exec
inc-Moves p whole zero s l = (s, λ fuel code. refl, omega arith, refl, refl)
inc-Moves p whole (suc n) s l =
    let up = next (join (s.h, s.l)) in
    let (t, f, hl_t, stack_t, memory_t) =
      inc-Moves p whole n (record s { h = up / 256; l = up % 256 }) (omega arith) in
    (t, λ fuel code. f fuel code, omega arith, stack_t, memory_t)

dec-Moves :
    (p : Platform)
    → (whole : List Line) → (n : ℕ) → (s : Cpu) → join (s.h, s.l) < 65536
    → Moves p whole (plain (dec_word hl)) 65535 n s
unfolding Moves Runs exec
dec-Moves p whole zero s l = (s, λ fuel code. refl, omega arith, refl, refl)
dec-Moves p whole (suc n) s l =
    let down = minus_one (join (s.h, s.l)) in
    let (t, f, hl_t, stack_t, memory_t) =
      dec-Moves p whole n (record s { h = down / 256; l = down % 256 }) (omega arith) in
    (t, λ fuel code. f fuel code, omega arith, stack_t, memory_t)

-- A constant below 65536 is added, in the shortest way.
add_word-PushesWord :
    (p : Platform)
    → (whole : List Line) → (n : ℕ) → (t : Cpu) → join (t.h, t.l) < 65536
    → n < 65536
    → PushesWord p whole (add_word n) t ((join (t.h, t.l) + n) % 65536) t.stack
unfolding add_word Moves exec Runs
add_word-PushesWord p whole n t l k =
    let P : List Line → Type 0 =
      λ code. PushesWord p whole code t ((join (t.h, t.l) + n) % 65536) t.stack in
    if_elim P (n == 0) _ _
      (λ z. lines-PushesWord p whole [] t t (λ fuel code. refl) _ t.stack (ground arith) refl refl)
      (λ z.
        if_elim P (ltb n 4) _ _
          (λ z.
            let (u, f, hl_u, stack_u, memory_u) = inc-Moves p whole n t l in
            lines-PushesWord p whole (replicate n (plain (inc_word hl))) t u f _ t.stack
              (omega arith) stack_u memory_u)
          (λ z.
            if_elim P (ltb 65531 n) _ _
              (λ z.
                let (u, f, hl_u, stack_u, memory_u) = dec-Moves p whole (65536 - n) t l in
                lines-PushesWord p whole (replicate (65536 - n) (plain (dec_word hl))) t u f _
                  t.stack (omega arith) stack_u memory_u)
              (λ z.
                lines-PushesWord p whole (plain (ld_number de n) ∷ plain (add_hl de) ∷ []) t _
                  (λ fuel code. refl) _ t.stack (omega arith) refl refl)))

sub_word-PushesWord :
    (p : Platform)
    → (whole : List Line) → (n : ℕ) → (t : Cpu) → join (t.h, t.l) < 65536
    → n < 65536
    → PushesWord p whole (sub_word n) t ((join (t.h, t.l) + 65536 - n) % 65536) t.stack
unfolding sub_word Moves exec Runs
sub_word-PushesWord p whole n t l k =
    let P : List Line → Type 0 =
      λ code. PushesWord p whole code t ((join (t.h, t.l) + 65536 - n) % 65536) t.stack in
    if_elim P (n == 0) _ _
      (λ z. lines-PushesWord p whole [] t t (λ fuel code. refl) _ t.stack (ground arith) refl refl)
      (λ z.
        if_elim P (ltb n 4) _ _
          (λ z.
            let (u, f, hl_u, stack_u, memory_u) = dec-Moves p whole n t l in
            lines-PushesWord p whole (replicate n (plain (dec_word hl))) t u f _ t.stack
              (omega arith) stack_u memory_u)
          (λ z.
            if_elim P (ltb 65531 n) _ _
              (λ z.
                let (u, f, hl_u, stack_u, memory_u) = inc-Moves p whole (65536 - n) t l in
                lines-PushesWord p whole (replicate (65536 - n) (plain (inc_word hl))) t u f _
                  t.stack (omega arith) stack_u memory_u)
              (λ z.
                lines-PushesWord p whole (plain (ld_number de (65536 - n)) ∷ plain (add_hl de) ∷ [])
                  t _ (λ fuel code. refl) _ t.stack (omega arith) refl refl)))

add_int-PushesWord :
    (p : Platform)
    → (whole : List Line) → (s : Cpu) → Sound p s
    → (op : Operand) → (n : ℤ) → (v k : ℕ) → (rest : Stack)
    → word p s.memory s.stack op ≡ some (v, rest)
    → int16 n ≡ k
    → PushesWord p whole (get_oper16 op ++ add_word (int16 n)) s ((v + k) % 65536) rest
add_int-PushesWord p whole s sound op n v k rest e i =
    let l = word-lt p s sound op v rest e in
    one-PushesWord p whole (add_word (int16 n)) op s v _ rest e (λ t hl_t.
      rw (sym hl_t, sym i) (add_word-PushesWord p whole (int16 n) t (rw hl_t l) (word_of-lt n)))

add16_ops-PushesWord :
    (p : Platform)
    → (whole : List Line) → (s : Cpu) → (op1 op2 : Operand) → (v1 v2 : ℕ) → (rest : Stack)
    → GivenWords p s op1 op2 v1 v2 rest
    → (o : Option (Operand × ℤ)) → int_ops op1 op2 ≡ o
    → PushesWord p whole (add16_ops op1 op2 o) s ((v1 + v2) % 65536) rest
unfolding add16_ops exec Runs
add16_ops-PushesWord p whole s op1 op2 v1 v2 rest g none k =
    if_elim
      (λ (lines : List Line).
        PushesWord p whole (lines ++ plain (add_hl de) ∷ push_hl) s ((v1 + v2) % 65536) rest)
      (is_global op2) _ _
      (λ glob.
        pair-PushesWord p whole (get_opers16 op2 op1) _ s v2 v1 _ rest
          (get_opers16-LoadsPair p whole s op2 op1 v2 v1 rest
            (GivenWords-swap p s op1 op2 v1 v2 rest glob g))
          (λ t hl_t de_t.
            lines-PushesWord p whole (plain (add_hl de) ∷ []) t _ (λ fuel code. refl) _ t.stack
              (omega arith) refl refl))
      (λ glob.
        pair-PushesWord p whole (get_opers16 op1 op2) _ s v1 v2 _ rest
          (get_opers16-LoadsPair p whole s op1 op2 v1 v2 rest g)
          (λ t hl_t de_t.
            lines-PushesWord p whole (plain (add_hl de) ∷ []) t _ (λ fuel code. refl) _ t.stack
              (omega arith) refl refl))
add16_ops-PushesWord p whole s op1 op2 v1 v2 rest g (some (op, n)) k =
    elim (int_ops-cases op1 op2 op n k) [
      | inl (e1, same) ↦
          let (i, e) =
            GivenWords-first p s op1 op2 (int16 n) (int-FixedWord p s.memory op1 n e1) v1 v2 rest
              g in
          subst (λ (x : ℕ). PushesWord p whole (get_oper16 op ++ add_word (int16 n)) s x rest)
            (omega arith) (add_int-PushesWord p whole s g.sound op n v2 v1 rest (rw (sym same) e) i)
      | inr (e2, same) ↦
          let (i, e) =
            GivenWords-second p s op1 op2 (int16 n) (int-FixedWord p s.memory op2 n e2) v1 v2 rest
              g in
          add_int-PushesWord p whole s g.sound op n v1 v2 rest (rw (sym same) e) i
    ]

sub_de-PushesWord :
    (p : Platform)
    → (whole : List Line) → (t : Cpu) → (v1 v2 : ℕ) → join (t.h, t.l) ≡ v1
    → join (t.d, t.e) ≡ v2
    → PushesWord p whole (subtract_de ++ push_hl) t ((v1 + 65536 - v2) % 65536) t.stack
unfolding exec Runs flags
sub_de-PushesWord p whole t v1 v2 hl_t de_t =
    lines-PushesWord p whole subtract_de t _ (λ fuel code. refl) _ t.stack (ground arith) refl refl

sub16_ops-PushesWord :
    (p : Platform)
    → (whole : List Line) → (s : Cpu) → (op1 op2 : Operand) → (v1 v2 : ℕ) → (rest : Stack)
    → GivenWords p s op1 op2 v1 v2 rest
    → (o : Option ℤ) → is_int op2 ≡ o
    → PushesWord p whole (sub16_ops op1 op2 o) s ((v1 + 65536 - v2) % 65536) rest
unfolding sub16_ops
sub16_ops-PushesWord p whole s op1 op2 v1 v2 rest g none k =
    if_elim
      (λ (lines : List Line).
        PushesWord p whole (lines ++ subtract_de ++ push_hl) s ((v1 + 65536 - v2) % 65536) rest)
      (is_global op2) _ _
      (λ glob. rw (append_assoc (get_opers16_reversed op2 op1) subtract_de push_hl) (
        pair-PushesWord p whole (get_opers16_reversed op2 op1) (subtract_de ++ push_hl) s v1 v2 _
          rest
          (get_opers16_reversed-LoadsPair p whole s op2 op1 v2 v1 rest
            (GivenWords-swap p s op1 op2 v1 v2 rest glob g))
          (λ t hl_t de_t. sub_de-PushesWord p whole t v1 v2 hl_t de_t)))
      (λ glob. rw (append_assoc (get_opers16 op1 op2) subtract_de push_hl) (
        pair-PushesWord p whole (get_opers16 op1 op2) (subtract_de ++ push_hl) s v1 v2 _ rest
          (get_opers16-LoadsPair p whole s op1 op2 v1 v2 rest g)
          (λ t hl_t de_t. sub_de-PushesWord p whole t v1 v2 hl_t de_t)))
sub16_ops-PushesWord p whole s op1 op2 v1 v2 rest g (some n) k =
    let (i, e) =
      GivenWords-second p s op1 op2 (int16 n) (int-FixedWord p s.memory op2 n k) v1 v2 rest g in
    let l = word-lt p s g.sound op1 v1 rest e in
    one-PushesWord p whole (sub_word (int16 n)) op1 s v1 _ rest e (λ t hl_t.
      rw (sym hl_t, sym i) (sub_word-PushesWord p whole (int16 n) t (rw hl_t l) (word_of-lt n)))

-- The codes of `add16` and `sub16` run to their ends with no jump, take the two operands (not indirect
-- ones) and push the sum and the difference of their values modulo 65536, whether a constant is added
-- by `inc` and `dec`, or by `add`, or there is none; the memory is as it was.
pub sums16-PushesWord :
    (p : Platform)
    → (s : Cpu) → (op1 op2 : Operand) → (v1 v2 : ℕ) → (rest : Stack)
    → GivenWords p s op1 op2 v1 v2 rest
    → PushesWord p (add16 op1 op2) (add16 op1 op2) s ((v1 + v2) % 65536) rest
      × PushesWord p (sub16 op1 op2) (sub16 op1 op2) s ((v1 + 65536 - v2) % 65536) rest
unfolding add16 sub16
sums16-PushesWord p s op1 op2 v1 v2 rest g = (
  add16_ops-PushesWord p (add16 op1 op2) s op1 op2 v1 v2 rest g (int_ops op1 op2) refl,
  sub16_ops-PushesWord p (sub16 op1 op2) s op1 op2 v1 v2 rest g (is_int op2) refl,
)
