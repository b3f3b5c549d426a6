-- ===== src/Zxbasm/Asm/Resolved.antt =====
-- The two passes over a data directive of src/zxbasm/asm.py: the room that `Memory.add_instruction`
-- takes for it, and the bytes that `Memory.dump` puts there.
use zxbasic.Prelude.{
  ℕ, suc, ◌*◌, ◌≤◌, false, List, [], ◌∷◌, Option, none, some, length, ◌≡◌, refl, sym, ap, ◌∙◌,
  length-replicate, length-map, IsBytes,
}
use zxbasic.Prelude.Int.{ℤ, pos, negsuc, pos_part}
use zxbasic.Zxbasm.Expr.{
  Value, Message, Outcome, returns, raises, recursion_error, gives_float, eval,
}
use zxbasic.Zxbasm.Expr.Stability.{Extends, try_eval_stable}
use zxbasic.Zxbasm.Instruction.Numbers.{residue}
use zxbasic.Zxbasm.Asm.{
  Mnemonic, Asm, Log, Exit, finishes, Term, node, value, defb, defs, defw, times, from_terms,
  of_outcome, empty_space, reserved, bytes, resolve, after,
}
use zxbasic.Zxbasm.Asm.Given.{clean, HasValue, HaveValues, Finishes, argval-Finishes}
use zxbasic.Zxbasm.Asm.Contents.{Encodes, Fits, settled, settled-Gives}

finishes-injective : {A : Type 0} {a b : A} {l m : Log} → finishes a l ≡ finishes b m → a ≡ b
finishes-injective e = cc

values-agree : {v n : ℤ} {ms ns : List Message} → returns (some v) ms ≡ returns (some n) ns → v ≡ n
values-agree e = cc

some-injective : {v n : ℤ} → some v ≡ some n → v ≡ n
some-injective e = cc

length-values :
    (fuel : ℕ) (labels : List (Option Value)) (ts : List Term) (xs : List ℤ)
    → HaveValues fuel labels ts xs
    → length ts ≡ length xs
length-values fuel labels [] [] h = refl
length-values fuel labels [] (x ∷ xs) h = absurd h
length-values fuel labels (t ∷ ts) [] h = absurd h
length-values fuel labels (t ∷ ts) (x ∷ xs) h = ap suc (length-values fuel labels ts xs h.1)

length-times : (num : ℕ) (n : ℤ) → length (times num n) ≡ pos_part n
length-times num (pos n) = length-replicate n num
length-times num (negsuc n) = refl

-- The room of a DEFS, when its count has a value.
outcome-room :
    (o : Outcome) (log later : Log) (room : List ℕ) (n : ℤ)
    → ((v : ℤ) (ms : List Message) → o ≡ returns (some v) ms → v ≡ n)
    → after (of_outcome o log) empty_space ≡ finishes room later
    → length room ≡ pos_part n
outcome-room (returns none ms) log later room n h e = cc
outcome-room (returns (some v) ms) log later room n h e =
    sym (ap length (finishes-injective e)) ∙ length-times 0 v ∙ ap pos_part (h v ms refl)
outcome-room raises log later room n h e = cc
outcome-room recursion_error log later room n h e = cc
outcome-room gives_float log later room n h e = cc

module _ (fuel fuel' : ℕ) (labels later : List (Option Value)) (enough : fuel ≤ fuel')
    (extends : Extends labels later) where
  reserved-room :
      (t : Term) (ts : List Term) (log log' : Log) (room : List ℕ) (n : ℤ)
      → HasValue fuel' later t n
      → reserved fuel labels (t ∷ ts) log ≡ finishes room log'
      → length room ≡ pos_part n
  unfolding eval
  reserved-room (node e) ts log log' room n h r =
      outcome-room (eval fuel labels e) log log' room n
        (λ v ms k.
          let stable =
            try_eval_stable labels later false false fuel fuel' e v ms extends enough k in
          values-agree (sym stable.1 ∙ h))
        r
  reserved-room (value none) ts log log' room n h r = cc
  reserved-room (value (some v)) ts log log' room n h r =
      sym (ap length (finishes-injective r)) ∙ length-times 0 v ∙ ap pos_part (some-injective h)

  bytes-room :
      (lineno : ℕ) (asm : Mnemonic) (ts : List Term) (xs : List ℤ) (log log' : Log)
      (room out : List ℕ)
      → HaveValues fuel' later ts xs
      → bytes fuel labels (from_terms lineno asm ts) log ≡ finishes room log'
      → Encodes asm xs out
      → length room ≡ length out
  unfolding bytes from_terms
  bytes-room lineno defb ts xs log log' room out h r k =
      sym (ap length (finishes-injective r))
      ∙ length-replicate (length ts) 0
      ∙ length-values fuel' later ts xs h
      ∙ sym (ap length k ∙ length-map xs (λ x. residue x 256))
  bytes-room lineno defw ts xs log log' room out h r k =
      sym (ap length (finishes-injective r))
      ∙ length-replicate (2 * length ts) 0
      ∙ ap (λ n. 2 * n) (length-values fuel' later ts xs h)
      ∙ sym k.1
  bytes-room lineno defs ts [] log log' room out h r k = absurd k
  bytes-room lineno defs ts (n ∷ []) log log' room out h r k = absurd k
  bytes-room lineno defs [] (n ∷ x ∷ xs) log log' room out h r k = absurd h
  bytes-room lineno defs (t ∷ ts) (n ∷ x ∷ xs) log log' room out h r k =
      reserved-room t ts log log' room n h.0 r
      ∙ sym (ap length k ∙ length-replicate (pos_part n) (residue x 256))

-- What `dump` makes of a directive that has room: bytes that encode its values and fill the room,
-- and a directive that is no longer pending.
pub record Fills (room : List ℕ) (asm : Mnemonic) (xs : List ℤ) (r : Exit (List ℕ × Asm))
    : Type 0 where
  pub out : List ℕ
  pub resolved : Asm
  pub fills : Finishes (out, resolved) r
  pub done : resolved.pending ≡ false
  pub fits : length out ≡ length room
  pub encodes : Encodes asm xs out
  pub are_bytes : IsBytes out

-- Both passes over DEFB, DEFS or DEFW agree on the room. The first pass, with the labels known
-- then, has finished; after it labels may have got values, the others have kept theirs, and every
-- argument has an integer value, found without an error; a DEFS has a count and a value. Then the
-- second pass raises nothing and logs no error, the bytes that it writes are exactly as many as the
-- first pass took, and they encode the values: their residues modulo 256 (DEFB), their residues
-- modulo 65536 as words with the low byte first (DEFW), or as many times the residue of the value
-- as the count says, none for a negative one (DEFS). The directive is not pending any more.
pub resolve-Fills :
    (fuel fuel' : ℕ) (labels later : List (Option Value)) (lineno : ℕ) (asm : Mnemonic)
    (ts : List Term) (xs : List ℤ) (log log' : Log) (room ws : List ℕ)
    → fuel ≤ fuel'
    → Extends labels later
    → bytes fuel labels (from_terms lineno asm ts) log ≡ finishes room log'
    → HaveValues fuel' later ts xs
    → Fits asm xs
    → Fills room asm xs (resolve fuel' later (from_terms lineno asm ts) (clean ws))
unfolding resolve from_terms
resolve-Fills fuel fuel' labels later lineno asm ts xs log log' room ws enough extends r h f =
    let found = argval-Finishes fuel' later (from_terms lineno asm ts) xs ws h in
    let second = settled-Gives fuel' later lineno (length ts) asm xs found.warnings f in
    let last = second.gives in
    record {
      out = second.out;
      resolved = settled fuel' later lineno (length ts) asm xs;
      fills = record { warnings = last.warnings; run = rw (found.run, last.run) };
      done = refl;
      fits = sym (
          bytes-room fuel fuel' labels later enough extends lineno asm ts xs log log' room
            second.out h r second.encodes);
      encodes = second.encodes;
      are_bytes = second.are_bytes;
    }
