-- ===== src/Zxbasm/Instruction/Sharing.antt =====
-- src/zxbasm/asm_instruction.py, src/zxbasm/z80.py: which instructions the constructor gives one code.
use Prim.Native.String.{String}
use text.Mathlib.TextEquality.{Char-path}
use zxbasic.Prelude.{
  ℕ, suc, List, [], ◌∷◌, some, map, get_elem?, Option-cases, Bool-cases, some_eq, ◌≡◌, ◌≢◌, ◌⊎◌,
  ◌↔◌, inl, inr, ◌<◌, ◌==◌, ==_iff, arith, refl, sym, ap, ◌∙◌,
}
use zxbasic.Prelude.Text.{codes, equal, equal_iff, upper, before}
use zxbasic.Zxbasm.Opcodes.Distinct.{Clash, z80set-Clash}
use zxbasic.Zxbasm.Opcodes.Entry.{Opcode}
use zxbasic.Zxbasm.Opcodes.{z80set, find_opcode}
use zxbasic.Zxbasm.Instruction.{AsmInstruction, Arg, from_opcode, init}
use zxbasic.Zxbasm.Instruction.Outcome.{Error, ok, err}

cons_eq : {x y : ℕ} {xs ys : List ℕ} → x ∷ xs ≡ y ∷ ys → (x ≡ y) × (xs ≡ ys)
cons_eq e = (cc, cc)

-- Texts with the same code points are the same.
codes-injective : (s t : String) → codes s ≡ codes t → s ≡ t
codes-injective String.[] String.[] e = refl
codes-injective String.[] (String.◌∷◌ d t) e = cc
codes-injective (String.◌∷◌ c s) String.[] e = cc
codes-injective (String.◌∷◌ c s) (String.◌∷◌ d t) e =
    let (head, tail) = cons_eq e in
    let p : c ≡ d = Char-path c d head in let q : s ≡ t = codes-injective s t tail in rw (p, q)

-- An entry that a lookup finds has its place in the table, and the key that was looked up.
find_opcode-place :
    (mnemo : List ℕ) (table : List Opcode) {o : Opcode}
    → find_opcode mnemo table ≡ some o
    → (k : ℕ) × (get_elem? table k ≡ some o) × (codes o.key ≡ mnemo)
unfolding find_opcode
find_opcode-place mnemo [] f = cc
find_opcode-place mnemo (x ∷ xs) {o} f = elim (Bool-cases (equal (codes x.key) mnemo)) [
  | inl here ↦
      let e : x ≡ o = some_eq (rw here at f) in
      (0, ap some e, ap (λ (z : Opcode). codes z.key) (sym e) ∙ (equal_iff _ _).0 here)
  | inr later ↦ let (k, g, same) = find_opcode-place mnemo xs (rw later at f) in (suc k, g, same)
]

ok_eq {ℓ} : {A : Type ℓ} {a b : A} → ok a ≡ ok b → a ≡ b
ok_eq h = cc

ok_ne_err {ℓ} : {A : Type ℓ} {a : A} {e : Error} → err e ≡ ok a → ⊥
ok_ne_err h = cc

-- What an instruction that the constructor makes has from the table.
record IsEntry (o : Opcode) (k : ℕ) (i : AsmInstruction) : Type 0 where
  place : get_elem? z80set k ≡ some o
  found : find_opcode i.mnemo z80set ≡ some o
  key : codes o.key ≡ i.mnemo
  code_text : i.opcode ≡ codes o.opcode

init-IsEntry :
    (text : List ℕ) (arg : List Arg) (i : AsmInstruction)
    → init text arg ≡ ok i
    → (o : Opcode) × (k : ℕ) × IsEntry o k i
unfolding init from_opcode
init-IsEntry text arg i made =
    elim (Option-cases (find_opcode (map upper (before b';' text)) z80set)) [
      | inl missing ↦ absurd (ok_ne_err (rw missing at made))
      | inr (o, found) ↦
          let (k, place, key) = find_opcode-place _ z80set found in
          let e : from_opcode (before b';' text) arg o ≡ i = ok_eq (rw found at made) in
          let m : map upper (before b';' text) ≡ i.mnemo = ap (λ (j : AsmInstruction). j.mnemo) e in
          (
            o,
            k,
            record {
              place = place;
              found = ap (λ (n : List ℕ). find_opcode n z80set) (sym m) ∙ found;
              key = key ∙ m;
              code_text = sym (ap (λ (j : AsmInstruction). j.opcode) e);
            },
          )
    ]

-- The two pairs of instructions on IXH and IYH that share a code.
abbrev pub SharesCode : List ℕ → List ℕ → Type 0
SharesCode a b =
    ((a ≡ codes "LD IXH,IXH") × (b ≡ codes "LD IYH,IYH"))
    ⊎ ((a ≡ codes "LD IXH,IXL") × (b ≡ codes "LD IYH,IYL"))

shares_iff : (a b : String) → Clash a b ↔ SharesCode (codes a) (codes b)
shares_iff a b = (
  λ x. elim x [
    | inl (p, q) ↦ inl (ap codes p, ap codes q)
    | inr (p, q) ↦ inr (ap codes p, ap codes q)
  ],
  λ y. elim y [
    | inl (p, q) ↦ inl (codes-injective a _ p, codes-injective b _ q)
    | inr (p, q) ↦ inr (codes-injective a _ p, codes-injective b _ q)
  ],
)

abbrev InEitherOrder : List ℕ → List ℕ → Type 0
InEitherOrder a b = SharesCode a b ⊎ SharesCode b a

orders_iff : (a b : String) → (Clash a b ⊎ Clash b a) ↔ InEitherOrder (codes a) (codes b)
orders_iff a b = (
  λ x. elim x [ inl p ↦ inl ((shares_iff a b).0 p) | inr p ↦ inr ((shares_iff b a).0 p) ],
  λ y. elim y [ inl p ↦ inl ((shares_iff a b).1 p) | inr p ↦ inr ((shares_iff b a).1 p) ],
)

either_swap : {A B : Type 0} → A ⊎ B → B ⊎ A
either_swap (inl x) = inr x
either_swap (inr y) = inl y

-- Entries at different places
places-InEitherOrder :
    (k k' : ℕ) (o o' : Opcode)
    → k ≢ k'
    → get_elem? z80set k ≡ some o
    → get_elem? z80set k' ≡ some o'
    → (o.opcode ≡ o'.opcode) ↔ InEitherOrder (codes o.key) (codes o'.key)
places-InEitherOrder k k' o o' ne f g = elim (lt_or_gt k k' ne) [
  | inl lt ↦
      let z = z80set-Clash k k' o o' lt f g in
      let e = orders_iff o.key o'.key in (λ x. e.0 (z.0 x), λ y. z.1 (e.1 y))
  | inr gt ↦
      let z = z80set-Clash k' k o' o gt g f in
      let e = orders_iff o'.key o.key in
      (λ x. either_swap (e.0 (z.0 (sym x))), λ y. sym (z.1 (e.1 (either_swap y))))
]
  where
    lt_or_gt : (a b : ℕ) → a ≢ b → (a < b) ⊎ (b < a)
    lt_or_gt a b h = omega arith

-- The constructor gives two instructions the same code exactly if they are the same instruction, or
-- LD IXH,IXH and LD IYH,IYH, or LD IXH,IXL and LD IYH,IYL, in either order, whatever the case of their
-- letters, their comments and their arguments are: so the code tells the instruction but for these.
pub init-SharesCode :
    (text text' : List ℕ) (arg arg' : List Arg) (i i' : AsmInstruction)
    → init text arg ≡ ok i
    → init text' arg' ≡ ok i'
    → (i.opcode ≡ i'.opcode)
      ↔ ((i.mnemo ≡ i'.mnemo) ⊎ (SharesCode i.mnemo i'.mnemo ⊎ SharesCode i'.mnemo i.mnemo))
init-SharesCode text text' arg arg' i i' made made' =
    let (o, k, e) = init-IsEntry text arg i made in
    let (o', k', e') = init-IsEntry text' arg' i' made' in
    let same_code : i.mnemo ≡ i'.mnemo → i.opcode ≡ i'.opcode = λ m.
      e.code_text
      ∙ ap (λ (z : Opcode). codes z.opcode)
          (some_eq (sym e.found ∙ ap (λ (n : List ℕ). find_opcode n z80set) m ∙ e'.found))
      ∙ sym e'.code_text in
    elim (Bool-cases (k == k')) [
      | inl eq ↦
          let oo : o ≡ o' =
            some_eq (sym e.place ∙ ap (get_elem? z80set) ((==_iff k k').0 eq) ∙ e'.place) in
          let m = sym e.key ∙ ap (λ (z : Opcode). codes z.key) oo ∙ e'.key in
          (λ h. inl m, λ h. same_code m)
      | inr ne ↦
          let different : k ≢ k' = ground arith in
          let both = places-InEitherOrder k k' o o' different e.place e'.place in
          (
            λ h.
                let c = codes-injective _ _ (sym e.code_text ∙ h ∙ e'.code_text) in
                inr (rw (e.key, e'.key) at (both.0 c)),
            λ h. elim h [
              | inl m ↦ same_code m
              | inr x ↦
                  e.code_text
                  ∙ ap codes (both.1 (rw (sym e.key, sym e'.key) at x))
                  ∙ sym e'.code_text
            ],
          )
    ]
