-- ===== src/Zxbasm/Opcodes/Distinct.antt =====
-- The codes of the table `Z80SET` of src/zxbasm/z80.py: which instructions share one.
use Prim.Native.String.{String}
use text.Mathlib.Text.{◌==◌}
use text.Mathlib.TextEquality.{eq_iff}
use zxbasic.Prelude.{
  ℕ, zero, suc, ◌<◌, Bool, true, false, not, inl, inr, ◌↔◌, ◌≢◌, ◌&&◌, ◌||◌, List, [], ◌∷◌, some,
  get_elem?, and_parts, some_eq, ◌≡◌, ◌⊎◌, refl, arith,
}
use zxbasic.Zxbasm.Opcodes.Entry.{Opcode}
use zxbasic.Zxbasm.Opcodes.{z80set}
use zxbasic.Zxbasm.Opcodes.PartOne.{part_one}
use zxbasic.Zxbasm.Opcodes.PartTwo.{part_two}
use zxbasic.Zxbasm.Opcodes.PartThree.{part_three}
use zxbasic.Zxbasm.Opcodes.PartFour.{part_four}
use zxbasic.Zxbasm.Opcodes.PartFive.{part_five}
use zxbasic.Zxbasm.Opcodes.PartSix.{part_six}

clash : String → String → Bool
clash a b = (a == "LD IXH,IXH" && b == "LD IYH,IYH") || (a == "LD IXH,IXL" && b == "LD IYH,IYL")

abbrev agrees : Bool → Bool → Bool
agrees true b = b
agrees false b = not b

apart : Opcode → Opcode → Bool
unfolding clash
apart o o' = agrees (o.opcode == o'.opcode) (clash o.key o'.key || clash o'.key o.key)

apart_from : Opcode → List Opcode → Bool
apart_from o [] = true
apart_from o (o' ∷ os) = apart o o' && apart_from o os

all_apart : List Opcode → Bool
all_apart [] = true
all_apart (o ∷ os) = apart_from o os && all_apart os

z80set_apart : all_apart z80set ≡ true
unfolding all_apart apart_from apart z80set part_one part_two part_three part_four part_five
    part_six
z80set_apart = refl

-- The two pairs of keys whose entries share a code, in either order.
abbrev pub Clash : String → String → Type 0
Clash a b = ((a ≡ "LD IXH,IXH") × (b ≡ "LD IYH,IYH")) ⊎ ((a ≡ "LD IXH,IXL") × (b ≡ "LD IYH,IYL"))

clash_iff : (a b : String) → (clash a b ≡ true) ↔ Clash a b
unfolding clash
clash_iff a b = ground (
  arith,
  eq_iff a "LD IXH,IXH",
  eq_iff b "LD IYH,IYH",
  eq_iff a "LD IXH,IXL",
  eq_iff b "LD IYH,IYL",
)

false_ne_true : false ≢ true
false_ne_true e = cc

agreement :
    {P Q R : Type 0} (a b c : Bool)
    → agrees a (b || c) ≡ true
    → (a ≡ true) ↔ P
    → (b ≡ true) ↔ Q
    → (c ≡ true) ↔ R
    → P ↔ (Q ⊎ R)
agreement true true c h p q r = (λ x. inl (q.0 refl), λ y. p.0 refl)
agreement true false true h p q r = (λ x. inr (r.0 refl), λ y. p.0 refl)
agreement true false false h p q r = absurd (false_ne_true h)
agreement false true c h p q r = absurd (false_ne_true h)
agreement false false true h p q r = absurd (false_ne_true h)
agreement false false false h p q r = (
  λ x. absurd (false_ne_true (p.1 x)),
  λ y. elim y [ inl z ↦ absurd (false_ne_true (q.1 z)) | inr z ↦ absurd (false_ne_true (r.1 z)) ],
)

apart-Clash :
    (o o' : Opcode)
    → apart o o' ≡ true
    → (o.opcode ≡ o'.opcode) ↔ (Clash o.key o'.key ⊎ Clash o'.key o.key)
unfolding apart
apart-Clash o o' h =
    agreement (o.opcode == o'.opcode) (clash o.key o'.key) (clash o'.key o.key) h
      (eq_iff o.opcode o'.opcode) (clash_iff o.key o'.key) (clash_iff o'.key o.key)

apart_from-get_elem? :
    (o : Opcode) (os : List Opcode) (j : ℕ) {o' : Opcode}
    → apart_from o os ≡ true
    → get_elem? os j ≡ some o'
    → apart o o' ≡ true
unfolding apart_from
apart_from-get_elem? o [] j h f = cc
apart_from-get_elem? o (x ∷ os) zero h f = rw (← some_eq f) (and_parts (apart o x) _ h).0
apart_from-get_elem? o (x ∷ os) (suc j) h f =
    apart_from-get_elem? o os j (and_parts (apart o x) _ h).1 f

all_apart-get_elem? :
    (os : List Opcode) (i j : ℕ) {o o' : Opcode}
    → all_apart os ≡ true
    → i < j
    → get_elem? os i ≡ some o
    → get_elem? os j ≡ some o'
    → apart o o' ≡ true
unfolding all_apart
all_apart-get_elem? [] i j h l f g = cc
all_apart-get_elem? (x ∷ os) i zero h l f g = absurd (omega arith)
all_apart-get_elem? (x ∷ os) zero (suc j) h l f g =
    rw (← some_eq f) (apart_from-get_elem? x os j (and_parts (apart_from x os) _ h).0 g)
all_apart-get_elem? (x ∷ os) (suc i) (suc j) h l f g =
    all_apart-get_elem? os i j (and_parts (apart_from x os) _ h).1 (omega arith) f g

-- Two entries of the table at different places have the same code exactly if they are LD IXH,IXH and
-- LD IYH,IYH, or LD IXH,IXL and LD IYH,IYL.
pub z80set-Clash :
    (i j : ℕ) (o o' : Opcode)
    → i < j
    → get_elem? z80set i ≡ some o
    → get_elem? z80set j ≡ some o'
    → (o.opcode ≡ o'.opcode) ↔ (Clash o.key o'.key ⊎ Clash o'.key o.key)
z80set-Clash i j o o' l f g = apart-Clash o o' (all_apart-get_elem? z80set i j z80set_apart l f g)
