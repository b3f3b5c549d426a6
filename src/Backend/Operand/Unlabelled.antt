-- ===== src/Backend/Operand/Unlabelled.antt =====
-- src/arch/z80/backend/_8bit.py: the lines that fetch operands have no labels, so that a jump passes them.
use zxbasic.Prelude.{ℕ, ◌≡◌, refl, ◌∙◌, Bool, true, false, List, ◌++◌, append_assoc}
use zxbasic.Backend.Machine.{Reg16, after_label, Line}
use zxbasic.Backend.Operand.{
  Operand, Base, int, name, is_0, is_id, fetch_a, fetch_h, fetch_name, follow, get_oper, get_opers,
  get_opers_reversed,
}
use zxbasic.Backend.Operand.Pushes.{if_elim}

unfoldable pub Unlabelled : List Line → Type 0
unfolding after_label
Unlabelled lines = (n : ℕ) → (code : List Line) → after_label n (lines ++ code) ≡ after_label n code

Unlabelled-append : (xs ys : List Line) → Unlabelled xs → Unlabelled ys → Unlabelled (xs ++ ys)
unfolding Unlabelled
Unlabelled-append xs ys f g n code = rw (append_assoc xs ys code) (f n (ys ++ code) ∙ g n code)

fetch_a-Unlabelled :
    (idx : Reg16)
    → (indirect immediate : Bool) → (x : Base) → Unlabelled (fetch_a idx indirect immediate x)
unfolding Unlabelled fetch_a
fetch_a-Unlabelled idx true immediate (int n) k code = refl
fetch_a-Unlabelled idx false immediate (int n) k code =
    if_elim (λ (lines : List Line). after_label k (lines ++ code) ≡ after_label k code) (is_0 n) _ _
      (λ e. refl) (λ e. refl)
fetch_a-Unlabelled idx true true (name x) k code = refl
fetch_a-Unlabelled idx false true (name x) k code = refl
fetch_a-Unlabelled idx true false (name x) k code =
    if_elim (λ (lines : List Line). after_label k (lines ++ code) ≡ after_label k code) (is_id x) _
      _ (λ e. refl) (λ e. refl)
fetch_a-Unlabelled idx false false (name x) k code =
    if_elim (λ (lines : List Line). after_label k (lines ++ code) ≡ after_label k code) (is_id x) _
      _ (λ e. refl) (λ e. refl)

follow-Unlabelled : (indirect : Bool) → Unlabelled (follow indirect)
unfolding Unlabelled follow
follow-Unlabelled true k code = refl
follow-Unlabelled false k code = refl

fetch_name-Unlabelled :
    (indirect immediate : Bool) → (x : List ℕ) → Unlabelled (fetch_name indirect immediate x)
unfolding Unlabelled fetch_name
fetch_name-Unlabelled true true x k code = refl
fetch_name-Unlabelled false true x k code = refl
fetch_name-Unlabelled true false x k code =
    if_elim (λ (lines : List Line). after_label k (lines ++ code) ≡ after_label k code) (is_id x) _
      _ (λ e. refl) (λ e. refl)
fetch_name-Unlabelled false false x k code =
    if_elim (λ (lines : List Line). after_label k (lines ++ code) ≡ after_label k code) (is_id x) _
      _ (λ e. refl) (λ e. refl)

fetch_h-Unlabelled :
    (indirect immediate : Bool) → (x : Base) → Unlabelled (fetch_h indirect immediate x)
unfolding fetch_h Unlabelled
fetch_h-Unlabelled true immediate (int n) = λ k code. refl
fetch_h-Unlabelled false immediate (int n) = λ k code. refl
fetch_h-Unlabelled indirect immediate (name x) =
    Unlabelled-append (fetch_name indirect immediate x) (follow indirect)
      (fetch_name-Unlabelled indirect immediate x) (follow-Unlabelled indirect)

pub get_oper-Unlabelled : (op : Operand) → Unlabelled (get_oper op)
unfolding get_oper
get_oper-Unlabelled op = fetch_a-Unlabelled Reg16.hl op.indirect op.immediate op.base

pub get_opers-Unlabelled :
    (op1 op2 : Operand) → Unlabelled (get_opers op1 op2) × Unlabelled (get_opers_reversed op1 op2)
unfolding get_opers get_opers_reversed
get_opers-Unlabelled op1 op2 = (
  Unlabelled-append _ _ (fetch_h-Unlabelled op2.indirect op2.immediate op2.base)
      (fetch_a-Unlabelled Reg16.hl op1.indirect op1.immediate op1.base),
  Unlabelled-append _ _ (fetch_a-Unlabelled Reg16.bc op2.indirect op2.immediate op2.base)
      (fetch_h-Unlabelled op1.indirect op1.immediate op1.base),
)
