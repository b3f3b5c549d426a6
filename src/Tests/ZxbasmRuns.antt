-- ===== src/Tests/ZxbasmRuns.antt =====
-- src/zxbasm: runs, and the theorems at concrete inputs.
use zxbasic.Prelude.{
  ℕ, zero, suc, false, Option, none, true, List, [], ◌∷◌, map, some, length, ◌≡◌, ◌↔◌, ◌⊎◌, refl,
  arith,
}
use zxbasic.Prelude.Int.{pos, negsuc}
use zxbasic.Prelude.Text.{codes, equal, before, upper, split_by}
use zxbasic.Zxbasm.Expr.Operators.{calculate, add, mul}
use zxbasic.Zxbasm.Expr.Stability.{Extends, try_eval_stable}
use zxbasic.Zxbasm.Expr.{
  Expr, label, minus, binary, Value, address, equ, Message, returns, try_eval,
}
use zxbasic.Zxbasm.Opcodes.Entry.{entry}
use zxbasic.Zxbasm.Opcodes.PartFive.{part_five}
use zxbasic.Zxbasm.Opcodes.PartFour.{part_four}
use zxbasic.Zxbasm.Opcodes.PartOne.{part_one}
use zxbasic.Zxbasm.Opcodes.PartSix.{part_six}
use zxbasic.Zxbasm.Opcodes.PartThree.{part_three}
use zxbasic.Zxbasm.Opcodes.PartTwo.{part_two}
use zxbasic.Zxbasm.Opcodes.{z80set, find_opcode}
use zxbasic.Zxbasm.Instruction.{
  AsmInstruction, from_opcode, init, bytes, bytes_loop, num2bytes, argval, arg_at, find_args,
  hex_value, all_bytes,
}
use zxbasic.Zxbasm.Instruction.Encoding.{ints}
use zxbasic.Zxbasm.Instruction.Outcome.{ok}
use zxbasic.Zxbasm.Instruction.Sharing.{SharesCode, init-SharesCode}
use zxbasic.Zxbasm.Instruction.Table.{bytes-init}

abbrev ld_a_n : AsmInstruction
ld_a_n = from_opcode (codes "LD A,N") (ints (negsuc 0 ∷ [])) (entry "LD A,N" "LD A,N" 7 2 "3E XX")

init_run : init (codes "LD A,N;load") (ints (negsuc 0 ∷ [])) ≡ ok ld_a_n
unfolding init find_opcode z80set part_one part_two part_three part_four part_five part_six
    from_opcode before upper equal
init_run = refl

bytes_run : bytes ld_a_n ≡ ok (0x3E ∷ 0xFF ∷ [])
unfolding bytes from_opcode bytes_loop num2bytes argval arg_at find_args hex_value equal split_by
bytes_run = refl

upper_run : map upper (before b';' (codes "LD A,N;load")) ≡ before b';' (codes "LD A,N;load")
unfolding upper before
upper_run = refl

arg_num_run : length (negsuc 0 ∷ []) ≡ ld_a_n.arg_num
unfolding from_opcode find_args split_by equal
arg_num_run = refl

bytes-init_example :
    (out : List ℕ) × (bytes ld_a_n ≡ ok out) × (length out ≡ ld_a_n.size) × (all_bytes out ≡ true)
bytes-init_example =
    bytes-init (codes "LD A,N;load") (negsuc 0 ∷ []) ld_a_n upper_run init_run arg_num_run

abbrev ld_ixh : AsmInstruction
ld_ixh = from_opcode (codes "LD IXH,IXH") [] (entry "LD IXH,IXH" "LD IXH,IXH" 8 2 "DD 64")

abbrev ld_iyh : AsmInstruction
ld_iyh = from_opcode (codes "ld iyh,iyh") [] (entry "LD IYH,IYH" "LD IYH,IYH" 8 2 "DD 64")

ixh_run : init (codes "LD IXH,IXH") [] ≡ ok ld_ixh
unfolding init find_opcode z80set part_one part_two part_three part_four part_five part_six
    from_opcode before upper equal
ixh_run = refl

iyh_run : init (codes "ld iyh,iyh;same") [] ≡ ok ld_iyh
unfolding init find_opcode z80set part_one part_two part_three part_four part_five part_six
    from_opcode before upper equal
iyh_run = refl

init-SharesCode_example : (ld_ixh.opcode ≡ ld_iyh.opcode) ↔ (
    (ld_ixh.mnemo ≡ ld_iyh.mnemo)
    ⊎ (SharesCode ld_ixh.mnemo ld_iyh.mnemo ⊎ SharesCode ld_iyh.mnemo ld_ixh.mnemo))
init-SharesCode_example =
    init-SharesCode (codes "LD IXH,IXH") (codes "ld iyh,iyh;same") [] [] ld_ixh ld_iyh ixh_run
      iyh_run

-- `-(0 * 2) + 1`, over the labels of places 0 and 1, where label 1 is `EQU` an integer; label 2
-- is defined later.
abbrev sum_expr : Expr
sum_expr = binary 7 add (minus (binary 7 mul (label 7 0) (Expr.int (pos 2)))) (label 7 1)

abbrev early : List (Option Value)
early = some (address (pos 100)) ∷ some (equ (Expr.int (pos 5))) ∷ none ∷ []

abbrev later : List (Option Value)
later = some (address (pos 100)) ∷ some (equ (Expr.int (pos 5))) ∷ some (address (pos 9)) ∷ []

early-Extends : Extends early later
early-Extends zero v h = h
early-Extends (suc zero) v h = h
early-Extends (suc (suc zero)) v h = cc
early-Extends (suc (suc (suc l))) v h = cc

sum_expr_run : try_eval 4 true early sum_expr ≡ returns (some (negsuc 194)) []
unfolding try_eval calculate
sum_expr_run = refl

try_eval_stable_example :
    (◌≡◌ {A = List Message} [] [])
    × (try_eval 9 false later sum_expr ≡ returns (some (negsuc 194)) [])
try_eval_stable_example =
    try_eval_stable early later true false 4 9 sum_expr (negsuc 194) [] early-Extends (omega arith)
      sum_expr_run
