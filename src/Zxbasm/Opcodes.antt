-- ===== src/Zxbasm/Opcodes.antt =====
-- src/zxbasm/z80.py: the table `Z80SET`, a dictionary in the order of the source.
pub mod Entry
pub mod PartOne
pub mod PartTwo
pub mod PartThree
pub mod PartFour
pub mod PartFive
pub mod PartSix
pub mod Distinct
use zxbasic.Prelude.{List, ◌++◌, [], ◌∷◌, Option, none, some, if◌then◌else◌}
use zxbasic.Prelude.{ℕ}
use zxbasic.Prelude.Text.{codes, equal}
use Entry.{Opcode}
use PartOne.{part_one}
use PartTwo.{part_two}
use PartThree.{part_three}
use PartFour.{part_four}
use PartFive.{part_five}
use PartSix.{part_six}

unfoldable pub z80set : List Opcode
z80set = part_one ++ (part_two ++ (part_three ++ (part_four ++ (part_five ++ part_six))))

-- `Z80SET[mnemo]`
unfoldable pub find_opcode : List ℕ → List Opcode → Option Opcode
find_opcode mnemo [] = none
find_opcode mnemo (o ∷ table) =
    if equal (codes o.key) mnemo then some o else find_opcode mnemo table
