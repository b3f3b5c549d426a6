-- ===== src/Tests/TemporaryRuns.antt =====
-- src/zxbasm/memory.py: temporary labels at concrete inputs.
use zxbasic.Prelude.Dict.{get}
use zxbasic.Prelude.Int.{pos, negsuc}
use zxbasic.Prelude.Text.{codes, equal}
use zxbasic.Prelude.{ℕ, true, false, List, [], ◌∷◌, Option, none, some, set, ◌≡◌, refl, arith}
use zxbasic.Zxbasm.Expr.{Value, address}
use zxbasic.Zxbasm.Label.{Label, direction}
use zxbasic.Zxbasm.Memory.Declare.{lines_of}
use zxbasic.Zxbasm.Memory.Program.{init}
use zxbasic.Zxbasm.Memory.Store.{Memory}
use zxbasic.Zxbasm.Memory.Temporary.Nearest.{
  resolve_temporary_label-behind, resolve_temporary_label-ahead,
}
use zxbasic.Zxbasm.Memory.Temporary.{declared_on, resolve_temporary_label}

abbrev temporary : List ℕ → ℕ → Option Value → Label
temporary full_name lineno value = record {
  full_name = full_name;
  lineno = lineno;
  value = value;
  local = false;
  namespace = some (codes ".");
  current_namespace = codes ".";
  is_address = true;
}

-- `1:` on the lines 2 and 6, and `2:` on the line 4; `1B` and `1F` on the line 5.
abbrev first : Label
first = temporary (codes "1") 2 (some (address (pos 100)))

abbrev second : Label
second = temporary (codes "1") 6 (some (address (pos 300)))

abbrev other : Label
other = temporary (codes "2") 4 (some (address (pos 200)))

abbrev back : Label
back = temporary (codes "1B") 5 none

abbrev ahead : Label
ahead = temporary (codes "1F") 5 none

abbrev file : List ℕ
file = codes "main.asm"

abbrev memory : Memory
memory = record (init (pos 0)) {
  labels = first ∷ other ∷ second ∷ back ∷ ahead ∷ [];
  tmp_labels_lines = (file, 2 ∷ 4 ∷ 6 ∷ []) ∷ [];
  tmp_labels =
      ((file, 2), (codes "1", 0) ∷ [])
      ∷ ((file, 4), (codes "2", 1) ∷ [])
      ∷ ((file, 6), (codes "1", 2) ∷ [])
      ∷ [];
}

lines_run : lines_of file memory ≡ 2 ∷ 4 ∷ 6 ∷ []
unfolding lines_of get equal
lines_run = refl

back_run : direction back ≡ negsuc 0
unfolding direction
back_run = refl

ahead_run : direction ahead ≡ pos 1
unfolding direction
ahead_run = refl

first_run : declared_on file back memory 2 ≡ some first
unfolding declared_on equal
first_run = refl

second_run : declared_on file ahead memory 6 ≡ some second
unfolding declared_on equal
second_run = refl

other_run : declared_on file back memory 4 ≡ none
unfolding declared_on equal
other_run = refl

resolve_temporary_label-behind_example :
    resolve_temporary_label file 3 memory
    ≡ some (
      tt,
      record memory {
        labels = set memory.labels 3 (record back { value = some (address (pos 100)) });
      },
    )
resolve_temporary_label-behind_example =
    resolve_temporary_label-behind file 3 back first [] (4 ∷ 6 ∷ []) 2 memory refl back_run
      lines_run (omega arith) (omega arith) first_run
      ((λ h. other_run), ((λ h. absurd (omega arith)), tt))

resolve_temporary_label-ahead_example :
    resolve_temporary_label file 4 memory
    ≡ some (
      tt,
      record memory {
        labels = set memory.labels 4 (record ahead { value = some (address (pos 300)) });
      },
    )
resolve_temporary_label-ahead_example =
    resolve_temporary_label-ahead file 4 ahead second (2 ∷ 4 ∷ []) [] 6 memory refl ahead_run
      lines_run (omega arith) (omega arith) second_run
      ((λ h. absurd (omega arith)), ((λ h. absurd (omega arith)), tt))
