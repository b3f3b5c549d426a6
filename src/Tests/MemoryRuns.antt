-- ===== src/Tests/MemoryRuns.antt =====
-- src/zxbasm/memory.py: runs, and the theorems at concrete inputs.
use zxbasic.Prelude.Dict.{get, put, text_key}
use zxbasic.Prelude.Int.{pos, negsuc, ◌-ℤ◌}
use zxbasic.Prelude.Text.{codes, equal, split_by}
use zxbasic.Prelude.{ℕ, true, false, List, [], ◌∷◌, Option, none, some, get_elem?, ◌≡◌, refl, arith}
use zxbasic.Zxbasm.Expr.{label, minus, address, returns, try_eval}
use zxbasic.Zxbasm.Label.{
  Globals, Label, id_name, is_decimal, starts_with_digit, normalize_namespace, name,
}
use zxbasic.Zxbasm.Label.Namespace.{IsNormal, normalize_namespace-IsNormal}
use zxbasic.Zxbasm.Memory.Context.{bind_current, define, innermost, set_innermost, set_memory_slot}
use zxbasic.Zxbasm.Memory.Declare.{declare_label, value_or_org}
use zxbasic.Zxbasm.Memory.Keeps.{IsValid, values}
use zxbasic.Zxbasm.Memory.Context.{current}
use zxbasic.Zxbasm.Memory.Declare.Result.{after_definition, label_of}
use zxbasic.Zxbasm.Memory.Lookup.Found.{get_label-declare_label}
use zxbasic.Zxbasm.Memory.Lookup.{find_label, get_label}
use zxbasic.Zxbasm.Memory.Procs.Scoping.{Apart, places, exit_proc-find_label}
use zxbasic.Zxbasm.Memory.Procs.{enter_proc, exit_proc}
use zxbasic.Zxbasm.Memory.Program.{
  init, enter, declare, reference, run, Reach, here, next, Ready, run_total, Reach-try_eval,
}
use zxbasic.Zxbasm.Memory.Store.{
  Scope, M, ◌>>=◌, ◌>>◌, pure, Message, label_already_defined, Memory, create, error, load, store,
}

abbrev globals : Globals
globals = record { namespace = codes "."; filename = codes "main.asm" }

abbrev start : Memory
start = init (pos 32768)

start-IsValid : IsValid start
start-IsValid = record { entered = refl; global_bound = tt; inner_bound = tt }

-- `loop` at the start of the program.
abbrev loop_label : Label
loop_label = record {
  full_name = codes ".loop";
  lineno = 1;
  value = some (address (pos 32768));
  local = false;
  namespace = some (codes ".");
  current_namespace = codes ".";
  is_address = true;
}

abbrev looped : Memory
looped = record start {
  labels = loop_label ∷ [];
  global_labels = (codes ".loop", 0) ∷ [];
  orgs = (pos 32768, []) ∷ [];
  memory_bytes = (pos 32768, pos 0) ∷ [];
}

loop_run : declare_label globals (codes "loop") 1 none false none start ≡ some (tt, looped)
unfolding declare_label normalize_namespace split_by create bind_current set_memory_slot
    set_innermost innermost get put value_or_org equal
loop_run = refl

declare_run : run globals (declare (codes "loop") 1 none false none) start ≡ some (tt, looped)
unfolding run
declare_run = loop_run

loop_is_name : is_decimal (codes "loop") ≡ false
unfolding is_decimal
loop_is_name = refl

loop_names : id_name globals (codes "loop") none ≡ some (codes ".loop", codes ".")
unfolding id_name normalize_namespace split_by
loop_names = refl

declare-Ready : Ready globals (declare (codes "loop") 1 none false none) start
declare-Ready = ((λ e. cc), (λ e. cc (loop_is_name)))

looped-Reach : Reach globals start looped
looped-Reach = next (declare (codes "loop") 1 none false none) here declare-Ready declare_run

run_total_example :
    (u : Memory) × (run globals (reference (codes "loop") 2) looped ≡ some (tt, u)) × IsValid u
run_total_example =
    run_total globals start looped (reference (codes "loop") 2) start-IsValid looped-Reach (λ e. cc)

looped-IsValid : IsValid looped
looped-IsValid = record { entered = refl; global_bound = omega arith; inner_bound = tt }

-- A PROC, with a label of its own.
abbrev entered : Memory
entered = record looped { inner = [] ∷ []; scopes = 2 ∷ [] }

enter_run : run globals (enter 2) looped ≡ some (tt, entered)
unfolding run enter_proc
enter_run = refl

abbrev size_label : Label
size_label = record {
  full_name = codes ".size";
  lineno = 3;
  value = some (address (pos 7));
  local = false;
  namespace = some (codes ".");
  current_namespace = codes ".";
  is_address = false;
}

abbrev sized : Memory
sized = record entered {
  labels = loop_label ∷ size_label ∷ [];
  inner = ((codes ".size", 1) ∷ []) ∷ [];
}

size_run :
    run globals (declare (codes "size") 3 (some (address (pos 7))) false none) entered
    ≡ some (tt, sized)
unfolding run declare_label normalize_namespace split_by create bind_current set_memory_slot
    set_innermost innermost get put value_or_org equal
size_run = refl

size_is_name : is_decimal (codes "size") ≡ false
unfolding is_decimal
size_is_name = refl

sized-Reach : Reach globals looped sized
sized-Reach =
    next (declare (codes "size") 3 (some (address (pos 7))) false none)
      (next (enter 2) here tt enter_run) ((λ e. cc), (λ e. cc (size_is_name))) size_run

minus_loop_run :
    try_eval 2 true (values looped) (minus (label 5 0)) ≡ returns (some (negsuc 32767)) []
unfolding try_eval ◌-ℤ◌
minus_loop_run = refl

Reach-try_eval_example :
    try_eval 2 false (values sized) (minus (label 5 0)) ≡ returns (some (negsuc 32767)) []
Reach-try_eval_example =
    Reach-try_eval globals looped sized true false 2 2 (minus (label 5 0)) (negsuc 32767) []
      looped-IsValid sized-Reach refl (omega arith) minus_loop_run

loop_no_digit : starts_with_digit (codes ".loop") ≡ false
unfolding starts_with_digit
loop_no_digit = refl

get_label-declare_label_example :
    (m' : Memory) × (declare_label globals (codes "loop") 1 none false none start ≡ some (tt, m'))
    × (m'.errors ≡ after_definition (label_of (get (current start) (codes ".loop")) start) 1 [])
    × (p : ℕ) × (m'' : Memory) × (l : Label) × (get_label globals (codes "loop") 9 m'
        ≡ some (p, m''))
    × (get_elem? m''.labels p ≡ some l)
    × (l.value ≡ some (value_or_org none (pos 32768)))
    × (l.lineno ≡ 1)
get_label-declare_label_example =
    get_label-declare_label globals (codes "loop") (codes ".loop") (codes ".") 1 9 none false start
      start-IsValid loop_is_name loop_names loop_no_digit

-- The label of the PROC is LOCAL.
abbrev localised : Memory
localised = record sized { labels = loop_label ∷ record size_label { local = true } ∷ [] }

localised-IsValid : IsValid localised
localised-IsValid = record { entered = refl; global_bound = omega arith; inner_bound = omega arith }

localised-Apart : Apart (codes ".size") (places ((codes ".size", 1) ∷ [])) localised
localised-Apart = ((λ l e f. cc), tt)

abbrev outside : Memory
outside = record localised { inner = []; scopes = [] }

exit_run : exit_proc globals 8 localised ≡ some (tt, outside)
unfolding exit_proc load
exit_run = refl

exit_proc-find_label_example :
    (◌≡◌ {A = List Scope} [] [])
    × (◌≡◌ {A = List ℕ} [] [])
    × (find_label [] outside.global_labels (codes ".size")
        ≡ find_label [] localised.global_labels (codes ".size"))
exit_proc-find_label_example =
    exit_proc-find_label globals 8 ((codes ".size", 1) ∷ []) [] 2 [] (codes ".size") localised
      outside localised-IsValid refl refl localised-Apart exit_run refl

-- A label that a PROC refers to and that a PROC within it declares is reported as defined twice.
nested : M (Unit {0})
nested = do
  enter_proc 1
  get_label globals (codes "foo") 2 >>= λ p. pure tt
  enter_proc 3
  declare_label globals (codes "foo") 4 none false none
  exit_proc globals 5
  exit_proc globals 6

errors_of : Option (Unit {0} × Memory) → List Message
errors_of none = []
errors_of (some (u, m)) = m.errors

nested_run : errors_of (nested start) ≡ label_already_defined 2 (codes ".foo") 4 ∷ []
unfolding errors_of nested enter_proc get_label exit_proc declare_label normalize_namespace split_by
    create bind_current set_memory_slot set_innermost innermost get put value_or_org equal
    find_label define load store error name
nested_run = refl

normalize_run : normalize_namespace (codes "..my..namespace.") ≡ codes ".my.namespace"
unfolding normalize_namespace split_by
normalize_run = refl

normalize_namespace-IsNormal_example :
    IsNormal (normalize_namespace (codes "..my..namespace."))
    × (normalize_namespace (normalize_namespace (codes "..my..namespace."))
        ≡ normalize_namespace (codes "..my..namespace."))
normalize_namespace-IsNormal_example = normalize_namespace-IsNormal (codes "..my..namespace.")
