-- ===== src/Lib.antt =====
-- The ZX BASIC compiler (boriel-basic/zxbasic, Python): its assembler, its output formats and the
-- code that it generates for operations on bytes and words.
--
-- A program in assembler is read line by line. Each line calls the assembler's memory: PROC and
-- ENDP enter and leave a scope, a label is declared or referred to, an ORG sets the address. A
-- reference may come before the declaration, so the argument of an instruction is an expression
-- over labels, which is evaluated at once if it can be, and otherwise when the program has been
-- read. The bytes of an instruction come from a table of opcodes. An emitter of src/outfmt then
-- writes the bytes to a file: a tape image, or a snapshot of the machine's memory and registers.
--
-- The compiler proper turns a program into quads, and each quad into lines of assembler: an
-- emitter of src/arch/z80/backend fetches the operands into registers, or takes them from the
-- stack, computes in A and pushes the result.
--
-- Prelude: lists, texts, integers and dicts of Python over the native numbers, the Option monad.
--
-- Outfmt, for src/outfmt:
--   Tape for tzx.py and tap.py: the blocks of a tape image with their checksums, and in
--   Tape/Reader an independent reader of such images. Snapshot for gensnapshot.py: the memory with
--   the system variables, the BASIC loader and the program. Rle and Z80 for z80.py: the run-length
--   compression, with an expander after the documented format in Rle/Expand, and the header with
--   its bits in Z80/Header. Sna for sna.py.
--
-- Zxbasm, for src/zxbasm:
--   Opcodes for z80.py, in six parts, one entry for each line. Instruction for asm_instruction.py:
--   `init` and `bytes` are the constructor and the method of AsmInstruction; Instruction/Sharing
--   says which instructions share a code. Expr for expr.py, with the operators of `Expr.funct` on
--   Python's integers in Expr/Operators. Label for label.py and global_.py, with `Memory.id_name`.
--   Asm for the data directives of asm.py and the step of `Memory.dump` that gives them their
--   bytes. Memory for memory.py: Store has the state, the messages and the monad, Context the
--   current scope and `define`, Procs `enter_proc`, `exit_proc` and `set_org`, Declare
--   `declare_label`, Lookup `get_label` and `set_label`, Temporary `resolve_temporary_label`;
--   Program has the calls of asmparse.py as steps. Memory/Keeps has the invariant and the rules
--   for `do` blocks.
--
-- Backend, for src/arch/z80/backend:
--   Machine is the Z80 as far as the generated code uses it: lines of code as data in
--   Machine/Lines, their effects, and `exec`, which runs code with fuel for its jumps. Operand for
--   the operands of a quad: `get_oper` of _8bit.py as fetch_a and fetch_h, in Operand/Meaning the
--   byte that an operand stands for, in FetchA and FetchH that it is fetched, in Pushes and
--   Branches what code leaves behind. Bits8 for the emitters of _8bit.py, one function for each:
--   Arithmetic (SignedQuotients has the routine DIVI8_FAST as its source computes it), Compare,
--   Logic, Shift and Transfer, each with modules for what the emitted code does. Bits16 for the
--   part of _16bit.py that is modelled: Fetch and Given bring words into HL and DE, Sums, Compare
--   and Single say what the code does.
--
-- Tests has runs that can be followed in the source, and the theorems at concrete inputs.
--
-- State is passed explicitly, and none or an outcome of its own stands for an exception. An object
-- that the source shares is its place in a store, so that a label that is defined later is seen by
-- the expressions that hold it. Fuel: `compress` has one more than the bytes it is given, since
-- each round takes one; the encoding of an instruction has as many as the parts of its opcode;
-- `try_eval` takes its fuel as an argument, which bounds the tree and the chain of EQUs, as the
-- stack does, and its theorem holds for all fuel. Generated code needs fuel for its jumps alone,
-- 256 at most, since the counter of a shift's loop is a byte.
--
-- Not modelled: files and the command line; the lexers and parsers; the exit of `error` at the
-- limit of messages and the texts of messages; texts beyond ASCII; an expression that is no
-- integer; the instructions of asm.py other than the data directives, and so the dump of the
-- memory as a whole; the preprocessor, the BASIC front end, the code generator beyond the
-- operations on bytes and those on words above, and the optimisers. A program given as a list with
-- a number above 255 is left out too. The machine's F has the sign, the zero and the carry alone,
-- its stack is apart from its memory, and the addresses of the symbols and the routines of the
-- runtime library (src/lib/arch, in assembler) are parameters; for DIVI8_FAST alone what its
-- source computes is a definition.
pub mod Prelude
pub mod Outfmt
pub mod Zxbasm
pub mod Backend
pub mod Tests
