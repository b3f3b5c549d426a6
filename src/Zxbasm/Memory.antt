-- ===== src/Zxbasm/Memory.antt =====
-- src/zxbasm/memory.py: the memory of the assembler, with its labels and their scopes. An object
-- is its place in a store: `labels` has the Label objects in the order of their creation.
pub mod Store
pub mod Context
pub mod Procs
pub mod Declare
pub mod Lookup
pub mod Keeps
pub mod Access
pub mod Bindings
pub mod Program
pub mod Defining
pub mod Temporary
