-- ===== src/Tests.antt =====
-- Runs of the models at inputs that can be followed in the source, and the theorems at concrete
-- inputs.
pub mod OutfmtRuns
pub mod ZxbasmRuns
pub mod MemoryRuns
pub mod TemporaryRuns
pub mod BackendRuns
pub mod WordRuns
pub mod AsmRuns
