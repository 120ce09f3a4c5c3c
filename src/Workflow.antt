-- ===== src/Workflow.antt =====
-- The case workflow of internal/service/case_service.go as a system of steps on the tables: what the
-- services may do to a case, seen apart from how they do it.
mod Defs
unfoldable pub use Defs.*
pub mod Row
pub mod History
pub mod Lock
pub mod Lease
pub mod Rules
pub mod Writes
pub mod Review
pub mod Effects
pub mod Bodies
pub mod Compared
pub mod Analysed
pub mod Recovered
pub mod Analyze
pub mod Create
pub mod Calls
pub mod Audited
