-- ===== src/Service.antt =====
-- internal/service: the business rules.
pub mod Errors
pub mod Snapshot
pub mod Document
pub mod Case
pub mod Event
pub mod Auth
pub mod Route
pub mod Trace
pub mod Listing
