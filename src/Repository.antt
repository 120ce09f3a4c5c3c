-- ===== src/Repository.antt =====
-- internal/repository: the queries on the tables.
pub mod Query
pub mod Listing
pub mod Lists
pub mod Case
pub mod Audit
pub mod Trace
pub mod Event
pub mod Route
pub mod User
