-- ===== src/Service/Case.antt =====
-- internal/service/case_service.go: the workflow of a localization case.
pub mod Values
pub mod Load
pub mod Review
pub mod Analyze
