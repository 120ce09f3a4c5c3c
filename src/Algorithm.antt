-- ===== src/Algorithm.antt =====
-- internal/algorithm: the trace processing pipeline and the baseline comparison.
pub mod Median
pub mod Denoise
pub mod Distance
pub mod Detect
pub mod Compare
