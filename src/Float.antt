-- ===== src/Float.antt =====
-- Go's `float64`, taken as a parameter: the operations that internal/algorithm and the services
-- apply to it, and the IEEE 754 facts that the theorems rely on.
pub mod Fixed
mod Defs
pub use Defs.*
