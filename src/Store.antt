-- ===== src/Store.antt =====
-- The database under internal/repository. gorm and the SQL engine are a parameter, `Engine`: a state
-- whose visible content is the tables, statements and transactions that run on it, and `IsSound`,
-- what their documentation says of them. A statement is given by what it does to the tables.
mod Defs
mod Laws
pub mod Memory
pub mod Keeps
pub use Defs.*
pub use Laws.*
