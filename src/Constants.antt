-- ===== src/Constants.antt =====
-- internal/constants: the case states with their transition table, the event types and the roles.
-- A Go string type with named constants is a data type with one more constructor, for every other
-- string.
mod Case
mod Event
unfoldable pub use Case.*
unfoldable pub use Event.*
