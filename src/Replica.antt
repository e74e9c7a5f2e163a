-- ===== src/Replica.antt =====
-- replica/: the loops around the protocols.
mod Defs
pub mod Committed
pub mod Query
pub mod Heights
pub mod Views
unfoldable pub use Defs.*
