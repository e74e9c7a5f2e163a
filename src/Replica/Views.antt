-- ===== src/Replica/Views.antt =====
-- replica/replica_view.go: the loops around a protocol by views.
mod Defs
pub mod Committed
pub mod Quiet
pub mod Invariant
pub mod HotStuff
unfoldable pub use Defs.*
