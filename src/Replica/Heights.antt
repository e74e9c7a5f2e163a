-- ===== src/Replica/Heights.antt =====
-- replica/replica.go: the loops around a protocol by heights.
mod Defs
pub mod Invariant
pub mod Banyan
pub mod Handlers
pub mod Agreement
pub mod IccAgreement
unfoldable pub use Defs.*
