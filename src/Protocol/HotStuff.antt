-- ===== src/Protocol/HotStuff.antt =====
-- protocol/hotstuff.go: the HotStuff protocol.
mod Defs
mod Certificates
mod Handlers
pub mod Growth
pub mod Timeouts
pub mod LastVoted
pub mod ThreeChain
unfoldable pub use Defs.*
unfoldable pub use Certificates.*
unfoldable pub use Handlers.*
