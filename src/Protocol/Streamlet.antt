-- ===== src/Protocol/Streamlet.antt =====
-- protocol/streamlet.go: the Streamlet protocol.
mod Defs
mod Rules
mod Handlers
pub mod Levels
pub mod Commits
pub mod Proposals
unfoldable pub use Defs.*
unfoldable pub use Rules.*
unfoldable pub use Handlers.*
