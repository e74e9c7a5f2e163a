-- ===== src/Protocol/Icc.antt =====
-- protocol/icc_actually.go: the Icc protocol, one handler for each kind of message.
mod Defs
mod Ship
mod Handlers
pub mod Overlay
pub mod Rules
pub mod Sound
unfoldable pub use Defs.*
unfoldable pub use Ship.*
unfoldable pub use Handlers.*
