-- ===== src/Protocol/Banyan.antt =====
-- protocol/banyan.go: the Banyan protocol, one handler for each kind of message.
mod Defs
mod Ship
mod Handlers
pub mod Rules
pub mod Ending
pub mod InOrder
pub mod Lost
pub mod Exclusive
pub mod Accounted
pub mod Forged
unfoldable pub use Defs.*
unfoldable pub use Ship.*
unfoldable pub use Handlers.*
