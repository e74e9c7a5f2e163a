-- ===== src/View.antt =====
-- blockchain_view/ and pacemaker/: blocks by view, their votes and quorum certificates, and the
-- timeouts that move a replica to the next view.
mod Votes
mod Chain
mod Timeouts
pub mod Once
pub mod Pacing
pub mod Commit
unfoldable pub use Votes.*
unfoldable pub use Chain.*
unfoldable pub use Timeouts.*
