-- ===== src/Forest.antt =====
-- blockchain/leveled_forrest.go and blockchain/vertex.go: the levelled forest of blocks.
-- Containers are shared by pointer between the map by id, the lists by level and the lists of
-- children, so they live in a store, `cells`, and everything else holds their addresses.
-- The forest is generic over the `Vertex` interface, as in the source. `fmt.Errorf` values are
-- constructors of an error type; logging is left out.
mod Defs
mod Prune
mod Verify
mod Iterator
pub mod Invariant
pub mod Lookup
pub mod Listed
pub mod Pruning
pub mod Levels
pub mod Stored
unfoldable pub use Defs.*
unfoldable pub use Prune.*
unfoldable pub use Verify.*
unfoldable pub use Iterator.*
