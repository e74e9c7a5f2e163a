-- ===== src/Protocol.antt =====
-- protocol/: the consensus protocols of a replica.
pub mod Common
pub mod Exclusive
pub mod Accounted
pub mod Agreement
pub mod Safety
pub mod Banyan
pub mod Icc
pub mod Views
pub mod HotStuff
pub mod Streamlet
pub mod ViewSafety
