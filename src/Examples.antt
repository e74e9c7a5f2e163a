-- ===== src/Examples.antt =====
-- Concrete runs.
pub mod Setup
pub mod Votes
pub mod Runs
pub mod Agreeing
pub mod AgreeingIcc
pub mod Forests
pub mod Others
pub mod Views
pub mod Streamlets
pub mod Shipping
pub mod Replicas
pub mod Network
pub mod ViewChains
