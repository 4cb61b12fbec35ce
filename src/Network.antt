-- ===== src/Network.antt =====
-- network/: peers, and what they tell one another.
pub mod ChunkAvailability
pub mod Transfer
pub mod DistfsMetadata
pub mod ConnectionPool
pub mod Service
