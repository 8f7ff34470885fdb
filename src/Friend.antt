-- ===== src/Friend.antt =====
-- The friend service, backend/friendsvr: records and keys, the RocksDB store, and the service
-- above it, with the proofs in the modules below.
pub mod Data
pub mod Keys
pub mod Store
pub mod Service
pub mod Invariant
pub mod History
pub mod Requests
