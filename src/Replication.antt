-- ===== src/Replication.antt =====
-- The fan-out target and its clients together: service/replication/replication.go, between
-- target/fanout and client/fanout.
pub mod Stream
pub mod Session
pub mod Modes
pub mod Filter
pub mod Slice
pub mod Delivery
pub mod History
pub mod Convergence
pub mod Snapshot
pub mod Joining
pub mod Cold
mod Tests
