-- ===== src/Fanout.antt =====
-- target/fanout: the target that multiplexes one source to the replication clients.
pub mod Journal
pub mod Target
pub mod Clients
mod Tests
