-- ===== src/Engine.antt =====
-- internal/engine: the trackers and the change buffer that the engine is built on.
pub mod Ack
pub mod Readiness
pub mod Buffer
mod Tests
