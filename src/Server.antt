-- ===== src/Server.antt =====
-- Package server: the caching mirror.
pub mod Failures
pub mod Schedule
pub mod Classify
pub mod Eviction
pub mod Locks
pub mod Slots
pub mod Upstream
pub mod Protect
pub mod Serve
pub mod Handler
