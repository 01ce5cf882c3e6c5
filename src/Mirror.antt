-- ===== src/Mirror.antt =====
-- Package mirror: the synchronization of repositories.
pub mod Targets
pub mod DiscoverCache
pub mod Discover
pub mod Signatures
pub mod Staging
pub mod Rpm
pub mod Deb
pub mod Control
pub mod RunLock
pub mod Resolve
pub mod Run
pub mod Apk
