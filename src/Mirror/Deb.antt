-- ===== src/Mirror/Deb.antt =====
-- mirror/deb.go: apt suites and flat repositories.
pub mod Stage
pub mod Release
pub mod Index
pub mod Jobs
pub mod ByHash
pub mod Sync
