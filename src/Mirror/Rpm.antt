-- ===== src/Mirror/Rpm.antt =====
-- mirror/rpm.go: RPM repositories. Each file of the root metadata is the slot of its live, staged and
-- partial copies. File modes are not modelled.
pub mod Publish
pub mod Stage
pub mod Commit
pub mod Select
pub mod Sync
