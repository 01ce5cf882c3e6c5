-- ===== src/Fetch.antt =====
-- Package fetch.
pub mod Missing
pub mod LocalPath
pub mod Names
pub mod Prune
pub mod Source
pub mod Mirrors
pub mod Stats
pub mod Download
pub mod Promote
pub mod Jobs
