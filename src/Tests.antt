-- ===== src/Tests.antt =====
-- Runs of the modelled code, and the theorems at concrete inputs.
mod Fetching
mod Serving
mod Transfers
mod Mirroring
mod Crawling
mod Discovering
mod Publishing
mod Handling
mod Parsing
mod Debian
mod Running
