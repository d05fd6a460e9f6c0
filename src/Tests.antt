-- ===== src/Tests.antt =====
-- The theorems at concrete inputs, and the data they are taken at.
pub mod Data
pub mod Merge
pub mod Analysis
pub mod Logs
pub mod Syntax
pub mod Replays
pub mod Scans
pub mod Probed
pub mod Branches
