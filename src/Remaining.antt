-- ===== src/Remaining.antt =====
-- src/merge/remaining_metadata.py: counters of what one branch's remaining transactions read and
-- write, and the checks that they make unnecessary.
pub mod Counts
pub mod Index
pub mod Checks
pub mod Counting
pub mod Represents
pub mod Decides
pub mod Fields
pub mod Moves
pub mod Standing
pub mod Queue
pub mod Prefilter
pub mod Plain
pub mod Direct
