-- ===== src/StaticAnalysis.antt =====
-- src/merge/static_analysis.py: conflicts found by tables and columns alone.
pub mod Overlaps
pub mod Keys
pub mod Matching
pub mod Kinds
pub mod Symmetric
pub mod Candidates
