-- ===== src/ConflictSyntax.antt =====
-- src/sqlite_conflict_resolution.py: what is known of the conflict-resolution syntax of a statement.
pub mod Characters
pub mod Scanner
pub mod Patterns
pub mod Rewrite
pub mod Bounds
pub mod Literals
pub mod Matching
pub mod Restore
use sqlite_reconcile.Prelude.{String, Bool, Option, nat_eq, string_eq, list_eq}

pub data ResolutionTarget : Type 0 where
  insert_target update_target : ResolutionTarget

pub record SqliteConflictResolution : Type 0 where
  pub target : ResolutionTarget
  pub algorithm : String

pub record CompatibleSql : Type 0 where
  pub sql : String
  pub conflict_resolution : Option SqliteConflictResolution
  pub stripped_upsert : Bool

pub record StrictReplayRewrite : Type 0 where
  pub sql : String
  pub label : String
