-- ===== src/Replay.antt =====
-- src/merge/execution_based_analysis.py and src/merge/accepted_replay.py: what a failed replay is
-- told by, and the context that a replay reads.
pub mod Execute
pub mod Advance
pub mod Accept
pub mod Plain
pub mod Traceless
pub mod Advancing
pub mod Accepted
use sqlite_reconcile.Effects.{Result, ok, raised, uncaught, parse_error}
use sqlite_reconcile.Prelude.{
  ◌+◌, ◌-◌, String, Bool, true, false, Option, none, some, List, [], ◌∷◌, ◌++◌, arith,
  if◌then◌else◌, string_eq, nat_eq, ◌==◌, list_eq, Eq, concat, show_int,
}
use sqlite_reconcile.Metadata.{StatementMetadata}
use sqlite_reconcile.Models.{
  sql_text, conflict_kind_eq, ConflictCheckResult, result_of, transaction_label, ConflictScope,
  ConflictKind, LoggedStatement, LoggedTransaction, StatementConflict, pair_scope, integrity,
  constraint_resolution, replay_error,
}
use sqlite_reconcile.Schema.{ConflictCheckContext}
use sqlite_reconcile.ConflictSyntax.{StrictReplayRewrite}
use sqlite_reconcile.ConflictSyntax.Characters.{CharTables}
use sqlite_reconcile.ConflictSyntax.Rewrite.{strict_conflict_resolution_rewrite}
use sqlite_reconcile.Database.{clean_control_schema_references}

-- `context.control_sql_rewriter`, on a probe's SQL and on a logged statement.
pub record ControlRewriter : Type 0 where
  pub rewrite_sql : String → Option String
  pub rewrite_statement : LoggedStatement → Option String

-- A value of a SET clause or a VALUES row: its SQL, and whether it is or holds a column, a SELECT or
-- a subquery.
pub record RenderedValue : Type 0 where
  pub sql : String
  pub has_read : Bool

-- What an INSERT inserts: rows of values, a query with its SQL, or nothing.
pub data InsertSource : Type 0 where
  values : List (List RenderedValue) → InsertSource
  query : String → InsertSource
  no_source : InsertSource

-- The parts of a statement's tree in SQL: the target's alias or name and its SQL, the FROM, WHERE
-- and WITH clauses, the values assigned with `=`, and what an INSERT inserts. An assignment that is
-- no equation, or has no value, is `none`.
pub record RenderedTree : Type 0 where
  pub qualifier : String
  pub target_sql : String
  pub from_sql : Option String
  pub where_sql : Option String
  pub with_sql : Option String
  pub assignments : List (Option RenderedValue)
  pub insert_source : InsertSource

-- `ConflictCheckContext` as a replay reads it. The caches of rewritten SQL are left out: a cached
-- text is what the rewriter gave.
pub record ReplayContext : Type 0 where
  pub schema : ConflictCheckContext
  pub control_schema : Option String
  pub control_sql_rewriter : Option ControlRewriter
  -- Python's character tables, and `parse_statement_metadata_for_context`, which asks sqlglot;
  -- `none` is its `ParseError`
  pub tables : CharTables
  pub parse_statement_metadata : String → Option StatementMetadata
  -- what sqlglot renders of a statement's tree, and the primary key that the base database tells
  pub render : StatementMetadata → RenderedTree
  pub base_primary_key_columns : String → List String
  -- equality of logged statements as dataclasses, which compares sqlglot's trees
  pub same_statement : LoggedStatement → LoggedStatement → Bool

-- `SQLiteReplayFailure`
pub record SqliteReplayFailure : Type 0 where
  pub kind : ConflictKind
  pub scope : ConflictScope
  pub message : String
  pub order_label : String
  pub statement : Option LoggedStatement

-- `_sqlite_error_conflict_kind`; the flag is `isinstance(error, sqlite3.IntegrityError)`.
abbrev pub sqlite_error_conflict_kind : Bool → ConflictKind
sqlite_error_conflict_kind true = integrity
sqlite_error_conflict_kind false = replay_error

unfoldable pub sqlite_exception_conflict : Bool → String → ConflictScope → StatementConflict
sqlite_exception_conflict is_integrity message scope = record {
  kind = sqlite_error_conflict_kind is_integrity;
  message = message;
  scope = scope;
  details = [];
}

unfoldable pub statement_conflict_details : LoggedStatement → List (String × String)
unfolding show_int
statement_conflict_details s = ("statement_branch_index", show_int s.branch_index) ∷ []

-- `_replay_failure_conflict`
unfoldable pub replay_failure_conflict : SqliteReplayFailure → StatementConflict
unfolding statement_conflict_details
replay_failure_conflict failure = record {
  kind = failure.kind;
  message = concat (failure.order_label ∷ ": " ∷ failure.message ∷ []);
  scope = failure.scope;
  details = elim failure.statement [ none ↦ [] | some s ↦ statement_conflict_details s ];
}

-- `_constraint_resolution_conflict`
unfoldable pub constraint_resolution_conflict :
    LoggedTransaction
    → SqliteReplayFailure
    → ConflictScope
    → Option LoggedTransaction
    → StatementConflict
unfolding transaction_label
constraint_resolution_conflict t failure scope after_transaction =
    let after_text : String = elim after_transaction [
      | some other ↦ concat (" after " ∷ transaction_label other ∷ [])
      | none ↦ " under the current prefix"
    ] in
    if failure.kind == integrity
    then record {
      kind = constraint_resolution;
      message = concat (
          transaction_label t
          ∷ " uses SQLite conflict-resolution syntax; removing it fails"
          ∷ after_text
          ∷ ": "
          ∷ failure.message
          ∷ ". The original SQL succeeds, so this is reviewable rather than a hard replay error."
          ∷ []);
      scope = pair_scope;
      details = [];
    }
    else record {
      kind = failure.kind;
      message = concat ("strict replay probe failed: " ∷ failure.message ∷ []);
      scope = scope;
      details = [];
    }

-- `_conflict_resolution_already_active_warning`
unfoldable pub conflict_resolution_already_active_warning : String → String → String
conflict_resolution_already_active_warning label message = concat (
    "SQLite conflict-resolution syntax is already active here; strict replay without " ∷ label
    ∷ " fails: " ∷ message ∷ [])

-- `_control_sql_for` of a statement, and of a probe's SQL.
unfoldable pub control_sql_for_statement : ReplayContext → LoggedStatement → Option String
control_sql_for_statement context s = elim context.control_sql_rewriter [
  | none ↦ none
  | some rewriter ↦ rewriter.rewrite_statement s
]

unfoldable pub control_sql_for : ReplayContext → String → Option String
control_sql_for context sql = elim context.control_sql_rewriter [
  | none ↦ none
  | some rewriter ↦ rewriter.rewrite_sql sql
]

-- `_clean_control_conflict`
unfoldable pub clean_control_conflict : ReplayContext → StatementConflict → StatementConflict
unfolding clean_control_schema_references
clean_control_conflict context conflict = record conflict {
  message = clean_control_schema_references conflict.message context.control_schema;
}

-- `_clean_control_failure`
unfoldable pub clean_control_failure :
    ReplayContext → Option SqliteReplayFailure → Option SqliteReplayFailure
unfolding clean_control_schema_references
clean_control_failure context none = none
clean_control_failure context (some failure) = some (record failure {
  message = clean_control_schema_references failure.message context.control_schema;
})

abbrev pub strict_rewrite : ReplayContext → LoggedStatement → Option StrictReplayRewrite
strict_rewrite context s =
    if s.metadata.has_reviewable_constraint_resolution
    then strict_conflict_resolution_rewrite context.tables (sql_text s)
    else none

-- `_strict_conflict_resolution_statement`
unfoldable pub strict_conflict_resolution_statement :
    ReplayContext → LoggedStatement → Result (Option (LoggedStatement × String))
unfolding strict_conflict_resolution_rewrite
strict_conflict_resolution_statement context s = elim (strict_rewrite context s) [
  | none ↦ ok none
  | some rewrite ↦ (elim (context.parse_statement_metadata rewrite.sql) [
    | none ↦ raised (uncaught parse_error)
    | some metadata ↦ ok (
        some (
          record s {
            to_replay_sql_text = rewrite.sql;
            metadata = metadata;
            replay_warnings =
                s.replay_warnings ++ concat ("strict replay removed " ∷ rewrite.label ∷ []) ∷ [];
          },
          rewrite.label,
        ))
  ])
]

abbrev pub result_of_first : Option StatementConflict → ConflictCheckResult
result_of_first none = result_of []
result_of_first (some c) = result_of (c ∷ [])
