-- ===== src/RemainingScan/Refine.antt =====
-- src/merge/remaining_execution.py: the scanner's start, and what the rows make of a static conflict.
use sqlite_reconcile.Prelude.{
  ℕ, suc, String, Bool, true, not, ◌||◌, Option, none, some, List, [], ◌∷◌, map, if◌then◌else◌,
  nonempty, all, string_eq, nat_eq, contains, set_update, list_eq, lookup_or, insert, concat,
}
use sqlite_reconcile.Effects.{M, pure, raise, ◌>>=◌, ◌>>◌, uncaught, index_error}
use sqlite_reconcile.Metadata.{is_update_statement, is_delete_statement, required_updated_table}
use sqlite_reconcile.Models.{
  conflict_kind_eq, branch_scope, ConflictCheckResult, has_kind, without_kind, replace_kind,
  transaction_label, BranchName, ConflictKind, LoggedStatement, LoggedTransaction,
  StatementConflict, pair_scope, write_write, write_read,
}
use sqlite_reconcile.Database.{fresh_savepoint, Database}
use sqlite_reconcile.Replay.{result_of_first, ReplayContext}
use sqlite_reconcile.Replay.Execute.{Failure, execute_statement_on_control}
use sqlite_reconcile.Replay.Advance.{replay_conflict}
use sqlite_reconcile.StaticAnalysis.Overlaps.{write_write_candidate_pairs}
use sqlite_reconcile.RemainingScan.{
  ProbeTables, has_cascade_metadata_conflict, current_write_probe_indexes,
  transaction_scoped_statement_label, write_read_conflict_message, current_of,
  statement_write_probe_table,
}
use sqlite_reconcile.RemainingScan.Overlap.{
  find_write_write_overlap, Overlap, no_overlap, not_comparable, overlapping,
}
use sqlite_reconcile.RemainingScan.Reading.{
  rolling_write_read_dependency, ReadCheck, affected, unaffected, unclear,
}

pub record ScannerState : Type 0 where
  pub current_transaction : LoggedTransaction
  pub current_branch : BranchName
  pub enabled_kinds : List ConflictKind
  pub open_savepoint : Option String
  pub current_write_probe_tables : Option ProbeTables

unfoldable pub new_scanner_state : LoggedTransaction → BranchName → List ConflictKind → ScannerState
new_scanner_state current branch kinds = record {
  current_transaction = current;
  current_branch = branch;
  enabled_kinds = kinds;
  open_savepoint = none;
  current_write_probe_tables = none;
}

unfoldable pub enable_kinds : ScannerState → List ConflictKind → ScannerState
enable_kinds scanner kinds = record scanner {
  enabled_kinds = set_update scanner.enabled_kinds kinds;
}

abbrev pub record_table : ProbeTables → String → ℕ → Option String → ProbeTables
record_table tables target index none = tables
record_table tables target index (some table) =
    insert tables target (insert (lookup_or tables target []) index table)

abbrev pub pair_conflict : ConflictKind → String → StatementConflict
pair_conflict kind message = record {
  kind = kind;
  message = message;
  scope = pair_scope;
  details = [];
}

-- Each index has its probe's table.
abbrev pub all_available : List ℕ → List ℕ → Bool
all_available indexes available = all (λ i. contains available i) indexes

module _ (db : Database) (context : ReplayContext) where
  open db use {State, savepoint, release}

  abbrev pub probe_statement : LoggedStatement → M State (Option String)
  probe_statement s =
      if is_update_statement s.metadata || is_delete_statement s.metadata
      then statement_write_probe_table db context s true
      else pure none

  abbrev pub captured_or_next :
      Failure → ProbeTables → M State (Failure × ProbeTables) → M State (Failure × ProbeTables)
  captured_or_next none tables next = next
  captured_or_next (some failure) tables next = pure (some failure, tables)

  -- `_start_control_with_current_write_probes`
  unfoldable pub start_control_from :
      ScannerState → ProbeTables → ℕ → List LoggedStatement → M State (Failure × ProbeTables)
  unfolding statement_write_probe_table execute_statement_on_control transaction_label
  start_control_from scanner tables index [] = pure (none, tables)
  start_control_from scanner tables index (s ∷ statements) = do
    table ← probe_statement s
    let tables' = record_table tables (required_updated_table s.metadata) index table
    failure ←
        execute_statement_on_control db context s (branch_scope scanner.current_branch)
          (concat ("control " ∷ transaction_label scanner.current_transaction ∷ [])) true
    captured_or_next failure tables' (start_control_from scanner tables' (suc index) statements)

  unfoldable pub start : ScannerState → M State (ScannerState × ConflictCheckResult)
  unfolding start_control_from
  start scanner = do
    name ← fresh_savepoint db "sqlite_merge_remaining_scan_"
    savepoint name
    captured ← start_control_from scanner [] 0 scanner.current_transaction.statements
    pure (
      record scanner { open_savepoint = some name; current_write_probe_tables = some captured.1 },
      result_of_first (replay_conflict db context captured.0),
    )

  -- What the comparison of the rows makes of the static result.
  abbrev pub refined_write_write :
      LoggedTransaction → LoggedTransaction → ConflictCheckResult → Overlap → ConflictCheckResult
  refined_write_write o t result no_overlap = without_kind result write_write
  refined_write_write o t result not_comparable = result
  refined_write_write o t result (overlapping first second) = replace_kind result write_write (
      pair_conflict write_write (
        concat (
          transaction_scoped_statement_label context o first
          ∷ " and "
          ∷ transaction_scoped_statement_label context t second
          ∷ " update/delete overlapping rows"
          ∷ []))
      ∷ [])

  abbrev pub compare_rows :
      ScannerState
      → LoggedTransaction
      → LoggedTransaction
      → ConflictCheckResult
      → List (ℕ × ℕ)
      → Option ProbeTables
      → M State ConflictCheckResult
  compare_rows scanner o t result pairs none = pure result
  compare_rows scanner o t result pairs (some tables) =
      if all_available (map (current_of scanner.current_branch) pairs)
        (current_write_probe_indexes tables)
      then (do
        overlap ←
            find_write_write_overlap db context
              (record {
                current_branch = scanner.current_branch;
                ours_transaction = o;
                theirs_transaction = t;
              })
              tables pairs
        pure (refined_write_write o t result overlap))
      else pure result

  -- `_check_write_write`
  unfoldable pub check_write_write :
      ScannerState
      → LoggedTransaction
      → LoggedTransaction
      → ConflictCheckResult
      → M State ConflictCheckResult
  unfolding has_cascade_metadata_conflict write_write_candidate_pairs without_kind replace_kind
      current_write_probe_indexes find_write_write_overlap transaction_scoped_statement_label
  check_write_write scanner o t result =
      let pairs = write_write_candidate_pairs o.metadata t.metadata in
      if not (has_kind result write_write) || has_cascade_metadata_conflict result write_write
      then pure result
      else if nonempty pairs
      then compare_rows scanner o t result pairs scanner.current_write_probe_tables
      else pure (without_kind result write_write)

  abbrev pub refined_write_read :
      LoggedTransaction
      → LoggedTransaction
      → ConflictCheckResult
      → ReadCheck
      → M State ConflictCheckResult
  refined_write_read writer reader result (unclear reason) = pure result
  refined_write_read writer reader result unaffected = pure (without_kind result write_read)
  refined_write_read writer reader result (affected indexes) =
      elim (write_read_conflict_message context writer reader indexes) [
        | none ↦ raise (uncaught index_error)
        | some message ↦
            pure (replace_kind result write_read (pair_conflict write_read message ∷ []))
      ]

  -- `_check_write_read`
  unfoldable pub check_write_read :
      ScannerState → LoggedTransaction → ConflictCheckResult → M State ConflictCheckResult
  unfolding has_cascade_metadata_conflict without_kind replace_kind rolling_write_read_dependency
      write_read_conflict_message
  check_write_read scanner other result =
      if not (has_kind result write_read) || has_cascade_metadata_conflict result write_read
      then pure result
      else (do
        check ← rolling_write_read_dependency db context scanner.current_transaction other
        refined_write_read scanner.current_transaction other result check)
