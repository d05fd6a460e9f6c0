-- ===== src/RemainingScan/Scanner.antt =====
-- src/merge/remaining_execution.py, `OrderedRemainingExecutionScanner`: its checks.
use sqlite_reconcile.Prelude.{
  String, Bool, false, ◌&&◌, none, some, [], ◌∷◌, if◌then◌else◌, string_eq, nat_eq, contains,
  list_eq, concat,
}
use sqlite_reconcile.Effects.{M, pure, ◌>>=◌, ◌>>◌, undo_on_raise}
use sqlite_reconcile.Models.{
  conflict_kind_eq, ConflictCheckResult, add_conflicts, result_of, all_conflicts, has_conflict,
  has_kind, transaction_label, ConflictKind, LoggedTransaction, ours, theirs, pair_scope,
  write_write, write_read, integrity,
}
use sqlite_reconcile.Database.{rollback_savepoint, fresh_savepoint, Database}
use sqlite_reconcile.Replay.{ReplayContext}
use sqlite_reconcile.Replay.Advance.{advance_transaction_on_main_and_control}
use sqlite_reconcile.RemainingScan.Refine.{check_write_write, check_write_read, ScannerState}

module _ (db : Database) (context : ReplayContext) where
  open db use {State, savepoint, release}

  abbrev pub enabled : ScannerState → ConflictKind → Bool
  enabled scanner kind = contains scanner.enabled_kinds kind

  abbrev pub other_transaction_of :
      ScannerState → LoggedTransaction → LoggedTransaction → LoggedTransaction
  other_transaction_of scanner o t = elim scanner.current_branch [ ours ↦ t | theirs ↦ o ]

  -- `rollback_savepoint(cursor, savepoint); return result`
  abbrev pub taken_back : String → ConflictCheckResult → M State ConflictCheckResult
  taken_back name result = do rollback_savepoint db name; pure result

  abbrev pub released : String → ConflictCheckResult → M State ConflictCheckResult
  released name result = do release name; pure result

  abbrev pub order_label : LoggedTransaction → LoggedTransaction → String
  order_label current other =
      concat (transaction_label current ∷ " before " ∷ transaction_label other ∷ [])

  -- Both states advance by the opposite transaction.
  unfoldable pub advance_checked :
      ScannerState → LoggedTransaction → String → ConflictCheckResult → M State ConflictCheckResult
  unfolding advance_transaction_on_main_and_control rollback_savepoint transaction_label
  advance_checked scanner other name result = do
    advance_result ←
        advance_transaction_on_main_and_control db context scanner.current_transaction other
          (order_label scanner.current_transaction other) pair_scope (enabled scanner integrity)
    (if has_conflict advance_result then taken_back name advance_result else released name result)

  unfoldable pub check_reads :
      ScannerState → LoggedTransaction → String → ConflictCheckResult → M State ConflictCheckResult
  unfolding check_write_read advance_checked rollback_savepoint
  check_reads scanner other name result = do
    read_result ←
        (if enabled scanner write_read
          then check_write_read db context scanner other result
          else pure result)
    (if enabled scanner write_read && has_kind read_result write_read
        then taken_back name read_result
        else if has_conflict read_result
        then taken_back name read_result
        else advance_checked scanner other name read_result)

  -- The body of the `try` of `check_next`.
  unfoldable pub check_body :
      ScannerState
      → LoggedTransaction
      → LoggedTransaction
      → ConflictCheckResult
      → String
      → M State ConflictCheckResult
  unfolding check_write_write check_reads rollback_savepoint
  check_body scanner o t static_result name = do
    write_result ←
        (if enabled scanner write_write
          then check_write_write db context scanner o t static_result
          else pure static_result)
    (if enabled scanner write_write && has_kind write_result write_write
        then taken_back name write_result
        else check_reads scanner (other_transaction_of scanner o t) name write_result)

  unfoldable pub check_next :
      ScannerState
      → LoggedTransaction
      → LoggedTransaction
      → ConflictCheckResult
      → M State ConflictCheckResult
  unfolding check_body rollback_savepoint
  check_next scanner o t static_result = do
    name ← fresh_savepoint db "sqlite_merge_remaining_next_"
    (savepoint name
        >> undo_on_raise (check_body scanner o t static_result name) (rollback_savepoint db name))

  -- The body of the `try` of `accept_next`.
  unfoldable pub accept_next_body :
      ScannerState → LoggedTransaction → ConflictCheckResult → String → M State ConflictCheckResult
  unfolding advance_transaction_on_main_and_control rollback_savepoint transaction_label
  accept_next_body scanner other accepted_result name = do
    result ←
        advance_transaction_on_main_and_control db context scanner.current_transaction other
          (order_label scanner.current_transaction other) pair_scope false
    (if has_conflict result
        then taken_back name (add_conflicts accepted_result (all_conflicts result))
        else released name (result_of []))

  unfoldable pub accept_next :
      ScannerState → LoggedTransaction → ConflictCheckResult → M State ConflictCheckResult
  unfolding accept_next_body rollback_savepoint
  accept_next scanner other accepted_result = do
    name ← fresh_savepoint db "sqlite_merge_remaining_accept_"
    (savepoint name
        >> undo_on_raise (accept_next_body scanner other accepted_result name)
            (rollback_savepoint db name))

  unfoldable pub close : ScannerState → M State ScannerState
  unfolding rollback_savepoint
  close scanner = elim scanner.open_savepoint [
    | none ↦ pure scanner
    | some name ↦ (do rollback_savepoint db name; pure (record scanner { open_savepoint = none }))
  ]
