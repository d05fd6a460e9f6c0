-- ===== src/Replay/Accept.antt =====
-- src/merge/accepted_replay.py: the replay of an accepted transaction on the working databases, and
-- its entry in the replayed log.
use sqlite_reconcile.Prelude.{
  ℕ, String, false, Option, none, some, List, [], ◌∷◌, if◌then◌else◌, string_eq, nat_eq, list_eq,
}
use sqlite_reconcile.Effects.{M, pure, raise, ◌>>=◌, ◌>>◌, except_sqlite, uncaught, index_error}
use sqlite_reconcile.Models.{
  conflict_kind_eq, branch_scope, ConflictCheckResult, all_conflicts, has_conflict,
  transaction_label, LoggedStatement, LoggedTransaction, StatementConflict,
}
use sqlite_reconcile.Database.{rollback_savepoint, fresh_savepoint, LogRow, Database}
use sqlite_reconcile.Replay.{sqlite_exception_conflict, clean_control_conflict, ReplayContext}
use sqlite_reconcile.Replay.Advance.{advance_transaction_on_main_and_control}

abbrev pub log_row : ℕ → LoggedStatement → LogRow
log_row transaction_id s = record {
  transaction_id = transaction_id;
  original_sql_text = s.original_sql_text;
  to_replay_sql_text = s.to_replay_sql_text;
  is_replay_safe = if s.is_replay_safe then 1 else 0;
  replay_block_reason = s.replay_block_reason;
}

module _ (db : Database) where
  open db use {State, savepoint, release, insert_transaction_row, insert_log_row}

  -- `con.executemany` runs the INSERT for each row in turn.
  unfoldable pub insert_log_rows : ℕ → List LoggedStatement → M State (Unit {0})
  insert_log_rows transaction_id [] = pure tt
  insert_log_rows transaction_id (s ∷ statements) =
      insert_log_row (log_row transaction_id s) >> insert_log_rows transaction_id statements

  -- `_append_replayed_log`
  unfoldable pub append_replayed_log : List LoggedStatement → M State (Unit {0})
  unfolding insert_log_rows
  append_replayed_log statements = do
    transaction_id ← insert_transaction_row
    insert_log_rows transaction_id statements

  module _ (context : ReplayContext) where
    -- A conflict: the replay is taken back, and its message shows no control schema.
    unfoldable pub refuse : ConflictCheckResult → String → M State (Option StatementConflict)
    unfolding rollback_savepoint clean_control_conflict
    refuse result name = do
      rollback_savepoint db name
      elim (all_conflicts result) [
        | [] ↦ raise (uncaught index_error)
        | conflict ∷ _ ↦ pure (some (clean_control_conflict context conflict))
      ]

    unfoldable pub record_accepted : LoggedTransaction → String → M State (Option StatementConflict)
    record_accepted transaction name = do
      append_replayed_log transaction.statements
      release name
      pure none

    -- The body of the `try` of `apply_accepted_transaction`.
    unfoldable pub accept_body : LoggedTransaction → String → M State (Option StatementConflict)
    unfolding advance_transaction_on_main_and_control refuse record_accepted transaction_label
    accept_body transaction name = do
      result ←
          advance_transaction_on_main_and_control db context transaction transaction
            (transaction_label transaction) (branch_scope transaction.branch) false
      if has_conflict result then refuse result name else record_accepted transaction name

    unfoldable pub apply_accepted_transaction :
        LoggedTransaction → M State (Option StatementConflict)
    unfolding accept_body rollback_savepoint sqlite_exception_conflict
    apply_accepted_transaction transaction = do
      name ← fresh_savepoint db "sqlite_merge_accept_"
      savepoint name
      except_sqlite (accept_body transaction name) (λ is_integrity message. do
        rollback_savepoint db name
        pure (
            some
              (sqlite_exception_conflict is_integrity message (branch_scope transaction.branch))))
