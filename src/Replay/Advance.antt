-- ===== src/Replay/Advance.antt =====
-- src/merge/accepted_replay.py: a transaction on the main database and the control copy, with the
-- probes that replay a statement without its conflict-resolution syntax.
use sqlite_reconcile.Prelude.{
  String, Bool, true, false, Option, none, some, List, [], ◌∷◌, if◌then◌else◌, string_eq, nat_eq,
  ◌==◌, list_eq, concat,
}
use sqlite_reconcile.Effects.{
  of_result, M, pure, raise, ◌>>=◌, ◌>>◌, try_finally, uncaught, index_error,
}
use sqlite_reconcile.Models.{
  conflict_kind_eq, branch_scope, ConflictCheckResult, statement_label, transaction_label,
  ConflictScope, LoggedStatement, LoggedTransaction, StatementConflict, pair_scope, integrity,
}
use sqlite_reconcile.Database.{rollback_savepoint, fresh_savepoint, Database}
use sqlite_reconcile.Replay.{
  replay_failure_conflict, constraint_resolution_conflict,
  conflict_resolution_already_active_warning, strict_conflict_resolution_statement, result_of_first,
  ReplayContext,
}
use sqlite_reconcile.Replay.Execute.{
  Failure, failure_of, foreign_key_check_error, execute_statement_on_main,
  execute_statement_on_control,
}

abbrev pub last_of : List LoggedStatement → Option LoggedStatement
last_of [] = none
last_of (s ∷ []) = some s
last_of (s ∷ t ∷ rest) = last_of (t ∷ rest)

abbrev pub strict_failure_of : Failure → Failure → Failure
strict_failure_of before none = none
strict_failure_of none (some after) = some after
strict_failure_of (some before) (some after) = if before.kind == integrity then none else some after

-- `_statement_failure` of a branch: the warning, if the strict replay broke a constraint.
abbrev pub active_warning : String → Failure → Option String
active_warning label none = none
active_warning label (some failure) =
    if failure.kind == integrity
    then some (conflict_resolution_already_active_warning label failure.message)
    else none

module _ (db : Database) (context : ReplayContext) where
  open db use {State, savepoint}

  -- `_savepoint_statement_failure`
  unfoldable pub savepoint_statement_failure :
      LoggedStatement → Bool → ConflictScope → String → M State Failure
  unfolding execute_statement_on_main execute_statement_on_control rollback_savepoint
  savepoint_statement_failure statement use_control scope order_label = do
    name ← fresh_savepoint db "sqlite_merge_remaining_stmt_probe_"
    (savepoint name
        >> try_finally
            (if use_control
              then execute_statement_on_control db context statement scope order_label true
              else execute_statement_on_main db context statement scope order_label true)
            (rollback_savepoint db name))

  -- `conflict_resolution_branch_warning`
  unfoldable pub conflict_resolution_branch_warning : LoggedStatement → M State (Option String)
  unfolding savepoint_statement_failure strict_conflict_resolution_statement statement_label
      conflict_resolution_already_active_warning
  conflict_resolution_branch_warning statement = do
    strict_form ← of_result (strict_conflict_resolution_statement context statement)
    elim strict_form [
      | none ↦ pure none
      | some (strict, label) ↦ (do
        failure ←
            savepoint_statement_failure strict false (branch_scope statement.branch)
              (concat ("strict " ∷ statement_label statement ∷ []))
        pure (active_warning label failure))
    ]

  -- `_strict_constraint_resolution_failure`
  unfoldable pub strict_constraint_resolution_failure :
      LoggedTransaction → LoggedStatement → M State Failure
  unfolding savepoint_statement_failure strict_conflict_resolution_statement statement_label
      transaction_label
  strict_constraint_resolution_failure current statement = do
    strict_form ← of_result (strict_conflict_resolution_statement context statement)
    elim strict_form [
      | none ↦ pure none
      | some (strict, label) ↦ (do
        before ←
            savepoint_statement_failure strict false pair_scope
              (concat ("strict " ∷ statement_label statement ∷ " before current" ∷ []))
        after ←
            savepoint_statement_failure strict true pair_scope (
              concat (transaction_label current ∷ " then strict " ∷ statement_label statement ∷ []))
        pure (strict_failure_of before after))
    ]

  -- `transaction.statements[-1]` is read only where a check failed.
  unfoldable pub foreign_key_failure :
      LoggedTransaction → ConflictScope → String → Option String → M State Failure
  unfolding foreign_key_check_error
  foreign_key_failure transaction scope order_label schema = do
    error ← foreign_key_check_error db schema
    elim error [
      | none ↦ pure none
      | some message ↦ (elim (last_of transaction.statements) [
        | none ↦ raise (uncaught index_error)
        | some statement ↦ pure (some (failure_of integrity scope message order_label statement))
      ])
    ]

  abbrev pub either_failure : Failure → Failure → Failure
  either_failure (some main) control = some main
  either_failure none control = control

  -- `_transaction_foreign_key_failures`; the caller takes the first.
  unfoldable pub transaction_foreign_key_failure :
      LoggedTransaction → ConflictScope → String → M State Failure
  unfolding foreign_key_failure
  transaction_foreign_key_failure transaction scope order_label = do
    main ← foreign_key_failure transaction scope order_label none
    control ← foreign_key_failure transaction scope order_label context.control_schema
    pure (either_failure main control)

  abbrev pub replay_conflict : Failure → Option StatementConflict
  replay_conflict none = none
  replay_conflict (some failure) = some (replay_failure_conflict failure)

  abbrev pub strict_conflict :
      LoggedTransaction → LoggedTransaction → Failure → Option StatementConflict
  strict_conflict current transaction none = none
  strict_conflict current transaction (some failure) =
      some (constraint_resolution_conflict transaction failure pair_scope (some current))

  abbrev pub or_next :
      Option StatementConflict
      → M State (Option StatementConflict)
      → M State (Option StatementConflict)
  or_next none next = next
  or_next (some conflict) next = pure (some conflict)

  -- One round of the loop of `_advance_transaction_on_main_and_control`.
  unfoldable pub advance_statement :
      LoggedTransaction
      → LoggedTransaction
      → String
      → ConflictScope
      → Bool
      → LoggedStatement
      → M State (Option StatementConflict)
  unfolding strict_constraint_resolution_failure execute_statement_on_control
      execute_statement_on_main replay_failure_conflict constraint_resolution_conflict
  advance_statement current transaction order_label scope check_resolution statement = do
    strict_failure ←
        (if check_resolution
          then strict_constraint_resolution_failure current statement
          else pure none)
    control_failure ← execute_statement_on_control db context statement scope order_label false
    or_next (replay_conflict control_failure) (do
      main_failure ← execute_statement_on_main db context statement scope order_label false
      or_next (replay_conflict main_failure)
          (pure (strict_conflict current transaction strict_failure)))

  unfoldable pub advance_statements :
      LoggedTransaction
      → LoggedTransaction
      → String
      → ConflictScope
      → Bool
      → List LoggedStatement
      → M State (Option StatementConflict)
  unfolding advance_statement transaction_foreign_key_failure
  advance_statements current transaction order_label scope check_resolution [] = do
    failure ← transaction_foreign_key_failure transaction scope order_label
    pure (replay_conflict failure)
  advance_statements current transaction order_label scope check_resolution (s ∷ statements) = do
    conflict ← advance_statement current transaction order_label scope check_resolution s
    or_next conflict
        (advance_statements current transaction order_label scope check_resolution statements)

  -- `_advance_transaction_on_main_and_control`
  unfoldable pub advance_transaction_on_main_and_control :
      LoggedTransaction
      → LoggedTransaction
      → String
      → ConflictScope
      → Bool
      → M State ConflictCheckResult
  unfolding advance_statements
  advance_transaction_on_main_and_control current transaction order_label scope check_resolution =
      do
        conflict ←
            advance_statements current transaction order_label scope check_resolution
              transaction.statements
        pure (result_of_first conflict)
