-- ===== src/Replay/Execute.antt =====
-- src/merge/accepted_replay.py: one statement on the main database or on the control copy.
use sqlite_reconcile.Prelude.{
  String, Bool, ◌&&◌, Option, none, some, [], ◌∷◌, if◌then◌else◌, string_eq, nat_eq, ◌==◌, list_eq,
  concat, is_substring,
}
use sqlite_reconcile.Effects.{M, pure, ◌>>=◌, ◌>>◌, except_sqlite}
use sqlite_reconcile.Models.{
  sql_text, conflict_kind_eq, ConflictScope, ConflictKind, LoggedStatement, integrity, replay_error,
}
use sqlite_reconcile.Database.{quote_identifier, Database}
use sqlite_reconcile.Replay.{
  sqlite_error_conflict_kind, control_sql_for_statement, clean_control_failure, ReplayContext,
  SqliteReplayFailure,
}

abbrev pub Failure : Type 0
Failure = Option SqliteReplayFailure

abbrev pub failure_of :
    ConflictKind → ConflictScope → String → String → LoggedStatement → SqliteReplayFailure
failure_of kind scope message order_label statement = record {
  kind = kind;
  scope = scope;
  message = message;
  order_label = order_label;
  statement = some statement;
}

unfoldable pub is_unique_constraint_failure : SqliteReplayFailure → Bool
is_unique_constraint_failure failure =
    failure.kind == integrity && is_substring "UNIQUE constraint failed" failure.message

-- What an UPSERT's failure on control is told by.
unfoldable pub upsert_failure : LoggedStatement → Failure → Failure
unfolding is_unique_constraint_failure
upsert_failure statement none = none
upsert_failure statement (some failure) =
    if statement.metadata.compatible_sql.stripped_upsert && is_unique_constraint_failure failure
    then some (record failure {
      message = concat (
          "UPSERT is not fully supported for automatic merge checking; control replay without ON CONFLICT failed: "
          ∷ failure.message ∷ ". Edit or delete the transaction to continue." ∷ []);
    })
    else some failure

module _ (db : Database) where
  open db use {State, execute, fetchone}

  -- execution_based_analysis.py, `_foreign_key_check_error`
  unfoldable pub foreign_key_check_error : Option String → M State (Option String)
  unfolding quote_identifier
  foreign_key_check_error schema = do
    row ← fetchone (elim schema [
      | none ↦ "PRAGMA foreign_key_check"
      | some name ↦ concat ("PRAGMA " ∷ quote_identifier name ∷ ".foreign_key_check" ∷ [])
    ])
    pure (elim row [ none ↦ none | some r ↦ some (concat ("foreign_key_check failed: " ∷ r ∷ [])) ])

  -- `_execute_sql_for_replay`
  unfoldable pub deferred_failure :
      LoggedStatement → ConflictScope → String → Option String → M State Failure
  unfolding foreign_key_check_error
  deferred_failure statement scope order_label schema = do
    deferred_error ← foreign_key_check_error schema
    pure (elim deferred_error [
      | none ↦ none
      | some message ↦ some (failure_of integrity scope message order_label statement)
    ])

  unfoldable pub execute_sql_for_replay :
      LoggedStatement → String → ConflictScope → String → Option String → Bool → M State Failure
  unfolding deferred_failure
  execute_sql_for_replay statement sql scope order_label schema check_deferred = do
    failure ←
        except_sqlite (do execute sql; pure {A = Failure} none)
          (λ is_integrity message. pure (
            some (
              failure_of (sqlite_error_conflict_kind is_integrity) scope message order_label
                statement)))
    elim failure [
      | some f ↦ pure (some f)
      | none ↦
          (if check_deferred
            then deferred_failure statement scope order_label schema
            else pure none)
    ]

  module _ (context : ReplayContext) where
    -- `_execute_statement_on_main`
    unfoldable pub execute_statement_on_main :
        LoggedStatement → ConflictScope → String → Bool → M State Failure
    unfolding execute_sql_for_replay
    execute_statement_on_main statement scope order_label check_deferred =
        execute_sql_for_replay statement (sql_text statement) scope order_label none check_deferred

    -- `_execute_statement_on_control`
    unfoldable pub execute_statement_on_control :
        LoggedStatement → ConflictScope → String → Bool → M State Failure
    unfolding execute_sql_for_replay control_sql_for_statement clean_control_failure upsert_failure
    execute_statement_on_control statement scope order_label check_deferred =
        elim (control_sql_for_statement context statement) [
          | none ↦ pure (
              some (
                failure_of replay_error scope "statement cannot be rewritten for control database"
                  order_label statement))
          | some control_sql ↦ (do
            failure ←
                execute_sql_for_replay statement control_sql scope order_label
                  context.control_schema check_deferred
            pure (upsert_failure statement (clean_control_failure context failure)))
        ]
