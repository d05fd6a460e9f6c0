-- ===== src/Replay/Advancing.antt =====
-- Advancing by a transaction leaves the open savepoints as they were.
use sqlite_reconcile.Prelude.{
  ℕ, String, ◌≡◌, refl, ap, Bool, false, Option, none, some, List, [], ◌∷◌, string_eq, nat_eq,
  list_eq,
}
use sqlite_reconcile.Effects.{M, pure, ◌>>=◌, ok, raise, uncaught, index_error}
use sqlite_reconcile.Effects.Contained.{Contained, >>=-Contained}
use sqlite_reconcile.Effects.Keeps.{Keeps, to_Kept, if-Keeps, still, Contained-Keeps, >>=-Keeps}
use sqlite_reconcile.Models.{
  conflict_kind_eq, ConflictScope, LoggedStatement, LoggedTransaction, StatementConflict, integrity,
}
use sqlite_reconcile.Database.{Database}
use sqlite_reconcile.Database.Laws.{SavepointLaws}
use sqlite_reconcile.Database.Savepoints.{snapshot}
use sqlite_reconcile.Replay.{ReplayContext}
use sqlite_reconcile.Replay.Execute.{
  Failure, failure_of, execute_statement_on_main, execute_statement_on_control,
}
use sqlite_reconcile.Replay.Advance.{
  last_of, foreign_key_failure, transaction_foreign_key_failure, replay_conflict, or_next,
  strict_conflict, strict_constraint_resolution_failure, advance_statement, advance_statements,
  advance_transaction_on_main_and_control,
}
use sqlite_reconcile.Replay.Accept.{insert_log_rows, append_replayed_log}
use sqlite_reconcile.Replay.Plain.{PlainReplay, ArePlain}
use sqlite_reconcile.Replay.Traceless.{
  snapshot-saved, foreign_key_check_error-Contained, execute_statement_on_main-Contained,
  execute_statement_on_control-Contained, strict_constraint_resolution_failure-Traceless,
}

module _ (db : Database) (laws : SavepointLaws db) (context : ReplayContext) where
  open laws use {Content, content, saved, IsPlain}

  -- A transaction has a last statement exactly when it has one.
  abbrev pub HasStatement : LoggedTransaction → Type 0
  HasStatement t = (s : LoggedStatement) × (last_of t.statements ≡ some s)

  foreign_key_failure-Contained :
      (t : LoggedTransaction) (scope : ConflictScope) (label : String) (schema : Option String)
      → HasStatement t
      → Contained (snapshot db laws) (foreign_key_failure db context t scope label schema)
  unfolding foreign_key_failure
  foreign_key_failure-Contained t scope label schema (last, h) =
      >>=-Contained (snapshot db laws) _ _ (foreign_key_check_error-Contained db laws schema) told
    where
      told :
          (error : Option String)
          → Contained (snapshot db laws) (elim error as (λ x. M db.State Failure) [
            | none ↦ pure none
            | some message ↦ (elim (last_of t.statements) as (λ x. M db.State Failure) [
              | none ↦ raise (uncaught index_error)
              | some s ↦ pure (some (failure_of integrity scope message label s))
            ])
          ])
      told none = λ x. (refl, tt)
      told (some message) = rw h (λ x. (refl, tt))

  transaction_foreign_key_failure-Contained :
      (t : LoggedTransaction) (scope : ConflictScope) (label : String)
      → HasStatement t
      → Contained (snapshot db laws) (transaction_foreign_key_failure db context t scope label)
  unfolding transaction_foreign_key_failure
  transaction_foreign_key_failure-Contained t scope label h =
      >>=-Contained (snapshot db laws) _ _ (foreign_key_failure-Contained t scope label none h)
        (λ main.
          >>=-Contained (snapshot db laws) _ _
            (foreign_key_failure-Contained t scope label context.control_schema h)
            (λ control x. (refl, tt)))

  or_next-Contained :
      (conflict : Option StatementConflict) (next : M db.State (Option StatementConflict))
      → Contained saved next
      → Contained saved (or_next db context conflict next)
  or_next-Contained none next h = h
  or_next-Contained (some c) next h = λ x. (refl, tt)

  or_next-Keeps :
      (conflict : Option StatementConflict) (next : M db.State (Option StatementConflict))
      → Keeps saved next
      → Keeps saved (or_next db context conflict next)
  or_next-Keeps none next h = h
  or_next-Keeps (some c) next h = still saved _

  -- One statement on control and on main, behind its strict check.
  both_statements-Contained :
      (label : String) (scope : ConflictScope) (s : LoggedStatement)
      (last : Option StatementConflict)
      → PlainReplay db laws context s
      → Contained saved (
          execute_statement_on_control db context s scope label false >>= λ control_failure.
          or_next db context (replay_conflict db context control_failure) (
            execute_statement_on_main db context s scope label false >>= λ main_failure.
            or_next db context (replay_conflict db context main_failure) (pure last)))
  both_statements-Contained label scope s last p =
      >>=-Contained saved _ _
        (execute_statement_on_control-Contained db laws context s scope label false p.0)
        (λ control_failure. or_next-Contained (replay_conflict db context control_failure) _ (
          >>=-Contained saved _ _
            (execute_statement_on_main-Contained db laws context s scope label false p.0)
            (λ main_failure.
              or_next-Contained (replay_conflict db context main_failure) _ (λ x. (refl, tt)))))

  advance_statement-Contained :
      (current t : LoggedTransaction) (label : String) (scope : ConflictScope) (s : LoggedStatement)
      → PlainReplay db laws context s
      → Contained saved (advance_statement db context current t label scope false s)
  unfolding advance_statement
  advance_statement-Contained current t label scope s p =
      >>=-Contained saved (pure {A = Failure} none) _ (λ x. (refl, tt))
        (λ strict_failure.
          both_statements-Contained label scope s
            (strict_conflict db context current t strict_failure) p)

  advance_statement-Keeps :
      (current t : LoggedTransaction) (label : String) (scope : ConflictScope) (check : Bool)
      (s : LoggedStatement)
      → PlainReplay db laws context s
      → Keeps saved (advance_statement db context current t label scope check s)
  unfolding advance_statement
  advance_statement-Keeps current t label scope check s p =
      >>=-Keeps saved _ _
        (if-Keeps saved check (strict_constraint_resolution_failure db context current s)
          (pure none)
          (λ x. to_Kept saved (
            ap (λ v. v.1)
              (strict_constraint_resolution_failure-Traceless db laws context current s p x).0))
          (still saved (ok none)))
        (λ strict_failure. Contained-Keeps saved _ (
          both_statements-Contained label scope s
            (strict_conflict db context current t strict_failure) p))

  foreign_keys-Contained :
      (t : LoggedTransaction) (label : String) (scope : ConflictScope)
      → HasStatement t
      → Contained saved (
          transaction_foreign_key_failure db context t scope label >>= λ failure.
          pure (replay_conflict db context failure))
  foreign_keys-Contained t label scope h =
      >>=-Contained saved _ _
        (snapshot-saved db laws _ (transaction_foreign_key_failure-Contained t scope label h))
        (λ failure x. (refl, tt))

  pub advance_statements-Contained :
      (statements : List LoggedStatement) (current t : LoggedTransaction) (label : String)
      (scope : ConflictScope)
      → HasStatement t
      → ArePlain db laws context statements
      → Contained saved (advance_statements db context current t label scope false statements)
  unfolding advance_statements
  advance_statements-Contained [] current t label scope h p = foreign_keys-Contained t label scope h
  advance_statements-Contained (s ∷ statements) current t label scope h p =
      >>=-Contained saved _ _ (advance_statement-Contained current t label scope s p.0) (λ conflict.
        or_next-Contained conflict _
          (advance_statements-Contained statements current t label scope h p.1))

  advance_statements-Keeps :
      (statements : List LoggedStatement) (current t : LoggedTransaction) (label : String)
      (scope : ConflictScope) (check : Bool)
      → HasStatement t
      → ArePlain db laws context statements
      → Keeps saved (advance_statements db context current t label scope check statements)
  unfolding advance_statements
  advance_statements-Keeps [] current t label scope check h p =
      Contained-Keeps saved _ (foreign_keys-Contained t label scope h)
  advance_statements-Keeps (s ∷ statements) current t label scope check h p =
      >>=-Keeps saved _ _ (advance_statement-Keeps current t label scope check s p.0) (λ conflict.
        or_next-Keeps conflict _
          (advance_statements-Keeps statements current t label scope check h p.1))

  pub advance-Keeps :
      (current t : LoggedTransaction) (label : String) (scope : ConflictScope) (check : Bool)
      → HasStatement t
      → ArePlain db laws context t.statements
      → Keeps saved (advance_transaction_on_main_and_control db context current t label scope check)
  unfolding advance_transaction_on_main_and_control
  advance-Keeps current t label scope check has plain =
      >>=-Keeps saved _ _
        (advance_statements-Keeps t.statements current t label scope check has plain)
        (λ conflict. still saved _)

  insert_log_rows-Contained :
      (id : ℕ) (statements : List LoggedStatement)
      → Contained saved (insert_log_rows db id statements)
  unfolding insert_log_rows
  insert_log_rows-Contained id [] = λ x. (refl, tt)
  insert_log_rows-Contained id (s ∷ statements) =
      >>=-Contained saved _ _ (laws.insert_log_row-saved _)
        (λ _. insert_log_rows-Contained id statements)

  pub append_replayed_log-Contained :
      (statements : List LoggedStatement) → Contained saved (append_replayed_log db statements)
  unfolding append_replayed_log
  append_replayed_log-Contained statements =
      >>=-Contained saved _ _ laws.insert_transaction_row-saved
        (λ id. insert_log_rows-Contained id statements)
