-- ===== src/RemainingScan/Trace.antt =====
-- A whole scan leaves no trace.
use sqlite_reconcile.Prelude.{
  ℕ, suc, String, ◌≡◌, refl, sym, ap, ◌∙◌, true, Option, none, some, List, [], ◌∷◌, string_eq,
  nat_eq, list_eq,
}
use sqlite_reconcile.Effects.{
  M, pure, continue_with, ◌>>=◌, ◌>>◌, except_sqlite, Result, ok, raised,
}
use sqlite_reconcile.Effects.Contained.{continue_with-ok}
use sqlite_reconcile.Effects.Keeps.{Keeps, still, >>=-Keeps, except_sqlite-Keeps, if-Keeps, Kept}
use sqlite_reconcile.Metadata.{required_updated_table}
use sqlite_reconcile.Models.{
  conflict_kind_eq, branch_scope, ConflictCheckResult, LoggedStatement, LoggedTransaction,
}
use sqlite_reconcile.Database.{rollback_savepoint, Database}
use sqlite_reconcile.Database.Laws.{SavepointLaws}
use sqlite_reconcile.Database.Savepoints.{rollback_savepoint_lem}
use sqlite_reconcile.Replay.{result_of_first, ReplayContext}
use sqlite_reconcile.Replay.Execute.{Failure}
use sqlite_reconcile.Replay.Advance.{replay_conflict}
use sqlite_reconcile.Replay.Plain.{ArePlain}
use sqlite_reconcile.Replay.Traceless.{fresh_savepoint-Named}
use sqlite_reconcile.Replay.Advancing.{HasStatement}
use sqlite_reconcile.Probes.{temp_probe_result_table_name, create_probe_result_table}
use sqlite_reconcile.RemainingScan.{
  ProbeTables, statement_write_probe_sql, statement_write_probe_table,
}
use sqlite_reconcile.RemainingScan.Refine.{
  record_table, probe_statement, captured_or_next, start_control_from, start, ScannerState,
}
use sqlite_reconcile.RemainingScan.Scanner.{other_transaction_of, check_next, accept_next, close}
use sqlite_reconcile.RemainingScan.Keeps.{on_control-Keeps, temp_name-Keeps, create-Keeps}
use sqlite_reconcile.RemainingScan.Steps.{check_next-Settled, accept_next-Settled}

module _ (db : Database) (laws : SavepointLaws db) (context : ReplayContext) where
  open laws use {Content, content, saved}

  probe_statement-Keeps : (s : LoggedStatement) → Keeps saved (probe_statement db context s)
  unfolding statement_write_probe_table
  probe_statement-Keeps s =
      if-Keeps saved _ _ _ (stored_probe (statement_write_probe_sql context s true)) (still saved _)
    where
      stored_probe :
          (sql : Option String)
          → Keeps saved (elim sql as (λ x. M db.State (Option String)) [
            | none ↦ pure none
            | some text ↦ (do
              table ← temp_probe_result_table_name db context
              except_sqlite
                  (do create_probe_result_table db context table text; pure (some table))
                  (λ is_integrity message. pure none))
          ])
      stored_probe none = still saved _
      stored_probe (some text) = >>=-Keeps saved _ _ (temp_name-Keeps db laws context) (λ table.
          except_sqlite-Keeps saved _ _
            (>>=-Keeps saved _ _ (create-Keeps db laws context table text) (λ _. still saved _))
            (λ i m. still saved _))

  captured_or_next-Keeps :
      (failure : Failure) (tables : ProbeTables) (next : M db.State (Failure × ProbeTables))
      → Keeps saved next
      → Keeps saved (captured_or_next db context failure tables next)
  captured_or_next-Keeps none tables next h = h
  captured_or_next-Keeps (some failure) tables next h = still saved _

  start_control_from-Keeps :
      (statements : List LoggedStatement) (scanner : ScannerState) (tables : ProbeTables)
      (index : ℕ)
      → ArePlain db laws context statements
      → Keeps saved (start_control_from db context scanner tables index statements)
  unfolding start_control_from
  start_control_from-Keeps [] scanner tables index p = still saved _
  start_control_from-Keeps (s ∷ statements) scanner tables index p =
      >>=-Keeps saved _ _ (probe_statement-Keeps s) (λ table.
        >>=-Keeps saved _ _
          (on_control-Keeps db laws context s (branch_scope scanner.current_branch) _ p.0)
          (λ failure. captured_or_next-Keeps failure _ _ (
            start_control_from-Keeps statements scanner
              (record_table tables (required_updated_table s.metadata) index table) (suc index)
              p.1)))

  -- The state behind the start of a scan: its savepoint is the innermost and holds the data from
  -- before, and the scanner knows its name.
  pub record Begun (s : db.State) (scanner : ScannerState) (begun : db.State) : Type 0 where
    pub savepoint_name : String
    pub known : scanner.open_savepoint ≡ some savepoint_name
    pub innermost : saved begun ≡ (savepoint_name, content s) ∷ saved s

  abbrev opened_in : Result (ScannerState × ConflictCheckResult) → Option String
  opened_in (ok found) = found.0.open_savepoint
  opened_in (raised e) = none

  start-Begun :
      (scanner scanner' : ScannerState) (result : ConflictCheckResult) (s begun : db.State)
      → ArePlain db laws context scanner.current_transaction.statements
      → start db context scanner s ≡ (begun, ok (scanner', result))
      → Begun s scanner' begun
  unfolding start
  start-Begun scanner scanner' result s begun plain e =
      let (s', name, drawn, same) =
        fresh_savepoint-Named db laws "sqlite_merge_remaining_scan_" s in
      let opened = laws.savepoint_opens name s' in
      let o : saved (db.savepoint name s').0 ≡ (name, content s) ∷ saved s =
        opened.1 ∙ ap (λ x. (name, x.0) ∷ x.1) same in
      captured name _
        (start_control_from-Keeps scanner.current_transaction.statements scanner [] 0 plain
          (db.savepoint name s').0)
        o (rw (drawn, opened.2) at e)
    where
      captured :
          (name : String) (out : db.State × Result (Failure × ProbeTables)) {open_state : db.State}
          → Kept saved open_state out
          → saved open_state ≡ (name, content s) ∷ saved s
          → continue_with {B = ScannerState × ConflictCheckResult} out (λ found. pure (
            record scanner {
              open_savepoint = some name;
              current_write_probe_tables = some found.1;
            },
            result_of_first (replay_conflict db context found.0),
          ))
            ≡ (begun, ok (scanner', result))
          → Begun s scanner' begun
      captured name (s', ok found) k o e = record {
        savepoint_name = name;
        known = sym (ap (λ x. opened_in x.1) e);
        innermost = ap (λ x. saved x.0) (sym e) ∙ k.same ∙ o;
      }
      captured name (s', raised x) k o e = cc

  -- The steps of a scan from one state of the databases to another, in any order and number: checks
  -- of opposite transactions and steps past accepted pairs, whatever they return or raise.
  pub data ScanSteps (scanner : ScannerState) : db.State → db.State → Type 0 where
    done : {s : db.State} → ScanSteps scanner s s
    check :
        {s end : db.State} (o t : LoggedTransaction) (static : ConflictCheckResult)
        → HasStatement db laws context (other_transaction_of db context scanner o t)
        → ArePlain db laws context (other_transaction_of db context scanner o t).statements
        → ScanSteps scanner (check_next db context scanner o t static s).0 end
        → ScanSteps scanner s end
    accept :
        {s end : db.State} (other : LoggedTransaction) (accepted_result : ConflictCheckResult)
        → HasStatement db laws context other
        → ArePlain db laws context other.statements
        → ScanSteps scanner (accept_next db context scanner other accepted_result s).0 end
        → ScanSteps scanner s end

  steps-saved :
      (scanner : ScannerState) {s end : db.State} → ScanSteps scanner s end → saved end ≡ saved s
  steps-saved scanner done = refl
  steps-saved scanner (check o t static has plain rest) =
      steps-saved scanner rest
      ∙ (check_next-Settled db laws context scanner o t static _ has plain).savepoints_left
  steps-saved scanner (accept other result has plain rest) =
      steps-saved scanner rest
      ∙ (accept_next-Settled db laws context scanner other result _ has plain).savepoints_left

  -- A scan leaves no trace: after its start, any number of checks and steps past accepted pairs
  -- in any order, whatever they returned or raised, and its close, the data of both databases and
  -- the open savepoints are those from before the start, and the close does not fail. The start
  -- has to return, the transactions that are checked have statements, and no statement is a
  -- transaction command or rolls the transaction back; SQLite keeps the documented laws of
  -- savepoints.
  pub close-traceless :
      (scanner scanner' : ScannerState) (result : ConflictCheckResult) (s begun end : db.State)
      → ArePlain db laws context scanner.current_transaction.statements
      → start db context scanner s ≡ (begun, ok (scanner', result))
      → ScanSteps scanner' begun end
      → (content (close db context scanner' end).0 ≡ content s)
        × (saved (close db context scanner' end).0 ≡ saved s)
        × ((close db context scanner' end).1 ≡ ok (record scanner' { open_savepoint = none }))
  unfolding close
  close-traceless scanner scanner' result s begun end plain e steps =
      let b = start-Begun scanner scanner' result s begun plain e in
      let back =
        rollback_savepoint_lem db laws b.savepoint_name (content s) (saved s) end
          (steps-saved scanner' steps ∙ b.innermost) in
      let joined =
        continue_with-ok {B = ScannerState} (rollback_savepoint db b.savepoint_name end)
          (λ _. pure (record scanner' { open_savepoint = none })) tt back.1 in
      rw (b.known, joined) (ap (λ x. x.0) back.0, ap (λ x. x.1) back.0, refl)
