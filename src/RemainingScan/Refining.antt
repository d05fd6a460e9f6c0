-- ===== src/RemainingScan/Refining.antt =====
-- What the rows make of a static conflict is found without a trace.
use sqlite_reconcile.Prelude.{String, Option, none, some, List, [], ◌∷◌, string_eq, nat_eq, list_eq}
use sqlite_reconcile.Effects.{M, pure, raise, uncaught, index_error}
use sqlite_reconcile.Effects.Keeps.{Keeps, still, >>=-Keeps, if-Keeps}
use sqlite_reconcile.Models.{
  conflict_kind_eq, ConflictCheckResult, replace_kind, LoggedTransaction, write_read,
}
use sqlite_reconcile.Database.{Database}
use sqlite_reconcile.Database.Laws.{SavepointLaws}
use sqlite_reconcile.Database.Savepoints.{snapshot}
use sqlite_reconcile.Replay.{ReplayContext}
use sqlite_reconcile.Replay.Plain.{ArePlain}
use sqlite_reconcile.StaticAnalysis.Overlaps.{write_write_candidate_pairs}
use sqlite_reconcile.RemainingScan.{ProbeTables, write_read_conflict_message}
use sqlite_reconcile.RemainingScan.Reading.{ReadCheck, affected, unaffected, unclear}
use sqlite_reconcile.RemainingScan.Refine.{
  pair_conflict, compare_rows, check_write_write, refined_write_read, check_write_read,
  ScannerState,
}
use sqlite_reconcile.RemainingScan.Scanner.{other_transaction_of}
use sqlite_reconcile.RemainingScan.Overlapping.{find_write_write_overlap-Keeps}
use sqlite_reconcile.RemainingScan.Probing.{rolling_write_read_dependency-Keeps}

module _ (db : Database) (laws : SavepointLaws db) (context : ReplayContext) where
  open laws use {Content, content, saved}

  pub check_write_write-Keeps :
      (scanner : ScannerState) (o t : LoggedTransaction) (result : ConflictCheckResult)
      → ArePlain db laws context (other_transaction_of db context scanner o t).statements
      → Keeps (snapshot db laws) (check_write_write db context scanner o t result)
  unfolding check_write_write
  check_write_write-Keeps scanner o t result p =
      if-Keeps view _ _ _ (still view _)
        (if-Keeps view _ _ _ (compared scanner.current_write_probe_tables) (still view _))
    where
      view : db.State → Content × List (String × Content)
      view = snapshot db laws

      compared :
          (tables : Option ProbeTables)
          → Keeps (snapshot db laws) (
              compare_rows db context scanner o t result
                (write_write_candidate_pairs o.metadata t.metadata)
                tables)
      compared none = still (snapshot db laws) _
      compared (some tables) =
          if-Keeps (snapshot db laws) _ _ _
            (>>=-Keeps (snapshot db laws) _ _
              (find_write_write_overlap-Keeps db laws context
                (record {
                  current_branch = scanner.current_branch;
                  ours_transaction = o;
                  theirs_transaction = t;
                })
                tables (write_write_candidate_pairs o.metadata t.metadata) p)
              (λ overlap. still (snapshot db laws) _))
            (still (snapshot db laws) _)

  refined_write_read-Keeps :
      (writer reader : LoggedTransaction) (result : ConflictCheckResult) (check : ReadCheck)
      → Keeps (snapshot db laws) (refined_write_read db context writer reader result check)
  refined_write_read-Keeps writer reader result (unclear reason) = still (snapshot db laws) _
  refined_write_read-Keeps writer reader result unaffected = still (snapshot db laws) _
  refined_write_read-Keeps writer reader result (affected indexes) =
      told (write_read_conflict_message context writer reader indexes)
    where
      told :
          (message : Option String)
          → Keeps (snapshot db laws) (elim message as (λ x. M db.State ConflictCheckResult) [
            | none ↦ raise (uncaught index_error)
            | some text ↦ pure (replace_kind result write_read (pair_conflict write_read text ∷ []))
          ])
      told none = still (snapshot db laws) _
      told (some text) = still (snapshot db laws) _

  pub check_write_read-Keeps :
      (scanner : ScannerState) (other : LoggedTransaction) (result : ConflictCheckResult)
      → ArePlain db laws context other.statements
      → Keeps (snapshot db laws) (check_write_read db context scanner other result)
  unfolding check_write_read
  check_write_read-Keeps scanner other result p =
      if-Keeps (snapshot db laws) _ _ _ (still (snapshot db laws) _) (
        >>=-Keeps (snapshot db laws) _ _
          (rolling_write_read_dependency-Keeps db laws context scanner.current_transaction other p)
          (λ check. refined_write_read-Keeps scanner.current_transaction other result check))
