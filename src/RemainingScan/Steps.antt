-- ===== src/RemainingScan/Steps.antt =====
-- A check of the scan either advances both states or leaves everything as it was.
use sqlite_reconcile.Prelude.{
  String, ◌≡◌, refl, ap, ◌∙◌, false, ◌&&◌, List, [], ◌∷◌, if◌then◌else◌, string_eq, nat_eq, list_eq,
}
use sqlite_reconcile.Effects.{M, ◌>>=◌, ◌>>◌, undo_on_raise}
use sqlite_reconcile.Effects.Keeps.{still, if-Keeps}
use sqlite_reconcile.Models.{
  conflict_kind_eq, ConflictCheckResult, add_conflicts, result_of, all_conflicts, has_conflict,
  has_kind, LoggedTransaction, write_write, write_read,
}
use sqlite_reconcile.Database.{rollback_savepoint, fresh_savepoint, Database}
use sqlite_reconcile.Database.Laws.{SavepointLaws}
use sqlite_reconcile.Database.Savepoints.{snapshot}
use sqlite_reconcile.Replay.{ReplayContext}
use sqlite_reconcile.Replay.Plain.{ArePlain}
use sqlite_reconcile.Replay.Traceless.{fresh_savepoint-Named}
use sqlite_reconcile.Replay.Advancing.{HasStatement, advance-Keeps}
use sqlite_reconcile.RemainingScan.Refine.{ScannerState}
use sqlite_reconcile.RemainingScan.Scanner.{
  enabled, other_transaction_of, taken_back, released, advance_checked, check_reads, check_body,
  check_next, accept_next_body, accept_next,
}
use sqlite_reconcile.RemainingScan.Keeps.{snapshot-saved-Keeps}
use sqlite_reconcile.RemainingScan.Refining.{check_write_write-Keeps, check_write_read-Keeps}
use sqlite_reconcile.RemainingScan.Endings.{
  Open, then-BodyEnding, if-BodyEnding, taken_back-BodyEnding, released-BodyEnding, settle, Settled,
  BodyEnding,
}

module _ (db : Database) (laws : SavepointLaws db) (context : ReplayContext) where
  open laws use {Content, content, saved}

  module _ (name : String) (before : Content) (outer : List (String × Content)) where
    advance_checked-BodyEnding :
        (scanner : ScannerState) (other : LoggedTransaction) (result : ConflictCheckResult)
        (s : db.State)
        → HasStatement db laws context other
        → ArePlain db laws context other.statements
        → has_conflict result ≡ false
        → Open db laws context name before outer s
        → BodyEnding db laws context name before outer
            (advance_checked db context scanner other name result s)
    unfolding advance_checked
    advance_checked-BodyEnding scanner other result s has plain quiet o =
        then-BodyEnding db laws context name before outer s _ _ o
          (advance-Keeps db laws context scanner.current_transaction other _ _ _ has plain s)
          (λ advanced s' o'.
            if-BodyEnding db laws context name before outer (has_conflict advanced) _ _ s'
              (λ _. taken_back-BodyEnding db laws context name before outer advanced s' o')
              (λ _. released-BodyEnding db laws context name before outer result s' quiet o'))

    check_reads-BodyEnding :
        (scanner : ScannerState) (other : LoggedTransaction) (result : ConflictCheckResult)
        (s : db.State)
        → HasStatement db laws context other
        → ArePlain db laws context other.statements
        → Open db laws context name before outer s
        → BodyEnding db laws context name before outer
            (check_reads db context scanner other name result s)
    unfolding check_reads
    check_reads-BodyEnding scanner other result s has plain o =
        then-BodyEnding db laws context name before outer s _ _ o
          (snapshot-saved-Keeps db laws context _
            (if-Keeps (snapshot db laws) (enabled db context scanner write_read) _ _
              (check_write_read-Keeps db laws context scanner other result plain)
              (still (snapshot db laws) _))
            s)
          (λ r s' o'.
            if-BodyEnding db laws context name before outer
              (enabled db context scanner write_read && has_kind r write_read) _ _ s'
              (λ _. taken_back-BodyEnding db laws context name before outer r s' o')
              (λ _.
                if-BodyEnding db laws context name before outer (has_conflict r) _ _ s'
                  (λ _. taken_back-BodyEnding db laws context name before outer r s' o')
                  (λ quiet. advance_checked-BodyEnding scanner other r s' has plain quiet o')))

    check_body-BodyEnding :
        (scanner : ScannerState) (o t : LoggedTransaction) (result : ConflictCheckResult)
        (s : db.State)
        → HasStatement db laws context (other_transaction_of db context scanner o t)
        → ArePlain db laws context (other_transaction_of db context scanner o t).statements
        → Open db laws context name before outer s
        → BodyEnding db laws context name before outer
            (check_body db context scanner o t result name s)
    unfolding check_body
    check_body-BodyEnding scanner o t result s has plain opened =
        then-BodyEnding db laws context name before outer s _ _ opened
          (snapshot-saved-Keeps db laws context _
            (if-Keeps (snapshot db laws) (enabled db context scanner write_write) _ _
              (check_write_write-Keeps db laws context scanner o t result plain)
              (still (snapshot db laws) _))
            s)
          (λ r s' o'.
            if-BodyEnding db laws context name before outer
              (enabled db context scanner write_write && has_kind r write_write) _ _ s'
              (λ _. taken_back-BodyEnding db laws context name before outer r s' o')
              (λ _.
                check_reads-BodyEnding scanner (other_transaction_of db context scanner o t) r s'
                  has plain o'))

    quiet_empty : has_conflict (result_of []) ≡ false
    unfolding result_of add_conflicts
    quiet_empty = refl

    accept_next_body-BodyEnding :
        (scanner : ScannerState) (other : LoggedTransaction) (result : ConflictCheckResult)
        (s : db.State)
        → HasStatement db laws context other
        → ArePlain db laws context other.statements
        → Open db laws context name before outer s
        → BodyEnding db laws context name before outer
            (accept_next_body db context scanner other result name s)
    unfolding accept_next_body
    accept_next_body-BodyEnding scanner other result s has plain o =
        then-BodyEnding db laws context name before outer s _
          (λ advanced.
            if has_conflict advanced
            then taken_back db context name (add_conflicts result (all_conflicts advanced))
            else released db context name (result_of []))
          o (advance-Keeps db laws context scanner.current_transaction other _ _ false has plain s)
          (λ advanced s' o'.
            if-BodyEnding db laws context name before outer (has_conflict advanced)
              (taken_back db context name (add_conflicts result (all_conflicts advanced)))
              (released db context name (result_of [])) s'
              (λ _.
                taken_back-BodyEnding db laws context name before outer
                  (add_conflicts result (all_conflicts advanced)) s' o')
              (λ _.
                released-BodyEnding db laws context name before outer (result_of []) s' quiet_empty
                  o'))

  -- From a savepoint of its own, under `try: ... except Exception: rollback; raise`.
  from_savepoint-Settled :
      (prefix : String) (body : String → M db.State ConflictCheckResult) (s : db.State)
      → ((name : String) (begun : db.State)
          → saved begun ≡ (name, content s) ∷ saved s
          → BodyEnding db laws context name (content s) (saved s) (body name begun))
      → Settled db laws context (content s) (saved s) (
          (do
            name ← fresh_savepoint db prefix
            (db.savepoint name >> undo_on_raise (body name) (rollback_savepoint db name)))
            s)
  from_savepoint-Settled prefix body s ends =
      let (s', name, drawn, same) = fresh_savepoint-Named db laws prefix s in
      let opened = laws.savepoint_opens name s' in
      let begun = (db.savepoint name s').0 in
      let o : saved begun ≡ (name, content s) ∷ saved s =
        opened.1 ∙ ap (λ x. (name, x.0) ∷ x.1) same in
      rw (drawn, opened.2) (settle db laws context name (content s) (saved s) _ (ends name begun o))

  -- A check of one opposite transaction closes every savepoint it opens. It leaves the data of
  -- both databases as they were, whether it reports a conflict or raises, unless it returns a
  -- result with no conflict. The opposite transaction has a statement, none of its statements is
  -- a transaction command or rolls the transaction back, and SQLite keeps the documented laws of
  -- savepoints.
  pub check_next-Settled :
      (scanner : ScannerState) (o t : LoggedTransaction) (result : ConflictCheckResult)
      (s : db.State)
      → HasStatement db laws context (other_transaction_of db context scanner o t)
      → ArePlain db laws context (other_transaction_of db context scanner o t).statements
      → Settled db laws context (content s) (saved s) (check_next db context scanner o t result s)
  unfolding check_next
  check_next-Settled scanner o t result s has plain =
      from_savepoint-Settled "sqlite_merge_remaining_next_"
        (check_body db context scanner o t result) s
        (λ name begun opened.
          check_body-BodyEnding name (content s) (saved s) scanner o t result begun has plain
            opened)

  -- So does the step past a pair that the user has accepted.
  pub accept_next-Settled :
      (scanner : ScannerState) (other : LoggedTransaction) (result : ConflictCheckResult)
      (s : db.State)
      → HasStatement db laws context other
      → ArePlain db laws context other.statements
      → Settled db laws context
          (content s)
          (saved s)
          (accept_next db context scanner other result s)
  unfolding accept_next
  accept_next-Settled scanner other result s has plain =
      from_savepoint-Settled "sqlite_merge_remaining_accept_"
        (accept_next_body db context scanner other result) s
        (λ name begun opened.
          accept_next_body-BodyEnding name (content s) (saved s) scanner other result begun has
            plain opened)
