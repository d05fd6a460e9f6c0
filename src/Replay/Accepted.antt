-- ===== src/Replay/Accepted.antt =====
-- The replay of an accepted transaction is all or nothing.
use mathlib.Core.List.{flat_map}
use sqlite_reconcile.Prelude.{
  String, ◌≡◌, refl, sym, ap, ◌∙◌, inl, inr, Bool, false, Option, none, some, List, [], ◌∷◌,
  flat_map, if◌then◌else◌, string_eq, nat_eq, list_eq,
}
use sqlite_reconcile.Effects.{
  M, pure, continue_with, ◌>>◌, handle_with, Result, sqlite_error, uncaught, ok, raised,
}
use sqlite_reconcile.Effects.Contained.{
  continue_with-ok, continue_with-raised, handle_with-ok, handle_with-sqlite, Leaves,
}
use sqlite_reconcile.Models.{
  conflict_kind_eq, branch_scope, ConflictCheckResult, add_conflicts, result_of, all_conflicts,
  has_conflict, transaction_label, LoggedTransaction, StatementConflict,
}
use sqlite_reconcile.Database.{rollback_savepoint, Database}
use sqlite_reconcile.Database.Laws.{SavepointLaws}
use sqlite_reconcile.Database.Savepoints.{rollback_savepoint_lem}
use sqlite_reconcile.Replay.{
  sqlite_exception_conflict, clean_control_conflict, result_of_first, ReplayContext,
}
use sqlite_reconcile.Replay.Advance.{advance_transaction_on_main_and_control}
use sqlite_reconcile.Replay.Accept.{
  append_replayed_log, refuse, record_accepted, accept_body, apply_accepted_transaction,
}
use sqlite_reconcile.Replay.Plain.{ArePlain}
use sqlite_reconcile.Replay.Traceless.{fresh_savepoint-Named}
use sqlite_reconcile.Replay.Advancing.{
  HasStatement, advance_statements-Contained, append_replayed_log-Contained,
}
use mathlib.Core.List.{flat_map}

module _ (db : Database) (laws : SavepointLaws db) (context : ReplayContext) where
  open laws use {Content, content, saved, IsPlain}

  abbrev pub Verdict : Type 0
  Verdict = db.State × Result (Option StatementConflict)

  -- How the replay of a transaction ends that met the data `before` and the savepoints `outer`, from
  -- the state in which its own savepoint is open: with a conflict and everything as before, or with
  -- none, when each statement passed, the data are what the statements and the log rows left, and
  -- its own savepoint is closed.
  pub data Ending (t : LoggedTransaction) (begun : db.State) (before : Content)
      (outer : List (String × Content)) (out : Verdict) : Type 0 where
    refused :
        (c : StatementConflict)
        → out.1 ≡ ok (some c)
        → content out.0 ≡ before
        → saved out.0 ≡ outer
        → Ending t begun before outer out
    accepted :
        (replayed : db.State)
        → advance_transaction_on_main_and_control db context t t
            (transaction_label t)
            (branch_scope t.branch)
            false
            begun
          ≡ (replayed, ok (result_of []))
        → (append_replayed_log db t.statements replayed).1 ≡ ok tt
        → out.1 ≡ ok none
        → content out.0 ≡ content (append_replayed_log db t.statements replayed).0
        → saved out.0 ≡ outer
        → Ending t begun before outer out

  -- The body of the `try` ends so, or raises an error of SQLite with its savepoint open.
  data BodyEnding (t : LoggedTransaction) (begun : db.State) (name : String) (before : Content)
      (outer : List (String × Content)) (out : Verdict) : Type 0 where
    ended : Ending t begun before outer out → BodyEnding t begun name before outer out
    failed :
        (i : Bool) (m : String)
        → out.1 ≡ raised (sqlite_error i m)
        → saved out.0 ≡ (name, before) ∷ outer
        → BodyEnding t begun name before outer out

  module _ (t : LoggedTransaction) (begun : db.State) (name : String) (before : Content)
      (outer : List (String × Content)) where
    abbrev Open : db.State → Type 0
    Open s = saved s ≡ (name, before) ∷ outer

    abbrev advance_here : M db.State ConflictCheckResult
    advance_here =
        advance_transaction_on_main_and_control db context t t (transaction_label t)
          (branch_scope t.branch) false

    rolled_back :
        (c : StatementConflict) (s : db.State)
        → Open s
        → Ending t begun before outer
            (continue_with (rollback_savepoint db name s) (λ _. pure (some c)))
    rolled_back c s o =
        let back = rollback_savepoint_lem db laws name before outer s o in
        let joined =
          continue_with-ok {B = Option StatementConflict} (rollback_savepoint db name s)
            (λ _. pure (some c)) tt back.1 in
        rw joined (refused c refl (ap (λ x. x.0) back.0) (ap (λ x. x.1) back.0))

    refuse-Ending :
        (c : StatementConflict) (s : db.State)
        → Open s
        → Ending t begun before outer (refuse db context (result_of (c ∷ [])) name s)
    unfolding refuse result_of add_conflicts all_conflicts flat_map
    refuse-Ending c s o = rolled_back (clean_control_conflict context c) s o

    closing :
        (s logged : db.State)
        → Open logged
        → advance_here begun ≡ (s, ok (result_of []))
        → append_replayed_log db t.statements s ≡ (logged, ok tt)
        → BodyEnding t begun name before outer
            (continue_with (db.release name logged) (λ _. pure {A = Option StatementConflict} none))
    closing s logged o advanced appended =
        let released = laws.release_closes name before outer logged o in
        elim released.1 [
          | inl closed ↦
              (let joined =
                  continue_with-ok {B = Option StatementConflict} (db.release name logged)
                    (λ _. pure none) tt closed.1 in
                rw joined (
                  ended (
                    accepted s advanced (ap (λ x. x.1) appended) refl
                      (released.0 ∙ ap (λ x. content x.0) (sym appended)) closed.0)))
          | inr (same, i, m, fails) ↦
              (let joined =
                  continue_with-raised {B = Option StatementConflict} (db.release name logged)
                    (λ _. pure none) (sqlite_error i m) fails in
                rw joined (failed i m refl (same ∙ o)))
        ]

    recorded :
        (s : db.State) (out : db.State × Result (Unit {0}))
        → Open s
        → advance_here begun ≡ (s, ok (result_of []))
        → append_replayed_log db t.statements s ≡ out
        → Leaves saved s out
        → BodyEnding t begun name before outer
            (continue_with out (λ _. db.release name >> pure {A = Option StatementConflict} none))
    recorded s (logged, ok _) o advanced appended h = closing s logged (h.0 ∙ o) advanced appended
    recorded s (logged, raised (sqlite_error i m)) o advanced appended h = failed i m refl (h.0 ∙ o)
    recorded s (logged, raised (uncaught error)) o advanced appended h = elim h.1 [ ]

    record_accepted-BodyEnding :
        (s : db.State)
        → Open s
        → advance_here begun ≡ (s, ok (result_of []))
        → BodyEnding t begun name before outer (record_accepted db context t name s)
    unfolding record_accepted
    record_accepted-BodyEnding s o advanced =
        recorded s _ o advanced refl (append_replayed_log-Contained db laws context t.statements s)

    -- By how the replay of the statements went.
    advanced-BodyEnding :
        (out : Verdict)
        → Leaves saved begun out
        → Open begun
        → advance_here begun ≡ continue_with out (λ c. pure (result_of_first c))
        → BodyEnding t begun name before outer (
            continue_with (continue_with out (λ c. pure (result_of_first c))) (λ result.
              if has_conflict result
              then refuse db context result name
              else record_accepted db context t name))
    unfolding result_of add_conflicts
    advanced-BodyEnding (s, ok (some c)) h o e = ended (refuse-Ending c s (h.0 ∙ o))
    advanced-BodyEnding (s, ok none) h o e = record_accepted-BodyEnding s (h.0 ∙ o) e
    advanced-BodyEnding (s, raised (sqlite_error i m)) h o e = failed i m refl (h.0 ∙ o)
    advanced-BodyEnding (s, raised (uncaught error)) h o e = elim h.1 [ ]

    accept_body-BodyEnding :
        HasStatement db laws context t
        → ArePlain db laws context t.statements
        → Open begun
        → BodyEnding t begun name before outer (accept_body db context t name begun)
    unfolding accept_body advance_transaction_on_main_and_control
    accept_body-BodyEnding has plain o =
        advanced-BodyEnding _
          (advance_statements-Contained db laws context t.statements t t _ _ has plain begun) o refl

    settle :
        (out : Verdict)
        → BodyEnding t begun name before outer out
        → Ending t begun before outer (
            handle_with out (λ i m. do
              rollback_savepoint db name
              pure (some (sqlite_exception_conflict i m (branch_scope t.branch)))))
    settle out (ended (refused c e d v)) = rw (handle_with-ok out _ _ e) (refused c e d v)
    settle out (ended (accepted s a l e d v)) = rw (handle_with-ok out _ _ e) (accepted s a l e d v)
    settle out (failed i m e v) =
        rw (handle_with-sqlite out _ i m e)
          (rolled_back (sqlite_exception_conflict i m (branch_scope t.branch)) out.0 v)

  -- Replaying an accepted transaction never raises. Either it returns a conflict, and the data
  -- and the open savepoints are as before the call; or it returns none, the replay of its
  -- statements and the checks of the foreign keys found no conflict, the data are what the
  -- statements and the inserted log rows left, and the open savepoints are those from before. The
  -- transaction has a statement, none of its statements is a transaction command or rolls the
  -- transaction back, and SQLite keeps the documented laws of savepoints.
  pub apply_accepted_transaction-Ending :
      (t : LoggedTransaction) (s : db.State)
      → HasStatement db laws context t
      → ArePlain db laws context t.statements
      → (begun : db.State) × (content begun ≡ content s)
        × Ending t begun (content s) (saved s) (apply_accepted_transaction db context t s)
  unfolding apply_accepted_transaction
  apply_accepted_transaction-Ending t s has plain =
      let (s', name, drawn, same) = fresh_savepoint-Named db laws "sqlite_merge_accept_" s in
      let opened = laws.savepoint_opens name s' in
      let begun = (db.savepoint name s').0 in
      let before : content s' ≡ content s = ap (λ x. x.0) same in
      let outer : saved s' ≡ saved s = ap (λ x. x.1) same in
      let o : saved begun ≡ (name, content s) ∷ saved s =
        opened.1 ∙ ap (λ x. (name, x.0) ∷ x.1) same in
      let body = accept_body-BodyEnding t begun name (content s) (saved s) has plain o in
      (begun, opened.0 ∙ before, rw (drawn, opened.2) (settle t begun name _ _ _ body))
