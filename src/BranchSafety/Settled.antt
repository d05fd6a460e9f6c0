-- ===== src/BranchSafety/Settled.antt =====
-- A transaction that does not replay leaves the copy of the base as it was.
use sqlite_reconcile.Effects.Keeps.{
  Keeps, to_Kept, still, >>=-Keeps, if-Keeps, except_sqlite-Keeps, Contained-Keeps,
}
use sqlite_reconcile.Database.Laws.{SavepointLaws}
use sqlite_reconcile.Database.Savepoints.{snapshot, rollback_savepoint_lem}
use sqlite_reconcile.Replay.Plain.{PlainReplay, ArePlain}
use sqlite_reconcile.Replay.Traceless.{
  conflict_resolution_branch_warning-Traceless, fresh_savepoint-Named,
}
use sqlite_reconcile.RemainingScan.Probing.{has_duplicates-Keeps}
use sqlite_reconcile.Metadata.{StatementMetadata}
use sqlite_reconcile.Prelude.{
  String, ◌≡◌, ap, ◌∙◌, inl, inr, Bool, true, false, Option, none, some, List, [], ◌∷◌, string_eq,
  nat_eq, contains, list_eq,
}
use sqlite_reconcile.Effects.{
  M, pure, continue_with, handle_with, except_sqlite, Result, sqlite_error, uncaught, ok, raised,
}
use sqlite_reconcile.Effects.Contained.{continue_with-ok}
use sqlite_reconcile.Models.{
  sql_text, conflict_kind_eq, BranchName, LoggedStatement, LoggedTransaction,
}
use sqlite_reconcile.LogMerge.{update_from_duplicate_target_warning, unresolved_replay_block_reason}
use sqlite_reconcile.Database.{rollback_savepoint, Database}
use sqlite_reconcile.Replay.{ReplayContext}
use sqlite_reconcile.Probes.{
  affected_primary_key_select, probe_has_duplicate_target_rows,
  update_from_has_duplicate_target_rows,
}
use sqlite_reconcile.BranchSafety.{
  statement_replay_warning, unaccepted, Issue, validate_database, run_statement, duplicate_or_run,
  probe_and_run, blocked_or_run, warned_or_run, rolled_back, rolled_back_on_issue, statement_issue,
  issue_or_next, statements_issue, validated_or_kept, finish_transaction,
  branch_transaction_replay_issue, BranchReplayIssue,
}

module _ (db : Database) (laws : SavepointLaws db) (context : ReplayContext) where
  open laws use {Content, content, saved}

  run_statement-Keeps :
      (branch : BranchName) (s : LoggedStatement) (warning : Option String)
      → PlainReplay db laws context s
      → Keeps saved (run_statement db context branch s warning)
  run_statement-Keeps branch s none p =
      >>=-Keeps saved _ _ (Contained-Keeps saved _ (laws.execute-saved (sql_text s) p.0.0))
        (λ _. still saved _)
  run_statement-Keeps branch s (some warning) p = still saved _

  duplicate_or_run-Keeps :
      (branch : BranchName) (s : LoggedStatement) (duplicates : Bool)
      → PlainReplay db laws context s
      → Keeps saved (duplicate_or_run db context branch s duplicates)
  duplicate_or_run-Keeps branch s true p = still saved _
  duplicate_or_run-Keeps branch s false p =
      >>=-Keeps saved _ _
        (λ x.
          to_Kept saved
            (ap (λ v. v.1) (conflict_resolution_branch_warning-Traceless db laws context s p x).0))
        (λ warning. run_statement-Keeps branch s (unaccepted s warning) p)

  duplicates-Keeps :
      (m : StatementMetadata) → Keeps saved (update_from_has_duplicate_target_rows db context m)
  unfolding update_from_has_duplicate_target_rows
  duplicates-Keeps m =
      if-Keeps saved _ _ _ (probed (affected_primary_key_select context m)) (still saved _)
    where
      probed :
          (query : Option String)
          → Keeps saved (elim query as (λ q. M db.State Bool) [
            | none ↦ pure false
            | some sql ↦
                except_sqlite (probe_has_duplicate_target_rows db context m sql) (λ i m. pure false)
          ])
      probed none = still saved _
      probed (some sql) =
          except_sqlite-Keeps saved _ _ (has_duplicates-Keeps db laws context m sql)
            (λ i m. still saved _)

  probe_and_run-Keeps :
      (branch : BranchName) (s : LoggedStatement)
      → PlainReplay db laws context s
      → Keeps saved (probe_and_run db context branch s)
  unfolding probe_and_run
  probe_and_run-Keeps branch s p =
      >>=-Keeps saved _ _
        (if-Keeps saved (contains s.accepted_replay_warnings update_from_duplicate_target_warning)
          (pure false) (update_from_has_duplicate_target_rows db context s.metadata)
          (still saved (ok false)) (duplicates-Keeps s.metadata))
        (λ duplicates. duplicate_or_run-Keeps branch s duplicates p)

  blocked_or_run-Keeps :
      (branch : BranchName) (s : LoggedStatement) (reason : Option String)
      → PlainReplay db laws context s
      → Keeps saved (blocked_or_run db context branch s reason)
  blocked_or_run-Keeps branch s (some reason) p = still saved _
  blocked_or_run-Keeps branch s none p = probe_and_run-Keeps branch s p

  warned_or_run-Keeps :
      (branch : BranchName) (s : LoggedStatement) (warning : Option String)
      → PlainReplay db laws context s
      → Keeps saved (warned_or_run db context branch s warning)
  warned_or_run-Keeps branch s (some warning) p = still saved _
  warned_or_run-Keeps branch s none p =
      blocked_or_run-Keeps branch s (unresolved_replay_block_reason s) p

  first_value-saved : (sql : String) → Keeps saved (db.first_value sql)
  first_value-saved sql s = to_Kept saved (ap (λ x. x.1) (laws.first_value-Contained sql s).0)

  fetchall-saved : (sql : String) → Keeps saved (db.fetchall sql)
  fetchall-saved sql s = to_Kept saved (ap (λ x. x.1) (laws.fetchall-Contained sql s).0)

  validate_database-Keeps : Keeps saved (validate_database db context)
  unfolding validate_database
  validate_database-Keeps =
      >>=-Keeps saved _ _ (first_value-saved _)
        (λ word. >>=-Keeps saved _ _ (fetchall-saved _) (λ rows. still saved _))

  -- An issue is told with the data and the savepoints as before the check.
  abbrev pub Outcome : Content → (db.State → Type 0) → db.State × Result Issue → Type 0
  Outcome before Then (x, ok none) = Then x
  Outcome before Then (x, ok (some issue)) = snapshot db laws x ≡ (before, [])
  Outcome before Then (x, raised e) = Unit {0}

  -- No savepoint is open.
  abbrev pub Closed : db.State → Type 0
  Closed x = saved x ≡ []

  module _ (name : String) (before : Content) where
    -- The savepoint of the transaction is the only one open.
    abbrev Begun : db.State → Type 0
    Begun x = saved x ≡ (name, before) ∷ []

    rolled_back_lem :
        (issue : BranchReplayIssue) (x : db.State)
        → Begun x
        → (rolled_back db context name issue x
            ≡ ((rollback_savepoint db name x).0, ok (some issue)))
          × (snapshot db laws (rollback_savepoint db name x).0 ≡ (before, []))
    rolled_back_lem issue x h =
        let back = rollback_savepoint_lem db laws name before [] x h in
        (continue_with-ok (rollback_savepoint db name x) _ tt back.1, back.0)

    rolled_back-Outcome :
        (Then : db.State → Type 0) (issue : BranchReplayIssue) (x : db.State)
        (handler : Bool → String → M db.State Issue)
        → Begun x
        → Outcome before Then (handle_with (rolled_back db context name issue x) handler)
    rolled_back-Outcome Then issue x handler h =
        let back = rolled_back_lem issue x h in rw back.0 back.1

    rolled_back-last :
        (Then : db.State → Type 0) (issue : BranchReplayIssue) (x : db.State)
        → Begun x
        → Outcome before Then (rolled_back db context name issue x)
    rolled_back-last Then issue x h = let back = rolled_back_lem issue x h in rw back.0 back.1

    statement_issue-Outcome :
        (branch : BranchName) (s : LoggedStatement) (x : db.State)
        → PlainReplay db laws context s
        → Begun x
        → Outcome before Begun (statement_issue db context branch name s x)
    unfolding statement_issue
    statement_issue-Outcome branch s x p h =
        ended (warned_or_run db context branch s (statement_replay_warning s) x) _
          ((warned_or_run-Keeps branch s _ p x).same ∙ h)
      where
        ended :
            (out : db.State × Result Issue) (told : Bool → String → BranchReplayIssue)
            → Begun out.0
            → Outcome before Begun (
                handle_with
                  (continue_with out (rolled_back_on_issue db context name))
                  (λ i m. rolled_back db context name (told i m)))
        ended (y, ok none) told g = g
        ended (y, ok (some issue)) told g = rolled_back-Outcome Begun issue y _ g
        ended (y, raised (sqlite_error i m)) told g = rolled_back-last Begun (told i m) y g
        ended (y, raised (uncaught error)) told g = tt

    then-Outcome :
        (Then : db.State → Type 0) (out : db.State × Result Issue) (next : M db.State Issue)
        → Outcome before Begun out
        → ((y : db.State) → Begun y → Outcome before Then (next y))
        → Outcome before Then (continue_with out (λ issue. issue_or_next db context issue next))
    then-Outcome Then (y, ok none) next g later = later y g
    then-Outcome Then (y, ok (some issue)) next g later = g
    then-Outcome Then (y, raised e) next g later = tt

    statements_issue-Outcome :
        (branch : BranchName) (statements : List LoggedStatement) (x : db.State)
        → ArePlain db laws context statements
        → Begun x
        → Outcome before Begun (statements_issue db context branch name statements x)
    unfolding statements_issue
    statements_issue-Outcome branch [] x plain h = h
    statements_issue-Outcome branch (s ∷ statements) x plain h =
        then-Outcome Begun _ _ (statement_issue-Outcome branch s x plain.0 h)
          (λ y g. statements_issue-Outcome branch statements y plain.1 g)

    finish_transaction-Outcome :
        (t : LoggedTransaction) (x : db.State)
        → Begun x
        → Outcome before Closed (finish_transaction db context t name x)
    unfolding finish_transaction
    finish_transaction-Outcome t x h =
        validated (validate_database db context x) _ ((validate_database-Keeps x).same ∙ h)
      where
        committed :
            (y : db.State) (told : Bool → String → BranchReplayIssue)
            → Begun y
            → Outcome before Closed (
                handle_with
                  (validated_or_kept db context t.branch name [] y)
                  (λ i m. rolled_back db context name (told i m)))
        committed y told g = elim (laws.release_closes name before [] y g).1 [
          | inl (closed, fine) ↦
              let idle = laws.commit_idle (db.release name y).0 closed in rw (fine, idle.2) idle.1
          | inr (same, i, m, failed) ↦
              rw failed (rolled_back-last Closed (told i m) (db.release name y).0 (same ∙ g))
        ]

        validated :
            (out : db.State × Result (List String)) (told : Bool → String → BranchReplayIssue)
            → Begun out.0
            → Outcome before Closed (
                handle_with
                  (continue_with out (validated_or_kept db context t.branch name))
                  (λ i m. rolled_back db context name (told i m)))
        validated (y, ok []) told g = committed y told g
        validated (y, ok (error ∷ errors)) told g = rolled_back-Outcome Closed _ y _ g
        validated (y, raised (sqlite_error i m)) told g = rolled_back-last Closed (told i m) y g
        validated (y, raised (uncaught error)) told g = tt

  -- The check of one transaction of a branch, begun with no savepoint open, ends with no
  -- savepoint open where it finds no issue. Where it returns an issue, be it a warning, a block,
  -- an error of SQLite in a statement, a failed release or a broken constraint, the data are as
  -- before and no savepoint is open. Nothing is said of a run that raises. No statement is a
  -- transaction command or rolls the transaction back, and SQLite keeps the documented laws of
  -- savepoints.
  pub branch_transaction_replay_issue-Outcome :
      (t : LoggedTransaction) (x : db.State)
      → ArePlain db laws context t.statements
      → saved x ≡ []
      → Outcome (content x) Closed (branch_transaction_replay_issue db context t x)
  unfolding branch_transaction_replay_issue
  branch_transaction_replay_issue-Outcome t x plain idle =
      let (x', name, drawn, same) = fresh_savepoint-Named db laws "sqlite_merge_branch_" x in
      let opened = laws.savepoint_opens name x' in
      let begun = (db.savepoint name x').0 in
      let o : saved begun ≡ (name, content x) ∷ [] =
        opened.1
        ∙ ap (λ v. (name, v.0) ∷ v.1) same
        ∙ ap (λ outer. (name, content x) ∷ outer) idle in
      rw (drawn, opened.2)
        (then-Outcome name (content x) Closed _ _
          (statements_issue-Outcome name (content x) t.branch t.statements begun plain o)
          (λ y g. finish_transaction-Outcome name (content x) t y g))
