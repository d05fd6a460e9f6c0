-- ===== src/BranchSafety.antt =====
-- src/merge/terminal_mergetool.py: the check of each branch's own transactions before the merge.
-- Each is replayed on a copy of the base, and what does not replay is put to the user.
pub mod Safe
pub mod Merge
pub mod Rounds
pub mod Settled
use sqlite_reconcile.Prelude.{
  ℕ, zero, suc, ◌+◌, String, Bool, true, false, not, ◌&&◌, Option, none, some, List, [], ◌∷◌, ◌++◌,
  map, arith, if◌then◌else◌, string_eq, nat_eq, ◌==◌, contains, list_eq, Eq, concat, join,
}
use sqlite_reconcile.Effects.{M, pure, ◌>>=◌, ◌>>◌, except_sqlite}
use sqlite_reconcile.Models.{
  sql_text, conflict_kind_eq, branch_scope, BranchName, ConflictKind, LoggedStatement,
  LoggedTransaction, StatementConflict, ConflictPair, integrity, replay_error,
}
use sqlite_reconcile.LogMerge.{
  update_from_duplicate_target_warning, pending_replay_warning, unresolved_replay_block_reason,
  accept_replay_warning,
}
use sqlite_reconcile.Database.{rollback_savepoint, fresh_savepoint, Database}
use sqlite_reconcile.Replay.{sqlite_error_conflict_kind, statement_conflict_details, ReplayContext}
use sqlite_reconcile.Replay.Advance.{last_of, conflict_resolution_branch_warning}
use sqlite_reconcile.Probes.{update_from_has_duplicate_target_rows}
use sqlite_reconcile.Mergetool.State.{transaction_with_statements, standalone_head_conflict}

-- `BranchReplayIssue`; `allow_accept` is whether there is a warning.
pub record BranchReplayIssue : Type 0 where
  pub conflict : StatementConflict
  pub warning : Option (LoggedStatement × String)

-- `_branch_replay_conflict`
unfoldable pub branch_replay_conflict :
    ConflictKind → String → BranchName → Option LoggedStatement → StatementConflict
unfolding statement_conflict_details
branch_replay_conflict kind message branch statement = record {
  kind = kind;
  message = message;
  scope = branch_scope branch;
  details = elim statement [ none ↦ [] | some s ↦ statement_conflict_details s ];
}

-- `_branch_replay_warning_issue`
unfoldable pub branch_replay_warning_issue :
    BranchName → LoggedStatement → String → BranchReplayIssue
unfolding branch_replay_conflict
branch_replay_warning_issue branch s warning = record {
  conflict =
      branch_replay_conflict replay_error (concat ("warning: " ∷ warning ∷ [])) branch (some s);
  warning = some (s, warning);
}

abbrev pub blocking_issue :
    ConflictKind → String → BranchName → Option LoggedStatement → BranchReplayIssue
blocking_issue kind message branch statement = record {
  conflict = branch_replay_conflict kind message branch statement;
  warning = none;
}

abbrev pub first_unaccepted : List String → List String → Option String
first_unaccepted accepted [] = none
first_unaccepted accepted (warning ∷ warnings) =
    let rest = first_unaccepted accepted warnings in
    if not (warning == update_from_duplicate_target_warning) && not (contains accepted warning)
    then some warning
    else rest

-- `_statement_replay_warning`
unfoldable pub statement_replay_warning : LoggedStatement → Option String
unfolding pending_replay_warning
statement_replay_warning s = elim (pending_replay_warning s) [
  | some warning ↦ some warning
  | none ↦ first_unaccepted s.accepted_replay_warnings s.replay_warnings
]

abbrev pub unaccepted : LoggedStatement → Option String → Option String
unaccepted s none = none
unaccepted s (some warning) =
    if contains s.accepted_replay_warnings warning then none else some warning

-- `_accept_warning_if_statement_still_present`; `is` is identity of objects.
unfoldable pub accept_warning_if_statement_still_present :
    (LoggedStatement → LoggedStatement → Bool)
    → List LoggedStatement
    → LoggedStatement
    → String
    → List LoggedStatement
unfolding accept_replay_warning
accept_warning_if_statement_still_present is [] warned warning = []
accept_warning_if_statement_still_present is (s ∷ statements) warned warning =
    let rest = accept_warning_if_statement_still_present is statements warned warning in
    if is s warned then accept_replay_warning s warning ∷ statements else s ∷ rest

abbrev pub Issue : Type 0
Issue = Option BranchReplayIssue

-- How the resolution of one transaction ends; the fuel bounds how often the user is asked.
pub data Resolution : Type 0 where
  replayed : LoggedTransaction → Resolution
  dropped out_of_fuel : Resolution

abbrev pub kept_first :
    Resolution → Option (List LoggedTransaction) → Option (List LoggedTransaction)
kept_first out_of_fuel rest = none
kept_first dropped rest = rest
kept_first (replayed t) none = none
kept_first (replayed t) (some ts) = some (t ∷ ts)

module _ (db : Database) (context : ReplayContext) where
  open db use {State, execute, savepoint, release, commit, first_value, fetchall}

  -- log_merge.py
  unfoldable pub validate_database : M State (List String)
  validate_database = do
    integrity_row ← first_value "PRAGMA integrity_check"
    rows ← fetchall "PRAGMA foreign_key_check"
    pure (
        (elim integrity_row [
          | none ↦ []
          | some word ↦ (if word == "ok" then [] else concat ("integrity_check: " ∷ word ∷ []) ∷ [])
        ])
        ++ map (λ row. concat ("foreign_key_check: " ∷ row ∷ [])) rows)

  abbrev pub run_statement : BranchName → LoggedStatement → Option String → M State Issue
  run_statement branch s (some warning) = pure (some (branch_replay_warning_issue branch s warning))
  run_statement branch s none = do execute (sql_text s); pure none

  abbrev pub duplicate_or_run : BranchName → LoggedStatement → Bool → M State Issue
  duplicate_or_run branch s true =
      pure (some (branch_replay_warning_issue branch s update_from_duplicate_target_warning))
  duplicate_or_run branch s false = do
    warning ← conflict_resolution_branch_warning db context s
    run_statement branch s (unaccepted s warning)

  -- The probes of a statement, and its replay.
  unfoldable pub probe_and_run : BranchName → LoggedStatement → M State Issue
  unfolding update_from_has_duplicate_target_rows conflict_resolution_branch_warning
      branch_replay_warning_issue
  probe_and_run branch s = do
    duplicates ←
        (if contains s.accepted_replay_warnings update_from_duplicate_target_warning
          then pure false
          else update_from_has_duplicate_target_rows db context s.metadata)
    duplicate_or_run branch s duplicates

  abbrev pub blocked_or_run : BranchName → LoggedStatement → Option String → M State Issue
  blocked_or_run branch s (some reason) =
      pure (some (blocking_issue replay_error reason branch (some s)))
  blocked_or_run branch s none = probe_and_run branch s

  abbrev pub warned_or_run : BranchName → LoggedStatement → Option String → M State Issue
  warned_or_run branch s (some warning) = pure (some (branch_replay_warning_issue branch s warning))
  warned_or_run branch s none = blocked_or_run branch s (unresolved_replay_block_reason s)

  -- `rollback_savepoint(con.cursor(), savepoint); return issue`
  abbrev pub rolled_back : String → BranchReplayIssue → M State Issue
  rolled_back name issue = do rollback_savepoint db name; pure (some issue)

  abbrev pub rolled_back_on_issue : String → Issue → M State Issue
  rolled_back_on_issue name none = pure none
  rolled_back_on_issue name (some issue) = rolled_back name issue

  -- One round of the loop of `_branch_transaction_replay_issue`, with what the handler of the `try`
  -- does on an error in it, also in its own rollback: the statement is the last one begun.
  unfoldable pub statement_issue : BranchName → String → LoggedStatement → M State Issue
  unfolding statement_replay_warning unresolved_replay_block_reason probe_and_run
      branch_replay_conflict rollback_savepoint
  statement_issue branch name s =
      except_sqlite
        (do
          issue ← warned_or_run branch s (statement_replay_warning s)
          rolled_back_on_issue name issue)
        (λ is_integrity message.
          rolled_back name
            (blocking_issue (sqlite_error_conflict_kind is_integrity) message branch (some s)))

  abbrev pub issue_or_next : Issue → M State Issue → M State Issue
  issue_or_next none next = next
  issue_or_next (some issue) next = pure (some issue)

  unfoldable pub statements_issue : BranchName → String → List LoggedStatement → M State Issue
  unfolding statement_issue
  statements_issue branch name [] = pure none
  statements_issue branch name (s ∷ statements) = do
    issue ← statement_issue branch name s
    issue_or_next issue (statements_issue branch name statements)

  abbrev pub validated_or_kept : BranchName → String → List String → M State Issue
  validated_or_kept branch name [] = do release name; commit; pure none
  validated_or_kept branch name (error ∷ errors) =
      rolled_back name (blocking_issue integrity (join "\n" (error ∷ errors)) branch none)

  unfoldable pub finish_transaction : LoggedTransaction → String → M State Issue
  unfolding validate_database rollback_savepoint branch_replay_conflict
  finish_transaction t name =
      except_sqlite (do errors ← validate_database; validated_or_kept t.branch name errors)
        (λ is_integrity message. rolled_back name (
          blocking_issue (sqlite_error_conflict_kind is_integrity) message t.branch
            (last_of t.statements)))

  -- `_branch_transaction_replay_issue`
  unfoldable pub branch_transaction_replay_issue : LoggedTransaction → M State Issue
  unfolding statements_issue finish_transaction
  branch_transaction_replay_issue t = do
    name ← fresh_savepoint db "sqlite_merge_branch_"
    savepoint name
    issue ← statements_issue t.branch name t.statements
    issue_or_next issue (finish_transaction t name)

  -- `_prompt_standalone_transaction_resolution` of terminal_ui.py, which reads the database; with
  -- no statements the transaction is dropped.
  pub record Prompt : Type 0 where
    pub ask : ConflictPair → LoggedTransaction → Bool → M State (List LoggedStatement)
    pub is_same_object : LoggedStatement → LoggedStatement → Bool

  abbrev pub accept_warning :
      Prompt → BranchReplayIssue → List LoggedStatement → List LoggedStatement
  accept_warning prompt issue statements = elim issue.warning [
    | none ↦ statements
    | some (s, warning) ↦
        accept_warning_if_statement_still_present prompt.is_same_object statements s warning
  ]

  abbrev pub has_warning : BranchReplayIssue → Bool
  has_warning issue = elim issue.warning [ none ↦ false | some w ↦ true ]

  abbrev pub dropped_or_again :
      List LoggedStatement → (List LoggedStatement → M State Resolution) → M State Resolution
  dropped_or_again [] again = pure dropped
  dropped_or_again (s ∷ statements) again = again (s ∷ statements)

  abbrev pub settle_issue :
      Prompt
      → BranchName
      → LoggedTransaction
      → Issue
      → (LoggedTransaction → M State Resolution)
      → M State Resolution
  settle_issue prompt branch current none again = pure (replayed current)
  settle_issue prompt branch current (some issue) again = do
    statements ←
        prompt.ask (standalone_head_conflict issue.conflict branch) current (has_warning issue)
    dropped_or_again statements (λ replacement.
        again (transaction_with_statements current (accept_warning prompt issue replacement)))

  -- `_resolve_branch_transaction`
  unfoldable pub resolve_branch_transaction :
      Prompt → BranchName → ℕ → LoggedTransaction → M State Resolution
  unfolding branch_transaction_replay_issue transaction_with_statements standalone_head_conflict
      accept_warning_if_statement_still_present
  resolve_branch_transaction prompt branch zero current = pure out_of_fuel
  resolve_branch_transaction prompt branch (suc fuel) current = do
    issue ← branch_transaction_replay_issue current
    settle_issue prompt branch current issue (resolve_branch_transaction prompt branch fuel)

  -- `_resolve_branch_replay_safety`, on the copy of the base; `none` if the fuel ran out.
  unfoldable pub resolve_branch_replay_safety :
      Prompt → BranchName → ℕ → List LoggedTransaction → M State (Option (List LoggedTransaction))
  unfolding resolve_branch_transaction
  resolve_branch_replay_safety prompt branch fuel [] = pure (some [])
  resolve_branch_replay_safety prompt branch fuel (t ∷ transactions) = do
    resolution ← resolve_branch_transaction prompt branch fuel t
    rest ← resolve_branch_replay_safety prompt branch fuel transactions
    pure (kept_first resolution rest)
