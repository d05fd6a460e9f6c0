-- ===== src/Mergetool/State.antt =====
-- src/merge/terminal_mergetool.py: the state of the merge and the changes of the queues.
use sqlite_reconcile.Prelude.{
  ℕ, Bool, true, false, not, ◌&&◌, Option, none, some, List, [], ◌∷◌, map, get_elem?, delete_at,
  set, nonempty, all, nat_eq, string_eq, list_eq, show_int,
}
use sqlite_reconcile.Schema.{ConflictCheckContext}
use sqlite_reconcile.Metadata.{transaction_metadata}
use sqlite_reconcile.Models.{
  BranchName, ours, theirs, same_branch, branch_scope, StatementConflict, ConflictPair,
  LoggedStatement, LoggedTransaction, replay_error, integrity,
}
use sqlite_reconcile.Remaining.Index.{RemainingMetadataIndex, add_transaction, remove_transaction}
use sqlite_reconcile.LogMerge.{unresolved_replay_block_reason}
use sqlite_reconcile.Scan.{ExecutionScanner}

-- `PairTransactionResolution`: what the user decided for the two transactions of a pair.
pub data PairResolution : Type 0 where
  accept : PairResolution
  replace :
      (changed_ours : Bool) (ours_transaction : Option LoggedTransaction) (changed_theirs : Bool)
      (theirs_transaction : Option LoggedTransaction)
      → PairResolution

-- What the mergetool meets: the execution scanner over the working database, the replay of an
-- accepted transaction (accepted_replay.py) and the two prompts (terminal_ui.py). A prompt for one
-- transaction that returns no statements, or `None`, deletes it.
pub record Environment : Type 1 where
  pub scanner : ExecutionScanner
  pub apply_accepted_transaction :
      scanner.State → LoggedTransaction → scanner.State × Option StatementConflict
  pub prompt_standalone :
      scanner.State → ConflictPair → LoggedTransaction → scanner.State × List LoggedStatement
  pub prompt_pair :
      scanner.State
      → ConflictPair
      → LoggedTransaction
      → LoggedTransaction
      → Bool
      → scanner.State × PairResolution

-- `_transaction_with_statements` of terminal_ui.py
unfoldable pub transaction_with_statements :
    LoggedTransaction → List LoggedStatement → LoggedTransaction
unfolding transaction_metadata
transaction_with_statements t statements = record t {
  statements = statements;
  metadata = transaction_metadata (map (λ s. s.metadata) statements);
}

-- The two queues and their indexes. `merged` is not a variable of the source: it stands for the log
-- rows that `apply_accepted_transaction` has inserted into the working database.
pub record Queues : Type 0 where
  pub remaining_ours : List LoggedTransaction
  pub remaining_theirs : List LoggedTransaction
  pub ours_index : RemainingMetadataIndex
  pub theirs_index : RemainingMetadataIndex
  pub merged : List LoggedTransaction

abbrev pub queue_of : BranchName → Queues → List LoggedTransaction
queue_of ours q = q.remaining_ours
queue_of theirs q = q.remaining_theirs

abbrev pub index_of : BranchName → Queues → RemainingMetadataIndex
index_of ours q = q.ours_index
index_of theirs q = q.theirs_index

abbrev pub with_queue :
    BranchName → List LoggedTransaction → RemainingMetadataIndex → Queues → Queues
with_queue ours queue index q = record q { remaining_ours = queue; ours_index = index }
with_queue theirs queue index q = record q { remaining_theirs = queue; theirs_index = index }

-- `_replace_or_delete_transaction`; `none` is the `IndexError` of an index out of range.
unfoldable pub replace_or_delete_transaction :
    ConflictCheckContext → BranchName → ℕ → Option LoggedTransaction → Queues → Option Queues
unfolding add_transaction remove_transaction
replace_or_delete_transaction context branch i replacement q =
    elim (get_elem? (queue_of branch q) i) [
      | none ↦ none
      | some old ↦
          let index = remove_transaction context (index_of branch q) old in
          elim replacement [
            | none ↦ some (with_queue branch (delete_at (queue_of branch q) i) index q)
            | some new ↦ some (
                with_queue branch (set (queue_of branch q) i new)
                  (add_transaction context index new) q)
          ]
    ]

abbrev pub is_replay_kind : StatementConflict → Bool
is_replay_kind c = elim c.kind [ integrity ↦ true | replay_error ↦ true | _ ↦ false ]

-- `_is_reviewable_pair_conflict`
unfoldable pub is_reviewable_pair_conflict : ConflictPair → Bool
is_reviewable_pair_conflict conflict =
    nonempty conflict.conflicts && all (λ c. not (is_replay_kind c)) conflict.conflicts

-- `_is_current_standalone_replay`
unfoldable pub is_current_standalone_replay : ConflictPair → BranchName → Bool
is_current_standalone_replay conflict current_branch =
    conflict.is_standalone && same_branch conflict.current_branch current_branch

-- `_standalone_head_conflict`
unfoldable pub standalone_head_conflict : StatementConflict → BranchName → ConflictPair
standalone_head_conflict conflict current_branch = record {
  current_branch = current_branch;
  other_index = none;
  ours_sql = "";
  theirs_sql = "";
  conflicts = conflict ∷ [];
  resolution_key = none;
  is_standalone = true;
}

-- The loop of `_unresolved_replay_safety_conflict`.
unfoldable pub first_unsafe_statement : BranchName → List LoggedStatement → Option StatementConflict
unfolding unresolved_replay_block_reason
first_unsafe_statement branch [] = none
first_unsafe_statement branch (s ∷ statements) = elim (unresolved_replay_block_reason s) [
  | none ↦ first_unsafe_statement branch statements
  | some reason ↦ some (record {
    kind = replay_error;
    message = reason;
    scope = branch_scope branch;
    details = ("statement_branch_index", show_int s.branch_index) ∷ [];
  })
]

unfoldable pub unresolved_replay_safety_conflict : LoggedTransaction → Option StatementConflict
unfolding first_unsafe_statement
unresolved_replay_safety_conflict t = first_unsafe_statement t.branch t.statements

-- `PairSideOutcome` and `_pair_side_outcome`
pub data PairSideOutcome : Type 0 where
  unchanged edited deleted : PairSideOutcome

unfoldable pub pair_side_outcome : Bool → Option LoggedTransaction → PairSideOutcome
pair_side_outcome false replacement = unchanged
pair_side_outcome true none = deleted
pair_side_outcome true (some t) = edited
