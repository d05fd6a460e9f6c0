-- ===== src/LogMerge.antt =====
-- src/merge/log_merge.py: replay warnings, grouping by transaction, conflict pairs.
pub mod Grouping
pub mod Warnings
use sqlite_reconcile.Prelude.{
  ℕ, ◌+◌, String, Bool, true, false, Option, none, some, List, [], ◌∷◌, map, if◌then◌else◌,
  get_elem?, any, ◌==◌, nat_eq, string_eq, contains, set_add, list_eq,
}
use text.Mathlib.Text.{starts_with}
use sqlite_reconcile.Metadata.{transaction_metadata}
use sqlite_reconcile.Models.{
  BranchName, ours, theirs, LoggedStatement, LoggedTransaction, ConflictPair, ConflictCheckResult,
  ConflictResolutionKey, all_conflicts, transaction_sql_text, same_branch,
}

abbrev pub acknowledgeable_replay_reasons : List String
acknowledgeable_replay_reasons = "nondeterministic expression cannot be safely materialized" ∷ []

abbrev pub update_from_duplicate_target_warning : String
update_from_duplicate_target_warning =
    "UPDATE FROM has multiple source rows for the same target row"

unfoldable pub replay_warning_reason : LoggedStatement → Option String
replay_warning_reason s = if s.is_replay_safe then none else elim s.replay_block_reason [
  | none ↦ none
  | some reason ↦
      if any (λ prefix. starts_with reason prefix) acknowledgeable_replay_reasons
      then some reason
      else none
]

unfoldable pub pending_replay_warning : LoggedStatement → Option String
unfolding replay_warning_reason
pending_replay_warning s = elim (replay_warning_reason s) [
  | none ↦ none
  | some warning ↦ if contains s.accepted_replay_warnings warning then none else some warning
]

-- `reason or default`
abbrev pub block_reason_or : Option String → String → String
block_reason_or none default = default
block_reason_or (some reason) default = if reason == "" then default else reason

abbrev pub is_accepted_warning : List String → Option String → Bool
is_accepted_warning accepted none = false
is_accepted_warning accepted (some warning) = contains accepted warning

unfoldable pub unresolved_replay_block_reason : LoggedStatement → Option String
unfolding replay_warning_reason
unresolved_replay_block_reason s =
    if s.is_replay_safe
    then none
    else if is_accepted_warning s.accepted_replay_warnings (replay_warning_reason s)
    then none
    else some (block_reason_or s.replay_block_reason "statement is unsafe for replay")

unfoldable pub accept_replay_warning : LoggedStatement → String → LoggedStatement
accept_replay_warning s warning =
    if contains s.accepted_replay_warnings warning
    then s
    else record s { accepted_replay_warnings = set_add s.accepted_replay_warnings warning }

-- A statement joins the run behind it if the ids agree.
abbrev pub push_statement :
    LoggedStatement → List (List LoggedStatement) → List (List LoggedStatement)
push_statement s [] = (s ∷ []) ∷ []
push_statement s ([] ∷ groups) = (s ∷ []) ∷ groups
push_statement s ((t ∷ group) ∷ groups) =
    if s.transaction_id == t.transaction_id
    then (s ∷ t ∷ group) ∷ groups
    else (s ∷ []) ∷ (t ∷ group) ∷ groups

-- `itertools.groupby` on the transaction id: the runs of consecutive equal ids.
unfoldable pub group_by_id : List LoggedStatement → List (List LoggedStatement)
group_by_id [] = []
group_by_id (s ∷ statements) = push_statement s (group_by_id statements)

-- `_logged_transaction`, of a non-empty group.
unfoldable pub logged_transaction : LoggedStatement → List LoggedStatement → ℕ → LoggedTransaction
unfolding transaction_metadata
logged_transaction first statements branch_index = record {
  branch = first.branch;
  branch_index = branch_index;
  transaction_id = first.transaction_id;
  committed_at = first.committed_at;
  statements = first ∷ statements;
  metadata = transaction_metadata (map (λ s. s.metadata) (first ∷ statements));
}

-- The groups are never empty.
unfoldable pub transactions_from : ℕ → List (List LoggedStatement) → List LoggedTransaction
unfolding logged_transaction
transactions_from index [] = []
transactions_from index ([] ∷ groups) = transactions_from (index + 1) groups
transactions_from index ((s ∷ group) ∷ groups) =
    logged_transaction s group index ∷ transactions_from (index + 1) groups

unfoldable pub group_logged_transactions : List LoggedStatement → List LoggedTransaction
unfolding group_by_id transactions_from
group_logged_transactions statements = transactions_from 0 (group_by_id statements)

-- `"" if other is None else other.sql_text`; an index out of range would end the program.
abbrev pub other_sql : List LoggedTransaction → Option ℕ → String
other_sql remaining_other none = ""
other_sql remaining_other (some i) = elim (get_elem? remaining_other i) [
  | none ↦ ""
  | some other ↦ transaction_sql_text other
]

abbrev pub is_none {ℓ} : {A : Type ℓ} → Option A → Bool
is_none none = true
is_none (some a) = false

-- `_current_conflict_pair`
unfoldable pub current_conflict_pair :
    LoggedTransaction
    → List LoggedTransaction
    → BranchName
    → Option ℕ
    → ConflictCheckResult
    → Option ConflictResolutionKey
    → ConflictPair
unfolding all_conflicts transaction_sql_text
current_conflict_pair current remaining_other current_branch other_index result resolution_key =
    record {
      current_branch = current_branch;
      other_index = other_index;
      ours_sql =
          if same_branch current_branch ours
          then transaction_sql_text current
          else other_sql remaining_other other_index;
      theirs_sql =
          if same_branch current_branch theirs
          then transaction_sql_text current
          else other_sql remaining_other other_index;
      conflicts = all_conflicts result;
      resolution_key = resolution_key;
      is_standalone = is_none other_index;
    }
