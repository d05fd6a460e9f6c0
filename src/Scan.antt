-- ===== src/Scan.antt =====
-- src/merge/conflict_detection.py: the rolling scan of one transaction against the other branch.
-- The execution scanner of src/merge/remaining_execution.py, which replays on SQLite, is an
-- interface: a state and four operations.
pub mod Quiet
use sqlite_reconcile.Prelude.{
  ℕ, ◌+◌, Bool, true, false, not, Option, none, some, List, [], ◌∷◌, map, if◌then◌else◌, drop, ◌==◌,
  nat_eq, string_eq, contains, set_add, set_update, list_eq,
}
use sqlite_reconcile.Schema.{ConflictCheckContext}
use sqlite_reconcile.Models.{
  BranchName, ours, theirs, ConflictKind, conflict_kind_eq, LoggedTransaction, StatementConflict,
  ConflictCheckResult, has_conflict, all_conflicts, ConflictResolutionKey, transaction_label,
  sql_text,
}
use sqlite_reconcile.Models.Keys.{key_eq}
use sqlite_reconcile.StaticAnalysis.Matching.{static_analysis_matching}

pub record ExecutionScanner : Type 1 where
  pub State : Type 0
  pub start : State → State × ConflictCheckResult
  pub check_next :
      State
      → LoggedTransaction
      → LoggedTransaction
      → ConflictCheckResult
      → State × ConflictCheckResult
  pub accept_next : State → LoggedTransaction → ConflictCheckResult → State × ConflictCheckResult
  pub enable_kinds : State → List ConflictKind → State
  pub close : State → State

unfoldable pub conflict_resolution_key :
    LoggedTransaction → LoggedTransaction → List StatementConflict → ConflictResolutionKey
conflict_resolution_key o t conflicts = record {
  ours_id = o.transaction_id;
  ours_indexes = map (λ s. s.branch_index) o.statements;
  ours_sql = map sql_text o.statements;
  theirs_id = t.transaction_id;
  theirs_indexes = map (λ s. s.branch_index) t.statements;
  theirs_sql = map sql_text t.statements;
  conflicts = map (λ c. (c.kind, c.scope, c.message)) conflicts;
}

-- What a scan reports: the index on the other side, the conflicts, and the key to accept them by.
abbrev pub ScanConflict : Type 0
ScanConflict = Option ℕ × ConflictCheckResult × Option ConflictResolutionKey

-- The verdict on one opposite transaction.
pub data Verdict : Type 0 where
  advance : Verdict
  report : ConflictCheckResult → ConflictResolutionKey → Verdict

module _ (x : ExecutionScanner) (context : ConflictCheckContext) where
  open x use {State, start, check_next, accept_next}

  -- `OrderedRemainingConflictScanner`
  pub record Scanner : Type 0 where
    pub current_transaction : LoggedTransaction
    pub current_branch : BranchName
    pub enabled_kinds : List ConflictKind
    pub accepted_pair_keys : List ConflictResolutionKey
    pub state : State
    pub started : Bool
    pub next_other_index : ℕ

  abbrev pub as_ours : Scanner → LoggedTransaction → LoggedTransaction
  as_ours s other = elim s.current_branch [ ours ↦ s.current_transaction | theirs ↦ other ]

  abbrev pub as_theirs : Scanner → LoggedTransaction → LoggedTransaction
  as_theirs s other = elim s.current_branch [ ours ↦ other | theirs ↦ s.current_transaction ]

  abbrev pub static_result : Scanner → LoggedTransaction → ConflictCheckResult
  static_result s other =
      static_analysis_matching context (as_ours s other).metadata (as_theirs s other).metadata
        (some s.enabled_kinds) (some s.current_branch) (some (transaction_label (as_ours s other)))
        (some (transaction_label (as_theirs s other)))

  unfoldable pub enable_scan_kinds : Scanner → List ConflictKind → Scanner
  enable_scan_kinds s kinds = record s {
    enabled_kinds = set_update s.enabled_kinds kinds;
    state = x.enable_kinds s.state kinds;
  }

  unfoldable pub accept_resolution_key : Scanner → Option ConflictResolutionKey → Scanner
  accept_resolution_key s none = s
  accept_resolution_key s (some key) = record s {
    accepted_pair_keys = set_add s.accepted_pair_keys key;
  }

  -- `accept_current_conflict`; `none` is the `RuntimeError` of a conflict at another position, and
  -- the transaction is `remaining_other[other_index]`.
  unfoldable pub accept_current_conflict :
      Scanner
      → LoggedTransaction
      → ℕ
      → ConflictCheckResult
      → Option ConflictResolutionKey
      → Option (Scanner × Option ScanConflict)
  unfolding accept_resolution_key
  accept_current_conflict s other other_index result key =
      let keyed = accept_resolution_key s key in
      let (state', advance_result) = accept_next keyed.state other result in
      if not (other_index == s.next_other_index)
      then none
      else if has_conflict advance_result
      then some (record keyed { state = state' }, some (some other_index, advance_result, key))
      else some
          (record keyed { state = state'; next_other_index = keyed.next_other_index + 1 }, none)

  -- One round of the loop of `next_conflict`.
  unfoldable pub visit : Scanner → LoggedTransaction → Scanner × Verdict
  unfolding conflict_resolution_key
  visit s other =
      let (state', result) =
        check_next s.state (as_ours s other) (as_theirs s other) (static_result s other) in
      let key =
        conflict_resolution_key (as_ours s other) (as_theirs s other) (all_conflicts result) in
      let (accepted_state, advance_result) = accept_next state' other result in
      let next = s.next_other_index + 1 in
      if has_conflict result
      then if contains s.accepted_pair_keys key
        then if has_conflict advance_result
          then (record s { state = accepted_state }, report advance_result key)
          else (record s { state = accepted_state; next_other_index = next }, advance)
        else (record s { state = state' }, report result key)
      else (record s { state = state'; next_other_index = next }, advance)

  -- The loop over the opposite transactions from `next_other_index` on.
  unfoldable pub visit_all : Scanner → List LoggedTransaction → Scanner × Option ScanConflict
  unfolding visit
  visit_all s [] = (s, none)
  visit_all s (other ∷ remaining) =
      let (s', verdict) = visit s other in
      elim verdict [
        | advance ↦ visit_all s' remaining
        | report result key ↦ (s', some (some s'.next_other_index, result, some key))
      ]

  unfoldable pub next_conflict : Scanner → List LoggedTransaction → Scanner × Option ScanConflict
  unfolding visit_all
  next_conflict s remaining_other =
      let (state', start_result) = start s.state in
      let s' = record s { started = true; state = state' } in
      if s.started
      then visit_all s (drop s.next_other_index remaining_other)
      else if has_conflict start_result
      then (s', some (none, start_result, none))
      else visit_all s' (drop s'.next_other_index remaining_other)

  unfoldable pub new_scanner :
      State
      → LoggedTransaction
      → BranchName
      → List ConflictKind
      → List ConflictResolutionKey
      → Scanner
  new_scanner state current branch enabled_kinds accepted_pair_keys = record {
    current_transaction = current;
    current_branch = branch;
    enabled_kinds = enabled_kinds;
    accepted_pair_keys = accepted_pair_keys;
    state = state;
    started = false;
    next_other_index = 0;
  }
