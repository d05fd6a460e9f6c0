-- ===== src/Mergetool/Scanning.antt =====
-- src/merge/terminal_mergetool.py, src/merge/log_merge.py: the scan of the head of a queue.
use sqlite_reconcile.Prelude.{
  Option, none, some, List, if◌then◌else◌, get_elem?, nonempty, nat_eq, string_eq, list_eq,
}
use sqlite_reconcile.Schema.{ConflictCheckContext}
use sqlite_reconcile.Models.{
  BranchName, ConflictPair, LoggedTransaction, ConflictResolutionKey, result_of,
}
use sqlite_reconcile.Models.Keys.{int_eq, scope_eq, summary_eq, key_eq}
use sqlite_reconcile.Remaining.Index.{RemainingMetadataIndex}
use sqlite_reconcile.Remaining.Checks.{remaining_individual_check_kinds}
use sqlite_reconcile.LogMerge.{current_conflict_pair}
use sqlite_reconcile.Scan.{
  Scanner, ScanConflict, new_scanner, next_conflict, accept_current_conflict, enable_scan_kinds,
}
use sqlite_reconcile.Mergetool.State.{Environment}

module _ (x : Environment) (context : ConflictCheckContext) where
  open x use {scanner}

  -- `_RemainingCurrentConflictScan`: no scanner where no kind of conflict needs a check.
  pub record ConflictScan : Type 0 where
    pub current : LoggedTransaction
    pub current_branch : BranchName
    pub active : Option (Scanner scanner context)

  unfoldable pub open_scan :
      scanner.State
      → LoggedTransaction
      → BranchName
      → RemainingMetadataIndex
      → List ConflictResolutionKey
      → ConflictScan
  unfolding remaining_individual_check_kinds new_scanner
  open_scan world current branch index keys =
      let kinds = remaining_individual_check_kinds context current index in
      record {
        current = current;
        current_branch = branch;
        active =
            if nonempty kinds
            then some (new_scanner scanner context world current branch kinds keys)
            else none;
      }

  abbrev pub pair_of : ConflictScan → List LoggedTransaction → ScanConflict → ConflictPair
  pair_of scan remaining_other (other_index, result, key) =
      current_conflict_pair scan.current remaining_other scan.current_branch other_index result key

  -- `_RemainingCurrentConflictScan.next_conflict`
  unfoldable pub scan_next :
      scanner.State
      → ConflictScan
      → List LoggedTransaction
      → scanner.State × ConflictScan × Option ConflictPair
  unfolding next_conflict
  scan_next world scan remaining_other = elim scan.active [
    | none ↦ (world, scan, none)
    | some active ↦
        let (active', conflict) =
          next_conflict scanner context (record active { state = world }) remaining_other in
        let scan' = record scan { active = some active' } in
        (
          active'.state,
          scan',
          elim conflict [ none ↦ none | some c ↦ some (pair_of scan remaining_other c) ],
        )
  ]

  -- `_RemainingCurrentConflictScan.accept_current_conflict`; `none` is a `RuntimeError` or an
  -- `IndexError`.
  unfoldable pub scan_accept :
      scanner.State
      → ConflictScan
      → ConflictPair
      → List LoggedTransaction
      → Option (scanner.State × ConflictScan × Option ConflictPair)
  unfolding accept_current_conflict result_of
  scan_accept world scan conflict remaining_other = elim scan.active [
    | none ↦ none
    | some active ↦ elim conflict.other_index [
      | none ↦ none
      | some i ↦ elim (get_elem? remaining_other i) [
        | none ↦ none
        | some other ↦
            elim (accept_current_conflict scanner context (record active { state = world }) other i
              (result_of conflict.conflicts) conflict.resolution_key) [
                | none ↦ none
                | some (active', left) ↦ some (
                  active'.state,
                  record scan { active = some active' },
                  elim left [ none ↦ none | some c ↦ some (pair_of scan remaining_other c) ],
                )
              ]
      ]
    ]
  ]

  -- `enable_checks_after_other_edit`; `none` is the `RuntimeError` of a scan with no scanner.
  unfoldable pub scan_enable :
      scanner.State → ConflictScan → RemainingMetadataIndex → Option (scanner.State × ConflictScan)
  unfolding remaining_individual_check_kinds enable_scan_kinds
  scan_enable world scan index = elim scan.active [
    | none ↦ none
    | some active ↦
        let active' =
          enable_scan_kinds scanner context (record active { state = world })
            (remaining_individual_check_kinds context scan.current index) in
        some (active'.state, record scan { active = some active' })
  ]

  -- `scan.close()`, where a scan is open
  unfoldable pub close_scan : scanner.State → Option ConflictScan → scanner.State
  close_scan world none = world
  close_scan world (some scan) = elim scan.active [
    | none ↦ world
    | some active ↦ scanner.close world
  ]
