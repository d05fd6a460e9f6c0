-- ===== src/StaticAnalysis/Matching.antt =====
-- src/merge/static_analysis.py: `static_analysis_matching`, and src/merge/conflict_kinds.py.
use sqlite_reconcile.Prelude.{
  String, Bool, true, ◌&&◌, ◌||◌, Option, none, some, List, [], ◌∷◌, ◌++◌, if◌then◌else◌, ◌==◌,
  nat_eq, string_eq, contains, list_eq, concat,
}
use sqlite_reconcile.Schema.{ConflictCheckContext}
use sqlite_reconcile.Metadata.{TransactionMetadata}
use sqlite_reconcile.Models.{
  BranchName, ours, theirs, same_branch, ConflictKind, write_write, write_read, implicit_insert_key,
  conflict_kind_eq, StatementConflict, pair_scope, ConflictCheckResult, add_conflicts,
  conflict_kind_eq,
}
use sqlite_reconcile.StaticAnalysis.Overlaps.{
  transaction_write_write_overlap, transaction_write_read_overlap,
}
use sqlite_reconcile.StaticAnalysis.Keys.{transaction_implicit_insert_key_conflicts, branch_word}

unfoldable pub kind_enabled : Option (List ConflictKind) → ConflictKind → Bool
kind_enabled none kind = true
kind_enabled (some kinds) kind = contains kinds kind

abbrev pub cascade_conflict_detail : String × String
cascade_conflict_detail = ("metadata_source", "cascade")

unfoldable pub cascade_conflict_details : Bool → List (String × String)
cascade_conflict_details has_cascade = if has_cascade then cascade_conflict_detail ∷ [] else []

unfoldable pub write_read_details : BranchName → BranchName → Bool → List (String × String)
write_read_details writer reader is_cascade =
    ("writer", branch_word writer)
    ∷ ("reader", branch_word reader)
    ∷ (if is_cascade then cascade_conflict_detail ∷ [] else [])

-- `label or "..."`
abbrev pub label_or : Option String → String → String
label_or none default = default
label_or (some label) default = if label == "" then default else label

unfoldable pub branch_display_label : BranchName → Option String → Option String → String
branch_display_label ours ours_label theirs_label = label_or ours_label "local transaction"
branch_display_label theirs ours_label theirs_label = label_or theirs_label "remote transaction"

unfoldable pub write_read_message : BranchName → BranchName → Option String → Option String → String
unfolding branch_display_label
write_read_message writer reader ours_label theirs_label = concat (
    branch_display_label writer ours_label theirs_label
    ∷ " writes columns read by "
    ∷ branch_display_label reader ours_label theirs_label
    ∷ [])

-- The write/read conflict of one direction.
unfoldable pub write_read_conflict :
    BranchName → BranchName → Option String → Option String → Bool → StatementConflict
unfolding write_read_message write_read_details
write_read_conflict writer reader ours_label theirs_label has_cascade = record {
  kind = write_read;
  message = write_read_message writer reader ours_label theirs_label;
  scope = pair_scope;
  details = write_read_details writer reader has_cascade;
}

unfoldable pub write_write_conflict : Bool → StatementConflict
unfolding cascade_conflict_details
write_write_conflict has_cascade = record {
  kind = write_write;
  message = "transactions write overlapping table columns";
  scope = pair_scope;
  details = cascade_conflict_details has_cascade;
}

-- `current_branch is None or current_branch == branch`
abbrev pub checks_from : Option BranchName → BranchName → Bool
checks_from none branch = true
checks_from (some current) branch = same_branch current branch

abbrev pub either_cascades : TransactionMetadata → TransactionMetadata → Bool
either_cascades o t = o.has_cascade_effects || t.has_cascade_effects

unfoldable pub static_conflicts :
    ConflictCheckContext
    → TransactionMetadata
    → TransactionMetadata
    → Option (List ConflictKind)
    → Option BranchName
    → Option String
    → Option String
    → List StatementConflict
unfolding kind_enabled write_read_conflict write_write_conflict
static_conflicts context o t kinds current_branch ours_label theirs_label =
    (if kind_enabled kinds implicit_insert_key
      then transaction_implicit_insert_key_conflicts context o t
      else [])
    ++ ((if kind_enabled kinds write_write && transaction_write_write_overlap o t
          then write_write_conflict (either_cascades o t) ∷ []
          else [])
        ++ (if kind_enabled kinds write_read
            then (if checks_from current_branch ours && transaction_write_read_overlap o t
                then write_read_conflict ours theirs ours_label theirs_label (either_cascades o t)
                  ∷ []
                else [])
              ++ (if checks_from current_branch theirs && transaction_write_read_overlap t o
                  then write_read_conflict theirs ours ours_label theirs_label (either_cascades t o)
                    ∷ []
                  else [])
            else []))

-- The source adds the conflicts to the result one step after the other, in this order.
unfoldable pub static_analysis_matching :
    ConflictCheckContext
    → TransactionMetadata
    → TransactionMetadata
    → Option (List ConflictKind)
    → Option BranchName
    → Option String
    → Option String
    → ConflictCheckResult
unfolding static_conflicts add_conflicts
static_analysis_matching context o t kinds current_branch ours_label theirs_label =
    add_conflicts [] (static_conflicts context o t kinds current_branch ours_label theirs_label)
