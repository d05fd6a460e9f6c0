-- ===== src/Remaining/Counts.antt =====
-- src/merge/remaining_metadata.py: per-column counters.
use sqlite_reconcile.Prelude.{
  ℕ, ◌+◌, ◌-◌, String, Bool, true, false, not, ◌||◌, [], ◌∷◌, leb, if◌then◌else◌, nonempty, any,
  nat_eq, string_eq, contains, list_eq, Dict, has_key, lookup_or, insert, remove,
}
use sqlite_reconcile.Utils.{Columns, ColumnMap, all_columns}

abbrev pub ColumnCounts : Type 0
ColumnCounts = Dict String ℕ

abbrev pub ColumnCountMap : Type 0
ColumnCountMap = Dict String ColumnCounts

-- `delta=1` and `delta=-1`
pub data Delta : Type 0 where
  up down : Delta

-- `next_count` and its test; on ℕ, one less than 0 is 0, which the source drops as well.
unfoldable pub bump_column : Delta → ColumnCounts → String → ColumnCounts
bump_column up counts column = insert counts column (lookup_or counts column 0 + 1)
bump_column down counts column =
    let next_count = lookup_or counts column 0 - 1 in
    if leb next_count 0 then remove counts column else insert counts column next_count

unfoldable pub bump_columns : Delta → ColumnCounts → Columns → ColumnCounts
unfolding bump_column
bump_columns delta counts [] = counts
bump_columns delta counts (column ∷ columns) =
    bump_columns delta (bump_column delta counts column) columns

-- `_update_column_counts`
unfoldable pub update_column_counts : Delta → ColumnCountMap → String → Columns → ColumnCountMap
unfolding bump_columns
update_column_counts delta counts_by_table table columns =
    let table_counts = bump_columns delta (lookup_or counts_by_table table []) columns in
    if nonempty table_counts
    then insert counts_by_table table table_counts
    else remove counts_by_table table

-- `_column_counter_overlap`
unfoldable pub column_counter_overlap : ColumnCountMap → String → Columns → Bool
column_counter_overlap counts_by_table table columns =
    let table_counts = lookup_or counts_by_table table [] in
    if not (nonempty table_counts) || not (nonempty columns)
    then false
    else if has_key table_counts all_columns
    then true
    else if contains columns all_columns
    then nonempty table_counts
    else any (has_key table_counts) columns

-- `_column_sets_overlap_counter`
unfoldable pub column_sets_overlap_counter : ColumnMap → ColumnCountMap → Bool
unfolding column_counter_overlap
column_sets_overlap_counter columns_by_table counts_by_table =
    any (λ x. column_counter_overlap counts_by_table x.0 x.1) columns_by_table
