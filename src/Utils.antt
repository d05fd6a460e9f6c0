-- ===== src/Utils.antt =====
-- src/merge/utils.py: sets of columns and maps from tables to columns.
-- A Python set is a list in the order of insertion; "*" stands for all columns of a table.
pub mod Overlap
pub mod Covers
use sqlite_reconcile.Prelude.{
  Bool, String, List, [], ◌∷◌, Dict, any, contains, filter_by, if◌then◌else◌, insert, lookup,
  lookup_or, nonempty, none, set_update, some, ◌&&◌, ◌==◌, ◌||◌, false, string_eq,
}

abbrev pub Columns : Type 0
Columns = List String

abbrev pub ColumnMap : Type 0
ColumnMap = Dict String Columns

abbrev pub all_columns : String
all_columns = "*"

unfoldable pub add_columns_to_column_map : ColumnMap → String → Columns → ColumnMap
add_columns_to_column_map columns_by_table table columns =
    let existing = lookup_or columns_by_table table [] in
    if nonempty columns
    then if contains existing all_columns
      then columns_by_table
      else if contains columns all_columns
      then insert columns_by_table table (all_columns ∷ [])
      else insert columns_by_table table (set_update existing columns)
    else columns_by_table

unfoldable pub add_columns_by_table : ColumnMap → ColumnMap → ColumnMap
unfolding add_columns_to_column_map
add_columns_by_table columns_by_table [] = columns_by_table
add_columns_by_table columns_by_table ((table, columns) ∷ extra) =
    add_columns_by_table (add_columns_to_column_map columns_by_table table columns) extra

unfoldable pub column_overlap : Columns → Columns → Columns
column_overlap left right =
    if nonempty left && nonempty right
    then if contains left all_columns && contains right all_columns
      then all_columns ∷ []
      else if contains left all_columns
      then right
      else if contains right all_columns
      then left
      else filter_by (contains right) left
    else []

-- Two names of columns may stand for the same column.
abbrev pub same_column : String → String → Bool
same_column c d = c == d || (c == all_columns || d == all_columns)

-- Some column may be meant by both sets.
abbrev pub columns_meet : Columns → Columns → Bool
columns_meet left right = any (λ c. any (λ d. same_column c d) right) left

-- A map names a column of a table, itself or by "*".
abbrev pub names_column : Columns → String → Bool
names_column columns c = contains columns all_columns || contains columns c

abbrev pub covers : ColumnMap → String → String → Bool
covers m table c = elim (lookup m table) [ none ↦ false | some columns ↦ names_column columns c ]

-- Some column of some table may be meant by both maps.
abbrev pub maps_meet : ColumnMap → ColumnMap → Bool
maps_meet m n = any (λ x. any (λ y. x.0 == y.0 && columns_meet x.1 y.1) n) m
