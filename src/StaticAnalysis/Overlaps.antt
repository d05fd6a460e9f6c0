-- ===== src/StaticAnalysis/Overlaps.antt =====
-- src/merge/static_analysis.py: write/write and write/read overlaps.
use sqlite_reconcile.Prelude.{
  ℕ, ◌+◌, String, Bool, true, false, not, ◌&&◌, ◌||◌, none, some, List, [], ◌∷◌, map, flat_map,
  if◌then◌else◌, nonempty, any, filter_by, ◌==◌, nat_eq, string_eq, list_eq, lookup,
}
use sqlite_reconcile.Utils.{Columns, ColumnMap, column_overlap}
use sqlite_reconcile.Metadata.{
  StatementMetadata, TransactionMetadata, is_insert_statement, is_delete_statement,
  required_updated_table,
}

-- `_columns_by_table_overlap`
unfoldable pub columns_by_table_overlap : ColumnMap → ColumnMap → Bool
unfolding column_overlap
columns_by_table_overlap [] right = false
columns_by_table_overlap ((table, left_columns) ∷ left) right =
    let rest = columns_by_table_overlap left right in
    elim (lookup right table) [
      | none ↦ rest
      | some right_columns ↦ nonempty (column_overlap left_columns right_columns) || rest
    ]

abbrev pub writes_table : StatementMetadata → String → Bool
writes_table m table = elim m.table_updated [ none ↦ false | some t ↦ t == table ]

-- `_metadata_write_overlap`
unfoldable pub metadata_write_overlap : StatementMetadata → String → Columns → Columns
unfolding column_overlap
metadata_write_overlap m table columns =
    if writes_table m table then column_overlap m.columns_updated columns else []

-- `_same_written_table`
unfoldable pub same_written_table : StatementMetadata → StatementMetadata → Bool
same_written_table left right = elim left.table_updated [
  | none ↦ false
  | some table ↦ writes_table right table
]

-- `_direct_write_write_overlap`, with `_written_columns`
unfoldable pub direct_write_write_overlap : StatementMetadata → StatementMetadata → Bool
unfolding same_written_table metadata_write_overlap
direct_write_write_overlap ours theirs =
    if not (same_written_table ours theirs)
    then false
    else if is_delete_statement ours && is_delete_statement theirs
    then false
    else if is_insert_statement ours || is_insert_statement theirs
    then false
    else nonempty (metadata_write_overlap theirs (required_updated_table ours) ours.columns_updated)

-- `_metadata_write_write_overlap`
unfoldable pub metadata_write_write_overlap : StatementMetadata → StatementMetadata → Bool
unfolding direct_write_write_overlap columns_by_table_overlap
metadata_write_write_overlap ours theirs =
    if direct_write_write_overlap ours theirs
    then true
    else if not (ours.has_cascade_effects || theirs.has_cascade_effects)
    then false
    else columns_by_table_overlap ours.tables_updated_to_columns_updated
        theirs.tables_updated_to_columns_updated

-- `_metadata_reads_any`
unfoldable pub metadata_reads_any : StatementMetadata → ColumnMap → Bool
unfolding columns_by_table_overlap
metadata_reads_any m columns_by_table =
    columns_by_table_overlap m.tables_referenced_to_columns_referenced columns_by_table

-- `_transaction_write_write_overlap`
unfoldable pub transaction_write_write_overlap : TransactionMetadata → TransactionMetadata → Bool
unfolding metadata_write_write_overlap
transaction_write_write_overlap ours theirs =
    any (λ o. any (λ t. metadata_write_write_overlap o t) theirs.statements) ours.statements

-- `_transaction_write_read_overlap`
unfoldable pub transaction_write_read_overlap : TransactionMetadata → TransactionMetadata → Bool
unfolding columns_by_table_overlap
transaction_write_read_overlap writer reader =
    columns_by_table_overlap writer.tables_updated_to_columns_updated
      reader.tables_referenced_to_columns_referenced

-- `enumerate(xs)` from an index on
abbrev pub enumerate_from {ℓ} : {A : Type ℓ} → ℕ → List A → List (ℕ × A)
enumerate_from i [] = []
enumerate_from i (x ∷ xs) = (i, x) ∷ enumerate_from (i + 1) xs

unfoldable pub write_write_candidate_pairs :
    TransactionMetadata → TransactionMetadata → List (ℕ × ℕ)
unfolding metadata_write_write_overlap
write_write_candidate_pairs ours theirs =
    flat_map
      (λ o.
        map (λ t. (o.0, t.0))
          (filter_by (λ t. metadata_write_write_overlap o.1 t.1)
            (enumerate_from 0 theirs.statements)))
      (enumerate_from 0 ours.statements)

unfoldable pub write_read_candidate_indexes : TransactionMetadata → TransactionMetadata → List ℕ
unfolding metadata_reads_any
write_read_candidate_indexes writer reader =
    map (λ r. r.0)
      (filter_by (λ r. metadata_reads_any r.1 writer.tables_updated_to_columns_updated)
        (enumerate_from 0 reader.statements))
