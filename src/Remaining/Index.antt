-- ===== src/Remaining/Index.antt =====
-- src/merge/remaining_metadata.py: `RemainingMetadataIndex`.
use sqlite_reconcile.Prelude.{
  ℕ, ◌+◌, ◌-◌, String, Bool, none, some, List, [], ◌∷◌, if◌then◌else◌, ◌==◌, nat_eq, string_eq,
  list_eq,
}
use sqlite_reconcile.Utils.{Columns}
use sqlite_reconcile.Cascade.{CascadeWriteEvent, is_update}
use sqlite_reconcile.Schema.{ConflictCheckContext}
use sqlite_reconcile.Metadata.{
  StatementMetadata, required_updated_table, insert_kind, update_kind, delete_kind, other_kind,
}
use sqlite_reconcile.Models.{LoggedStatement, LoggedTransaction}
use sqlite_reconcile.StaticAnalysis.Keys.{omitted_integer_primary_key_column}
use sqlite_reconcile.Remaining.Counts.{
  ColumnCountMap, Delta, up, down, update_column_counts, column_counter_overlap,
}

pub record RemainingMetadataIndex : Type 0 where
  pub tables_referenced_to_column_counts : ColumnCountMap
  pub write_write_column_counts : ColumnCountMap
  pub create_or_change_key_column_counts : ColumnCountMap
  pub remove_or_change_key_column_counts : ColumnCountMap
  pub update_column_counts : ColumnCountMap
  pub omitted_integer_primary_key_counts : ColumnCountMap
  pub transaction_count : ℕ

abbrev pub empty_index : RemainingMetadataIndex
empty_index = record {
  tables_referenced_to_column_counts = [];
  write_write_column_counts = [];
  create_or_change_key_column_counts = [];
  remove_or_change_key_column_counts = [];
  update_column_counts = [];
  omitted_integer_primary_key_counts = [];
  transaction_count = 0;
}

abbrev pub is_empty : RemainingMetadataIndex → Bool
is_empty index = index.transaction_count == 0

-- The branches on the kind of the statement.
unfoldable pub update_writes :
    Delta → StatementMetadata → RemainingMetadataIndex → RemainingMetadataIndex
unfolding update_column_counts
update_writes delta m index =
    let table = required_updated_table m in
    let bump =
      λ (counts : ColumnCountMap). update_column_counts delta counts table m.columns_updated in
    elim m.statement_kind [
      | insert_kind ↦ record index {
        create_or_change_key_column_counts = bump index.create_or_change_key_column_counts;
      }
      | update_kind ↦ record index {
        write_write_column_counts = bump index.write_write_column_counts;
        create_or_change_key_column_counts = bump index.create_or_change_key_column_counts;
        remove_or_change_key_column_counts = bump index.remove_or_change_key_column_counts;
        update_column_counts = bump index.update_column_counts;
      }
      | delete_kind ↦ record index {
        write_write_column_counts = bump index.write_write_column_counts;
        remove_or_change_key_column_counts = bump index.remove_or_change_key_column_counts;
      }
      | other_kind ↦ index
    ]

-- A loop of `_update_column_counts` over the entries of a map.
unfoldable pub update_entries : Delta → ColumnCountMap → List (String × Columns) → ColumnCountMap
unfolding update_column_counts
update_entries delta counts [] = counts
update_entries delta counts ((table, columns) ∷ entries) =
    update_entries delta (update_column_counts delta counts table columns) entries

unfoldable pub update_reads :
    Delta → StatementMetadata → RemainingMetadataIndex → RemainingMetadataIndex
unfolding update_entries
update_reads delta m index = record index {
  tables_referenced_to_column_counts =
      update_entries delta index.tables_referenced_to_column_counts
        m.tables_referenced_to_columns_referenced;
}

-- `_update_cascade_write_event`
unfoldable pub update_cascade_write_event :
    Delta → RemainingMetadataIndex → CascadeWriteEvent → RemainingMetadataIndex
unfolding update_column_counts
update_cascade_write_event delta index event =
    let bump =
      λ (counts : ColumnCountMap). update_column_counts delta counts event.table event.columns in
    let written = record index {
      write_write_column_counts = bump index.write_write_column_counts;
      remove_or_change_key_column_counts = bump index.remove_or_change_key_column_counts;
    } in
    if is_update event.kind
    then record written {
      create_or_change_key_column_counts = bump index.create_or_change_key_column_counts;
      update_column_counts = bump index.update_column_counts;
    }
    else written

unfoldable pub update_cascade_write_events :
    Delta → RemainingMetadataIndex → List CascadeWriteEvent → RemainingMetadataIndex
unfolding update_cascade_write_event
update_cascade_write_events delta index [] = index
update_cascade_write_events delta index (event ∷ events) =
    update_cascade_write_events delta (update_cascade_write_event delta index event) events

unfoldable pub update_omitted_key :
    ConflictCheckContext
    → Delta
    → StatementMetadata
    → RemainingMetadataIndex
    → RemainingMetadataIndex
unfolding omitted_integer_primary_key_column update_column_counts
update_omitted_key context delta m index = elim m.statement_kind [
  | insert_kind ↦ elim (omitted_integer_primary_key_column context m) [
    | none ↦ index
    | some omitted_key ↦ record index {
      omitted_integer_primary_key_counts =
          update_column_counts delta index.omitted_integer_primary_key_counts
            (required_updated_table m) (omitted_key ∷ []);
    }
  ]
  | _ ↦ index
]

-- `_update_statement`
unfoldable pub update_statement :
    ConflictCheckContext
    → Delta
    → RemainingMetadataIndex
    → StatementMetadata
    → RemainingMetadataIndex
unfolding update_writes update_reads update_cascade_write_events update_omitted_key
update_statement context delta index m = update_omitted_key context delta m (
    update_cascade_write_events delta (update_reads delta m (update_writes delta m index))
      m.cascade_write_events)

-- `_update_transaction`
unfoldable pub update_statements :
    ConflictCheckContext
    → Delta
    → RemainingMetadataIndex
    → List LoggedStatement
    → RemainingMetadataIndex
unfolding update_statement
update_statements context delta index [] = index
update_statements context delta index (s ∷ statements) =
    update_statements context delta (update_statement context delta index s.metadata) statements

unfoldable pub add_transaction :
    ConflictCheckContext → RemainingMetadataIndex → LoggedTransaction → RemainingMetadataIndex
unfolding update_statements
add_transaction context index t =
    let updated = update_statements context up index t.statements in
    record updated { transaction_count = updated.transaction_count + 1 }

-- A transaction is taken out after it was put in, so the count is positive here.
unfoldable pub remove_transaction :
    ConflictCheckContext → RemainingMetadataIndex → LoggedTransaction → RemainingMetadataIndex
unfolding update_statements
remove_transaction context index t =
    let updated = update_statements context down index t.statements in
    record updated { transaction_count = updated.transaction_count - 1 }

abbrev pub add_transactions :
    ConflictCheckContext → RemainingMetadataIndex → List LoggedTransaction → RemainingMetadataIndex
add_transactions context index [] = index
add_transactions context index (t ∷ transactions) =
    add_transactions context (add_transaction context index t) transactions

-- `from_transactions`
unfoldable pub from_transactions :
    ConflictCheckContext → List LoggedTransaction → RemainingMetadataIndex
unfolding add_transaction
from_transactions context transactions = add_transactions context empty_index transactions

abbrev pub has_create_or_change_key : RemainingMetadataIndex → String → Columns → Bool
has_create_or_change_key index = column_counter_overlap index.create_or_change_key_column_counts

abbrev pub has_remove_or_change_key : RemainingMetadataIndex → String → Columns → Bool
has_remove_or_change_key index = column_counter_overlap index.remove_or_change_key_column_counts

abbrev pub has_update_write : RemainingMetadataIndex → String → Columns → Bool
has_update_write index = column_counter_overlap index.update_column_counts

abbrev pub has_omitted_integer_primary_key : RemainingMetadataIndex → String → String → Bool
has_omitted_integer_primary_key index table column =
    column_counter_overlap index.omitted_integer_primary_key_counts table (column ∷ [])
