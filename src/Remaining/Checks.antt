-- ===== src/Remaining/Checks.antt =====
-- src/merge/remaining_metadata.py: the kinds of conflict that need an individual check.
use sqlite_reconcile.Prelude.{
  Bool, false, not, ◌&&◌, ◌||◌, none, some, List, [], ◌∷◌, ◌++◌, if◌then◌else◌, any, nat_eq,
  string_eq, list_eq, has_key, lookup_or,
}
use sqlite_reconcile.Utils.{all_columns}
use sqlite_reconcile.Cascade.{CascadeWriteEvent, is_update, is_delete}
use sqlite_reconcile.Schema.{
  ConflictCheckContext, foreign_key_edges_by_parent, foreign_key_edges_by_child,
}
use sqlite_reconcile.Metadata.{
  StatementMetadata, required_updated_table, insert_kind, update_kind, delete_kind,
}
use sqlite_reconcile.Models.{
  LoggedTransaction, ConflictKind, write_write, write_read, implicit_insert_key, integrity,
}
use sqlite_reconcile.StaticAnalysis.Keys.{
  omitted_integer_primary_key_column, transaction_metadata_may_create_or_change_key,
  transaction_metadata_may_remove_or_change_key,
}
use sqlite_reconcile.Remaining.Counts.{column_counter_overlap, column_sets_overlap_counter}
use sqlite_reconcile.Remaining.Index.{
  RemainingMetadataIndex, is_empty, has_create_or_change_key, has_remove_or_change_key,
  has_update_write, has_omitted_integer_primary_key,
}

-- The two tests of a cascade event in `_write_write_conflict_possible`.
unfoldable pub event_write_write_possible : RemainingMetadataIndex → CascadeWriteEvent → Bool
unfolding column_counter_overlap
event_write_write_possible index event =
    (is_update event.kind
      && column_counter_overlap index.write_write_column_counts event.table event.columns)
    || (is_delete event.kind
        && column_counter_overlap index.update_column_counts event.table (all_columns ∷ []))

unfoldable pub statement_write_write_possible : RemainingMetadataIndex → StatementMetadata → Bool
unfolding column_counter_overlap event_write_write_possible
statement_write_write_possible index m =
    (elim m.statement_kind [
      | update_kind ↦
          column_counter_overlap index.write_write_column_counts (required_updated_table m)
            m.columns_updated
      | delete_kind ↦
          column_counter_overlap index.update_column_counts (required_updated_table m)
            (all_columns ∷ [])
      | _ ↦ false
    ])
    || any (event_write_write_possible index) m.cascade_write_events

-- `_write_write_conflict_possible`
unfoldable pub write_write_conflict_possible : LoggedTransaction → RemainingMetadataIndex → Bool
unfolding statement_write_write_possible
write_write_conflict_possible current index =
    any (λ s. statement_write_write_possible index s.metadata) current.statements

unfoldable pub statement_implicit_key_possible :
    ConflictCheckContext → RemainingMetadataIndex → StatementMetadata → Bool
unfolding column_counter_overlap omitted_integer_primary_key_column
statement_implicit_key_possible context index m =
    let table = required_updated_table m in
    elim m.statement_kind [
      | update_kind ↦
          column_counter_overlap index.omitted_integer_primary_key_counts table m.columns_updated
      | insert_kind ↦
          if not (has_key index.omitted_integer_primary_key_counts table)
            && not (has_key index.update_column_counts table)
          then false
          else elim (omitted_integer_primary_key_column context m) [
            | none ↦ false
            | some omitted_key ↦
                has_omitted_integer_primary_key index table omitted_key
                || has_update_write index table (omitted_key ∷ [])
          ]
      | _ ↦ false
    ]

-- `_implicit_insert_key_conflict_possible`
unfoldable pub implicit_insert_key_conflict_possible :
    ConflictCheckContext → LoggedTransaction → RemainingMetadataIndex → Bool
unfolding statement_implicit_key_possible
implicit_insert_key_conflict_possible context current index =
    any (λ s. statement_implicit_key_possible context index s.metadata) current.statements

-- `_key_constraint_conflict_possible_with_index`
unfoldable pub key_constraint_conflict_possible_with_index :
    ConflictCheckContext → LoggedTransaction → RemainingMetadataIndex → Bool
unfolding transaction_metadata_may_create_or_change_key column_counter_overlap
key_constraint_conflict_possible_with_index context current index =
    any
      (λ x.
        any
          (λ key_columns.
            transaction_metadata_may_create_or_change_key current.metadata x.0 key_columns
            && has_create_or_change_key index x.0 key_columns)
          (lookup_or context.schema_cache.key_column_sets x.0 []))
      current.metadata.tables_updated_to_columns_updated

-- `_foreign_key_constraint_conflict_possible_with_index`
unfoldable pub foreign_key_constraint_conflict_possible_with_index :
    ConflictCheckContext → LoggedTransaction → RemainingMetadataIndex → Bool
unfolding foreign_key_edges_by_parent foreign_key_edges_by_child column_counter_overlap
    transaction_metadata_may_create_or_change_key transaction_metadata_may_remove_or_change_key
foreign_key_constraint_conflict_possible_with_index context current index =
    any
      (λ x.
        any
          (λ edge.
            transaction_metadata_may_remove_or_change_key current.metadata edge.parent_table
              edge.parent_columns
            && has_create_or_change_key index edge.child_table edge.child_columns)
          (lookup_or (foreign_key_edges_by_parent context) x.0 [])
        || any
            (λ edge.
              transaction_metadata_may_create_or_change_key current.metadata edge.child_table
                edge.child_columns
              && has_remove_or_change_key index edge.parent_table edge.parent_columns)
            (lookup_or (foreign_key_edges_by_child context) x.0 []))
      current.metadata.tables_updated_to_columns_updated

-- `_constraint_conflict_possible_with_index`
unfoldable pub constraint_conflict_possible_with_index :
    ConflictCheckContext → LoggedTransaction → RemainingMetadataIndex → Bool
unfolding key_constraint_conflict_possible_with_index
    foreign_key_constraint_conflict_possible_with_index
constraint_conflict_possible_with_index context current index =
    key_constraint_conflict_possible_with_index context current index
    || foreign_key_constraint_conflict_possible_with_index context current index

abbrev pub kind_if : Bool → ConflictKind → List ConflictKind
kind_if test kind = if test then kind ∷ [] else []

unfoldable pub remaining_individual_check_kinds :
    ConflictCheckContext → LoggedTransaction → RemainingMetadataIndex → List ConflictKind
unfolding write_write_conflict_possible column_sets_overlap_counter
    implicit_insert_key_conflict_possible constraint_conflict_possible_with_index
remaining_individual_check_kinds context current index =
    if is_empty index
    then []
    else kind_if (write_write_conflict_possible current index) write_write
      ++ (kind_if
            (column_sets_overlap_counter current.metadata.tables_updated_to_columns_updated
              index.tables_referenced_to_column_counts)
            write_read
          ++ (kind_if (implicit_insert_key_conflict_possible context current index)
                implicit_insert_key
              ++ kind_if (constraint_conflict_possible_with_index context current index) integrity))
