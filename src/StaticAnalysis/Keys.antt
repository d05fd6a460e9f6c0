-- ===== src/StaticAnalysis/Keys.antt =====
-- src/merge/static_analysis.py: keys that may be created, changed or removed, and hidden keys.
use sqlite_reconcile.Prelude.{
  String, Bool, true, false, not, ◌&&◌, ◌||◌, Option, none, some, List, [], ◌∷◌, ◌++◌, flat_map,
  if◌then◌else◌, nonempty, any, filter_by, ◌==◌, nat_eq, string_eq, contains, list_eq, lookup_or,
  concat,
}
use sqlite_reconcile.Utils.{Columns, all_columns}
use sqlite_reconcile.Cascade.{
  cascade_event_may_create_or_change_key, cascade_event_may_remove_or_change_key,
}
use sqlite_reconcile.Schema.{
  ConflictCheckContext, foreign_key_edges_by_parent, foreign_key_edges_by_child,
  integer_primary_key_column,
}
use sqlite_reconcile.Metadata.{
  StatementMetadata, TransactionMetadata, is_insert_statement, is_update_statement,
  is_delete_statement, required_updated_table, is_kind, insert_kind, insert_expr,
}
use sqlite_reconcile.Models.{
  StatementConflict, implicit_insert_key, pair_scope, BranchName, ours, theirs,
}
use sqlite_reconcile.StaticAnalysis.Overlaps.{
  metadata_write_overlap, same_written_table, writes_table,
}

-- `_statement_may_create_or_change_key`
unfoldable pub statement_may_create_or_change_key : StatementMetadata → String → Columns → Bool
unfolding metadata_write_overlap
statement_may_create_or_change_key m table key_columns =
    if not (writes_table m table)
    then false
    else if is_insert_statement m
    then true
    else if is_update_statement m
    then nonempty (metadata_write_overlap m table key_columns)
    else false

unfoldable pub transaction_metadata_may_create_or_change_key :
    TransactionMetadata → String → Columns → Bool
unfolding statement_may_create_or_change_key cascade_event_may_create_or_change_key
transaction_metadata_may_create_or_change_key m table key_columns =
    any (λ s. statement_may_create_or_change_key s table key_columns) m.statements
    || any (λ e. cascade_event_may_create_or_change_key e table key_columns) m.cascade_write_events

-- The test of one statement in `transaction_metadata_may_remove_or_change_key`.
unfoldable pub statement_may_remove_or_change_key : StatementMetadata → String → Columns → Bool
unfolding metadata_write_overlap
statement_may_remove_or_change_key s table key_columns =
    writes_table s table
    && (is_delete_statement s
        || (is_update_statement s && nonempty (metadata_write_overlap s table key_columns)))

unfoldable pub transaction_metadata_may_remove_or_change_key :
    TransactionMetadata → String → Columns → Bool
unfolding statement_may_remove_or_change_key cascade_event_may_remove_or_change_key
transaction_metadata_may_remove_or_change_key m table key_columns =
    any (λ s. statement_may_remove_or_change_key s table key_columns) m.statements
    || any (λ e. cascade_event_may_remove_or_change_key e table key_columns) m.cascade_write_events

-- `_key_constraint_conflict_possible`; tables without key sets give the inner loop nothing to do.
unfoldable pub key_constraint_conflict_possible :
    ConflictCheckContext → TransactionMetadata → TransactionMetadata → Bool
unfolding transaction_metadata_may_create_or_change_key
key_constraint_conflict_possible context first second =
    any
      (λ x.
        any
          (λ key_set.
            transaction_metadata_may_create_or_change_key first x.0 key_set
            && transaction_metadata_may_create_or_change_key second x.0 key_set)
          x.1)
      (filter_by (λ x. nonempty x.1) context.schema_cache.key_column_sets)

-- `_foreign_key_constraint_conflict_possible`
unfoldable pub foreign_key_constraint_conflict_possible :
    ConflictCheckContext → TransactionMetadata → TransactionMetadata → Bool
unfolding foreign_key_edges_by_parent foreign_key_edges_by_child
    transaction_metadata_may_create_or_change_key transaction_metadata_may_remove_or_change_key
foreign_key_constraint_conflict_possible context first second =
    any
      (λ x.
        any
          (λ edge.
            transaction_metadata_may_remove_or_change_key first edge.parent_table
              edge.parent_columns
            && transaction_metadata_may_create_or_change_key second edge.child_table
                edge.child_columns)
          (lookup_or (foreign_key_edges_by_parent context) x.0 [])
        || any
            (λ edge.
              transaction_metadata_may_create_or_change_key first edge.child_table
                edge.child_columns
              && transaction_metadata_may_remove_or_change_key second edge.parent_table
                  edge.parent_columns)
            (lookup_or (foreign_key_edges_by_child context) x.0 []))
      first.tables_updated_to_columns_updated

unfoldable pub constraint_conflict_possible :
    ConflictCheckContext → TransactionMetadata → TransactionMetadata → Bool
unfolding key_constraint_conflict_possible foreign_key_constraint_conflict_possible
constraint_conflict_possible context first second =
    key_constraint_conflict_possible context first second
    || foreign_key_constraint_conflict_possible context first second

-- `_insert_explicit_columns`; the empty names of a target list are dropped.
unfoldable pub insert_explicit_columns : StatementMetadata → Columns
insert_explicit_columns m = elim m.parsed_sql_text [
  | insert_expr target ↦ elim target [
    | some names ↦ filter_by (λ n. not (n == "")) names
    | none ↦ if is_kind m.statement_kind insert_kind then all_columns ∷ [] else []
  ]
  | _ ↦ if is_kind m.statement_kind insert_kind then all_columns ∷ [] else []
]

-- `omitted_integer_primary_key_column`
unfoldable pub omitted_integer_primary_key_column :
    ConflictCheckContext → StatementMetadata → Option String
unfolding integer_primary_key_column insert_explicit_columns
omitted_integer_primary_key_column context m =
    let explicit_columns = insert_explicit_columns m in
    if not (is_insert_statement m)
    then none
    else elim (integer_primary_key_column context (required_updated_table m)) [
      | none ↦ none
      | some key_column ↦
          if contains explicit_columns all_columns || contains explicit_columns key_column
          then none
          else some key_column
    ]

abbrev pub branch_word : BranchName → String
branch_word ours = "ours"
branch_word theirs = "theirs"

abbrev pub implicit_conflict : String → StatementConflict
implicit_conflict message = record {
  kind = implicit_insert_key;
  message = message;
  scope = pair_scope;
  details = [];
}

-- `_implicit_insert_key_conflict`
unfoldable pub implicit_insert_key_conflict :
    BranchName → BranchName → String → String → StatementConflict
implicit_insert_key_conflict insert_label other_label table key_column = implicit_conflict (
    concat (
      branch_word insert_label
      ∷ " INSERT omits "
      ∷ table
      ∷ "."
      ∷ key_column
      ∷ "; "
      ∷ branch_word other_label
      ∷ " INSERT also omits the same key"
      ∷ []))

-- `_implicit_insert_key_update_conflict`
unfoldable pub implicit_insert_key_update_conflict :
    BranchName
    → StatementMetadata
    → BranchName
    → StatementMetadata
    → String
    → Option StatementConflict
unfolding same_written_table metadata_write_overlap
implicit_insert_key_update_conflict insert_label ins other_label other omitted_key =
    let table = required_updated_table ins in
    if not (same_written_table ins other) || not (is_update_statement other)
    then none
    else if not (nonempty (metadata_write_overlap other table (omitted_key ∷ [])))
    then none
    else some (
        implicit_conflict (
          concat (
            branch_word insert_label
            ∷ " INSERT omits "
            ∷ table
            ∷ "."
            ∷ omitted_key
            ∷ "; "
            ∷ branch_word other_label
            ∷ " UPDATE assigns to the same key column"
            ∷ [])))

-- One turn of the loop of `_implicit_insert_key_conflicts`: the conflicts, and whether it breaks.
unfoldable pub implicit_insert_key_turn :
    ConflictCheckContext
    → BranchName
    → StatementMetadata
    → BranchName
    → StatementMetadata
    → List StatementConflict × Bool
unfolding omitted_integer_primary_key_column same_written_table implicit_insert_key_conflict
    implicit_insert_key_update_conflict
implicit_insert_key_turn context insert_label ins other_label other =
    elim (omitted_integer_primary_key_column context ins) [
      | none ↦ ([], false)
      | some omitted_key ↦
          if not (same_written_table ins other)
          then ([], false)
          else elim (omitted_integer_primary_key_column context other) [
            | some other_omitted_key ↦ (
              implicit_insert_key_conflict insert_label other_label (required_updated_table ins)
                    omitted_key
                  ∷ [],
              true,
            )
            | none ↦
                elim (implicit_insert_key_update_conflict insert_label ins other_label other
                  omitted_key) [ none ↦ ([], false) | some conflict ↦ (conflict ∷ [], false) ]
          ]
    ]

-- `_implicit_insert_key_conflicts`
unfoldable pub implicit_insert_key_conflicts :
    ConflictCheckContext → StatementMetadata → StatementMetadata → List StatementConflict
unfolding implicit_insert_key_turn
implicit_insert_key_conflicts context o t =
    let first = implicit_insert_key_turn context ours o theirs t in
    if first.1 then first.0 else first.0 ++ (implicit_insert_key_turn context theirs t ours o).0

-- `_transaction_implicit_insert_key_conflicts`
unfoldable pub transaction_implicit_insert_key_conflicts :
    ConflictCheckContext → TransactionMetadata → TransactionMetadata → List StatementConflict
unfolding implicit_insert_key_conflicts
transaction_implicit_insert_key_conflicts context o t =
    flat_map (λ s. flat_map (λ u. implicit_insert_key_conflicts context s u) t.statements)
      o.statements
