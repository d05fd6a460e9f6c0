-- ===== src/Tests/Probed.antt =====
-- The probe of an INSERT with two rows.
use sqlite_reconcile.Prelude.{
  ◌≡◌, refl, true, false, none, some, List, [], ◌∷◌, get_elem?, any, string_eq, nat_eq, contains,
  list_eq,
}
use sqlite_reconcile.Replay.{RenderedValue, RenderedTree, values}
use sqlite_reconcile.Probes.{
  read_rows, value_reads, value_indexes, selected_values, insert_values_probe_select,
}
use sqlite_reconcile.Probes.Reads.{
  contains-value_indexes, contains-selected_values-reads, selected_value,
}

abbrev plain_value : RenderedValue
plain_value = record { sql = "1"; has_read = false }

abbrev reading_value : RenderedValue
reading_value = record { sql = "(SELECT 2)"; has_read = true }

abbrev inserted_rows : List (List RenderedValue)
inserted_rows = (plain_value ∷ plain_value ∷ []) ∷ (plain_value ∷ reading_value ∷ []) ∷ []

abbrev insert_tree : RenderedTree
insert_tree = record {
  qualifier = "a";
  target_sql = "a";
  from_sql = none;
  where_sql = none;
  with_sql = none;
  assignments = [];
  insert_source = values inserted_rows;
}

probe_test :
    insert_values_probe_select insert_tree inserted_rows
    ≡ some "SELECT 2 AS __row_index, (SELECT 2) AS __value_2"
unfolding insert_values_probe_select
probe_test = refl

contains-selected_values-reads_example :
    contains
      (selected_values
        (plain_value ∷ reading_value ∷ [])
        (value_indexes (read_rows 0 inserted_rows)))
      (selected_value reading_value 1)
    ≡ true
contains-selected_values-reads_example =
    contains-selected_values-reads ((plain_value ∷ plain_value ∷ []) ∷ [])
      (plain_value ∷ reading_value ∷ []) [] 1 reading_value refl refl

contains-value_indexes_example :
    contains (value_indexes (read_rows 0 inserted_rows)) 1
    ≡ any (λ row. value_reads (get_elem? row 1)) inserted_rows
contains-value_indexes_example = contains-value_indexes inserted_rows 0 1
