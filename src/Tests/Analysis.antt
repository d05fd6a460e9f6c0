-- ===== src/Tests/Analysis.antt =====
-- The theorems on columns and on the static analysis, at the sample statements.
use sqlite_reconcile.Prelude.{
  ◌&&◌, ◌==◌, String, ◌≡◌, refl, ◌&&◌, ◌||◌, none, some, List, [], ◌∷◌, ◌++◌, nonempty, any,
  filter_by, string_eq, nat_eq, ◌==◌, list_eq,
}
use sqlite_reconcile.Tests.Data.{context, update_a, update_b, delete_a}
use sqlite_reconcile.Utils.{
  Columns, columns_meet, maps_meet, column_overlap, covers, names_column, add_columns_by_table,
  all_columns,
}
use sqlite_reconcile.Utils.Overlap.{nonempty-column_overlap}
use sqlite_reconcile.Utils.Covers.{covers-add_columns_by_table}
use sqlite_reconcile.Metadata.{transaction_metadata}
use sqlite_reconcile.StaticAnalysis.Overlaps.{
  columns_by_table_overlap, transaction_write_write_overlap, transaction_write_read_overlap,
  metadata_write_write_overlap, write_write_candidate_pairs, write_read_candidate_indexes,
}
use sqlite_reconcile.Models.{
  ours, theirs, write_write, write_read, has_kind, conflict_kind_eq, ConflictKind,
  StatementConflict, pair_scope, of_kind, add_conflicts,
}
use sqlite_reconcile.Models.Groups.{of_kind-add_conflicts}
use sqlite_reconcile.StaticAnalysis.Matching.{kind_enabled, checks_from, static_analysis_matching}
use sqlite_reconcile.StaticAnalysis.Kinds.{static_analysis_matching-kinds}
use sqlite_reconcile.StaticAnalysis.Symmetric.{
  columns_by_table_overlap_lem, transaction_write_write_overlap_comm,
}
use sqlite_reconcile.StaticAnalysis.Candidates.{
  transaction_write_read_overlap_lem, write_write_candidate_pairs-at,
  nonempty-write_read_candidate_indexes,
}

nonempty-column_overlap_example :
    nonempty (column_overlap ("x" ∷ "y" ∷ []) (all_columns ∷ []))
    ≡ columns_meet ("x" ∷ "y" ∷ []) (all_columns ∷ [])
nonempty-column_overlap_example = nonempty-column_overlap ("x" ∷ "y" ∷ []) (all_columns ∷ [])

covers-add_columns_by_table_example :
    covers (add_columns_by_table (("a", "x" ∷ []) ∷ []) (("b", "y" ∷ []) ∷ [])) "b" "y" ≡ (
      covers (("a", "x" ∷ []) ∷ []) "b" "y"
      || any
          (λ (x : String × Columns). (x.0 == "b") && names_column x.1 "y")
          (("b", "y" ∷ []) ∷ []))
covers-add_columns_by_table_example =
    covers-add_columns_by_table (("a", "x" ∷ []) ∷ []) (("b", "y" ∷ []) ∷ []) "b" "y"

columns_by_table_overlap_lem_example :
    columns_by_table_overlap update_a.tables_updated_to_columns_updated
      update_b.tables_referenced_to_columns_referenced
    ≡ maps_meet update_a.tables_updated_to_columns_updated
        update_b.tables_referenced_to_columns_referenced
columns_by_table_overlap_lem_example =
    columns_by_table_overlap_lem update_a.tables_updated_to_columns_updated
      update_b.tables_referenced_to_columns_referenced (refl, tt)

transaction_write_write_overlap_comm_example :
    transaction_write_write_overlap
      (transaction_metadata (update_a ∷ []))
      (transaction_metadata (delete_a ∷ []))
    ≡ transaction_write_write_overlap
        (transaction_metadata (delete_a ∷ []))
        (transaction_metadata (update_a ∷ []))
unfolding transaction_metadata
transaction_write_write_overlap_comm_example =
    transaction_write_write_overlap_comm (transaction_metadata (update_a ∷ []))
      (transaction_metadata (delete_a ∷ [])) ((refl, tt), tt) ((refl, tt), tt)

transaction_write_read_overlap_lem_example :
    transaction_write_read_overlap
      (transaction_metadata (update_a ∷ []))
      (transaction_metadata (delete_a ∷ update_b ∷ []))
    ≡ any
        (λ w.
          any
            (λ r.
              maps_meet w.tables_updated_to_columns_updated
                r.tables_referenced_to_columns_referenced)
            (delete_a ∷ update_b ∷ []))
        (update_a ∷ [])
transaction_write_read_overlap_lem_example =
    transaction_write_read_overlap_lem (update_a ∷ []) (delete_a ∷ update_b ∷ [])

write_write_candidate_pairs-at_example :
    any
      (λ pair. (pair.0 == 0) && (pair.1 == 1))
      (write_write_candidate_pairs
        (transaction_metadata (update_a ∷ []))
        (transaction_metadata (update_b ∷ delete_a ∷ [])))
    ≡ metadata_write_write_overlap update_a delete_a
unfolding transaction_metadata
write_write_candidate_pairs-at_example =
    write_write_candidate_pairs-at (transaction_metadata (update_a ∷ []))
      (transaction_metadata (update_b ∷ delete_a ∷ [])) 0 1

nonempty-write_read_candidate_indexes_example :
    nonempty (
      write_read_candidate_indexes
        (transaction_metadata (update_a ∷ []))
        (transaction_metadata (update_b ∷ [])))
    ≡ transaction_write_read_overlap
        (transaction_metadata (update_a ∷ []))
        (transaction_metadata (update_b ∷ []))
nonempty-write_read_candidate_indexes_example =
    nonempty-write_read_candidate_indexes (update_a ∷ []) (update_b ∷ [])

static_analysis_matching-kinds_example :
    has_kind
        (static_analysis_matching context
          (transaction_metadata (update_a ∷ []))
          (transaction_metadata (update_b ∷ delete_a ∷ []))
          (some (write_read ∷ []))
          (some ours)
          none
          none)
        write_write
      ≡ (kind_enabled (some (write_read ∷ [])) write_write
          && transaction_write_write_overlap
              (transaction_metadata (update_a ∷ []))
              (transaction_metadata (update_b ∷ delete_a ∷ [])))
    × has_kind
        (static_analysis_matching context
          (transaction_metadata (update_a ∷ []))
          (transaction_metadata (update_b ∷ delete_a ∷ []))
          (some (write_read ∷ []))
          (some ours)
          none
          none)
        write_read
      ≡ (kind_enabled (some (write_read ∷ [])) write_read
          && ((checks_from (some ours) ours
                && transaction_write_read_overlap
                    (transaction_metadata (update_a ∷ []))
                    (transaction_metadata (update_b ∷ delete_a ∷ [])))
              || (checks_from (some ours) theirs
                  && transaction_write_read_overlap
                      (transaction_metadata (update_b ∷ delete_a ∷ []))
                      (transaction_metadata (update_a ∷ [])))))
static_analysis_matching-kinds_example =
    static_analysis_matching-kinds context (transaction_metadata (update_a ∷ []))
      (transaction_metadata (update_b ∷ delete_a ∷ [])) (some (write_read ∷ [])) (some ours) none
      none

abbrev sample_conflict : ConflictKind → String → StatementConflict
sample_conflict kind message = record {
  kind = kind;
  message = message;
  scope = pair_scope;
  details = [];
}

abbrev sample_conflicts : List StatementConflict
sample_conflicts =
    sample_conflict write_write "one"
    ∷ sample_conflict write_read "two"
    ∷ sample_conflict write_write "three"
    ∷ []

of_kind-add_conflicts_example :
    of_kind (add_conflicts [] sample_conflicts) write_write
    ≡ of_kind [] write_write ++ filter_by (λ c. c.kind == write_write) sample_conflicts
of_kind-add_conflicts_example = of_kind-add_conflicts sample_conflicts [] write_write
