-- ===== src/Remaining/Prefilter.antt =====
-- src/merge/remaining_metadata.py: the counters decide what a search of the queue would decide.
use sqlite_reconcile.Prelude.{
  ◌≡◌, refl, sym, ap, ◌∙◌, Bool, ◌&&◌, ◌||◌, List, [], ◌∷◌, ◌++◌, map, any, filter_by, any-append,
  any_ext, any-map, any-swap, ◌==◌, nat_eq, string_eq, ==_comm, list_eq,
}
use mathlib.Core.List.{append-nil}
use sqlite_reconcile.Cascade.Types.{CascadeWriteEvent}
use mathlib.Core.Path.{ap₂}
use sqlite_reconcile.Utils.{ColumnMap, columns_meet, maps_meet}
use sqlite_reconcile.Schema.{ConflictCheckContext}
use sqlite_reconcile.Metadata.{StatementMetadata, transaction_metadata, read_columns_of}
use sqlite_reconcile.Metadata.Aggregate.{HasUniqueKeys-read_columns_of, maps_meet-read_columns_of}
use sqlite_reconcile.Models.{LoggedStatement, LoggedTransaction}
use sqlite_reconcile.StaticAnalysis.Overlaps.{
  transaction_write_read_overlap, columns_by_table_overlap,
}
use sqlite_reconcile.StaticAnalysis.Symmetric.{columns_by_table_overlap_lem}
use sqlite_reconcile.Remaining.Counts.{column_sets_overlap_counter}
use sqlite_reconcile.Remaining.Counting.{Footprint}
use sqlite_reconcile.Remaining.Index.{RemainingMetadataIndex}
use sqlite_reconcile.Remaining.Fields.{
  counts_event, event_footprint, all_footprints, Field, referenced,
}
use sqlite_reconcile.Remaining.Standing.{StandsFor, statements_footprints, queue_footprints}
use sqlite_reconcile.Remaining.Decides.{column_counter_overlap-Represents}

module _ (context : ConflictCheckContext) where
  -- Some statement of the queue satisfies a test.
  abbrev pub any_statement : (StatementMetadata → Bool) → List LoggedTransaction → Bool
  any_statement p ts = any (λ t. any (λ s. p s.metadata) t.statements) ts

  any-statements_footprints :
      (field : Field) (p : Footprint → Bool) (statements : List LoggedStatement)
      → any p (statements_footprints context field statements)
        ≡ any (λ s. any p (all_footprints context field s.metadata)) statements
  any-statements_footprints field p [] = refl
  any-statements_footprints field p (s ∷ statements) =
      any-append p (all_footprints context field s.metadata)
        (statements_footprints context field statements)
      ∙ ap (λ b. any p (all_footprints context field s.metadata) || b)
          (any-statements_footprints field p statements)

  pub any_statement_ext :
      (p q : StatementMetadata → Bool) (ts : List LoggedTransaction)
      → ((m : StatementMetadata) → p m ≡ q m)
      → any_statement p ts ≡ any_statement q ts
  any_statement_ext p q ts h = any_ext _ _ ts (λ t. any_ext _ _ t.statements (λ s. h s.metadata))

  pub any-any_statement :
      {A : Type 0} (p : A → StatementMetadata → Bool) (xs : List A) (ts : List LoggedTransaction)
      → any (λ x. any_statement (p x) ts) xs ≡ any_statement (λ m. any (λ x. p x m) xs) ts
  any-any_statement p xs ts =
      any-swap (λ x t. any (λ s. p x s.metadata) t.statements) xs ts
      ∙ any_ext _ _ ts (λ t. any-swap (λ x s. p x s.metadata) xs t.statements)

  -- A search of the counted footprints is a search of the queue's statements.
  pub any-queue_footprints :
      (field : Field) (p : Footprint → Bool) (ts : List LoggedTransaction)
      → any p (queue_footprints context field ts)
        ≡ any_statement (λ m. any p (all_footprints context field m)) ts
  any-queue_footprints field p [] = refl
  any-queue_footprints field p (t ∷ ts) =
      any-append p (statements_footprints context field t.statements)
        (queue_footprints context field ts)
      ∙ ap₂ ◌||◌ (any-statements_footprints field p t.statements) (any-queue_footprints field p ts)

  any-referenced :
      (p : Footprint → Bool) (m : StatementMetadata)
      → any p (all_footprints context referenced m)
        ≡ any p m.tables_referenced_to_columns_referenced
  any-referenced p m =
      ap (λ es. any p (m.tables_referenced_to_columns_referenced ++ (map event_footprint es ++ [])))
        (no_event m.cascade_write_events)
      ∙ ap (any p) (append-nil m.tables_referenced_to_columns_referenced)
    where
      no_event : (es : List CascadeWriteEvent) → filter_by (counts_event referenced) es ≡ []
      no_event [] = refl
      no_event (e ∷ es) = no_event es

  -- The counters of the columns read overlap what a transaction writes exactly when some statement
  -- that remains reads a column that it writes.
  column_sets_overlap_counter-reads :
      (writes : ColumnMap) {index : RemainingMetadataIndex} {ts : List LoggedTransaction}
      → StandsFor context index ts
      → column_sets_overlap_counter writes index.tables_referenced_to_column_counts
        ≡ any_statement (λ m. maps_meet writes m.tables_referenced_to_columns_referenced) ts
  unfolding column_sets_overlap_counter
  column_sets_overlap_counter-reads writes {index} {ts} r =
      any_ext _ _ writes (λ x.
        column_counter_overlap-Represents (r.counters referenced) x.0 x.1
        ∙ any-queue_footprints referenced (λ f. f.0 == x.0 && columns_meet x.1 f.1) ts
        ∙ any_statement_ext _
            (λ m.
              any (λ y. x.0 == y.0 && columns_meet x.1 y.1)
                m.tables_referenced_to_columns_referenced)
            ts
            (λ m.
              any-referenced (λ f. f.0 == x.0 && columns_meet x.1 f.1) m
              ∙ any_ext _ _ m.tables_referenced_to_columns_referenced
                  (λ y. ap (λ b. b && columns_meet x.1 y.1) (==_comm y.0 x.0))))
      ∙ any-any_statement
          (λ x m.
            any (λ y. x.0 == y.0 && columns_meet x.1 y.1) m.tables_referenced_to_columns_referenced)
          writes ts

  -- The metadata of a transaction is what its statements add up to.
  abbrev pub IsAggregated : LoggedTransaction → Type 0
  IsAggregated t = t.metadata ≡ transaction_metadata (map (λ s. s.metadata) t.statements)

  abbrev pub AllAreAggregated : List LoggedTransaction → Type 0
  AllAreAggregated [] = Unit
  AllAreAggregated (t ∷ ts) = IsAggregated t × AllAreAggregated ts

  -- If the index stands for the queue and the metadata of each queued transaction adds up that of
  -- its statements, the counters ask for the write/read check exactly when the static test finds
  -- that the current transaction writes what one of the queued transactions reads.
  pub column_sets_overlap_counter-write_read :
      (current : LoggedTransaction) {index : RemainingMetadataIndex} {ts : List LoggedTransaction}
      → StandsFor context index ts
      → AllAreAggregated ts
      → column_sets_overlap_counter current.metadata.tables_updated_to_columns_updated
          index.tables_referenced_to_column_counts
        ≡ any (λ t. transaction_write_read_overlap current.metadata t.metadata) ts
  unfolding transaction_write_read_overlap transaction_metadata
  column_sets_overlap_counter-write_read current {ts = ts} r h =
      column_sets_overlap_counter-reads current.metadata.tables_updated_to_columns_updated r
      ∙ each ts h
    where
      reads :
          (writes : ColumnMap) (t : LoggedTransaction)
          → IsAggregated t
          → any
              (λ s. maps_meet writes s.metadata.tables_referenced_to_columns_referenced)
              t.statements
            ≡ columns_by_table_overlap writes t.metadata.tables_referenced_to_columns_referenced
      reads writes t h =
          let ms = map (λ s. s.metadata) t.statements in
          sym (
            any-map (λ m. maps_meet writes m.tables_referenced_to_columns_referenced)
              (λ s. s.metadata) t.statements)
          ∙ sym (maps_meet-read_columns_of writes ms)
          ∙ sym (
              columns_by_table_overlap_lem writes (read_columns_of ms [])
                (HasUniqueKeys-read_columns_of ms [] tt))
          ∙ ap (λ m. columns_by_table_overlap writes m.tables_referenced_to_columns_referenced)
              (sym h)

      each :
          (ts : List LoggedTransaction)
          → AllAreAggregated ts
          → any_statement
              (λ m.
                maps_meet current.metadata.tables_updated_to_columns_updated
                  m.tables_referenced_to_columns_referenced)
              ts
            ≡ any (λ t. transaction_write_read_overlap current.metadata t.metadata) ts
      each [] h = refl
      each (t ∷ ts) h =
          ap₂ ◌||◌ (reads current.metadata.tables_updated_to_columns_updated t h.0) (each ts h.1)
