-- ===== src/Remaining/Moves.antt =====
-- How each counter of the index moves with a statement.
use sqlite_reconcile.Prelude.{
  ◌≡◌, refl, ◌∙◌, Bool, true, false, List, [], ◌∷◌, arith, if◌then◌else◌, nat_eq, string_eq,
  list_eq,
}
use sqlite_reconcile.Cascade.{CascadeWriteEvent}
use sqlite_reconcile.Schema.{ConflictCheckContext}
use sqlite_reconcile.Metadata.{StatementMetadata, required_updated_table}
use sqlite_reconcile.Remaining.Counts.{ColumnCountMap, Delta, update_column_counts}
use sqlite_reconcile.Remaining.Counting.{Footprint}
use sqlite_reconcile.Remaining.Index.{
  RemainingMetadataIndex, update_writes, update_entries, update_reads, update_cascade_write_event,
  update_cascade_write_events, update_omitted_key, update_statement,
}
use sqlite_reconcile.Remaining.Fields.{
  field_of, counts_kind, read_footprints, key_footprints, all_footprints, update_entries-append,
  field-update_cascade_write_events, Field, referenced, written, created, removed, updated, omitted,
}

module _ (delta : Delta) where
  field-update_writes :
      (field : Field) (index : RemainingMetadataIndex) (m : StatementMetadata)
      → field_of field (update_writes delta m index) ≡ (
          if counts_kind field m.statement_kind
          then update_column_counts delta
              (field_of field index)
              (required_updated_table m)
              m.columns_updated
          else field_of field index)
  unfolding update_writes
  field-update_writes referenced index m = ground arith
  field-update_writes written index m = ground arith
  field-update_writes created index m = ground arith
  field-update_writes removed index m = ground arith
  field-update_writes updated index m = ground arith
  field-update_writes omitted index m = ground arith

  field-update_reads :
      (field : Field) (index : RemainingMetadataIndex) (m : StatementMetadata)
      → field_of field (update_reads delta m index)
        ≡ update_entries delta (field_of field index) (read_footprints field m)
  unfolding update_reads update_entries
  field-update_reads referenced index m = refl
  field-update_reads _ index m = refl

update_entries-if :
    (delta : Delta) (m : ColumnCountMap) (b : Bool) (f : Footprint)
    → update_entries delta m (if b then f ∷ [] else [])
      ≡ (if b then update_column_counts delta m f.0 f.1 else m)
unfolding update_entries
update_entries-if delta m true f = refl
update_entries-if delta m false f = refl

module _ (context : ConflictCheckContext) (delta : Delta) where
  field-update_omitted_key :
      (field : Field) (index : RemainingMetadataIndex) (m : StatementMetadata)
      → field_of field (update_omitted_key context delta m index)
        ≡ update_entries delta (field_of field index) (key_footprints context field m)
  unfolding update_omitted_key update_entries
  field-update_omitted_key referenced index m = ground arith
  field-update_omitted_key written index m = ground arith
  field-update_omitted_key created index m = ground arith
  field-update_omitted_key removed index m = ground arith
  field-update_omitted_key updated index m = ground arith
  field-update_omitted_key omitted index m = ground arith

  -- Each counter moves by the footprints of the statement, one after the other.
  pub field-update_statement :
      (field : Field) (index : RemainingMetadataIndex) (m : StatementMetadata)
      → field_of field (update_statement context delta index m)
        ≡ update_entries delta (field_of field index) (all_footprints context field m)
  unfolding update_statement
  field-update_statement field index m =
      field-update_omitted_key field
        (update_cascade_write_events delta (update_reads delta m (update_writes delta m index))
          m.cascade_write_events)
        m
      ∙ simp (
        field-update_cascade_write_events, field-update_reads, field-update_writes,
        update_entries-append, update_entries-if,
      )

  count-update_events :
      (index : RemainingMetadataIndex) (events : List CascadeWriteEvent)
      → (update_cascade_write_events delta index events).transaction_count ≡ index.transaction_count
  unfolding update_cascade_write_events update_cascade_write_event
  count-update_events index [] = refl
  count-update_events index (e ∷ events) =
      count-update_events (update_cascade_write_event delta index e) events ∙ ground arith

  -- Statements leave the number of transactions alone.
  pub count-update_statement :
      (index : RemainingMetadataIndex) (m : StatementMetadata)
      → (update_statement context delta index m).transaction_count ≡ index.transaction_count
  unfolding update_statement update_writes update_reads update_omitted_key
  count-update_statement index m = ground (
    arith,
    count-update_events (update_reads delta m (update_writes delta m index)) m.cascade_write_events,
  )
