-- ===== src/Remaining/Fields.antt =====
-- The six counters of the index, and the footprints that each of them counts.
use sqlite_reconcile.Prelude.{
  ◌≡◌, refl, ◌∙◌, inl, inr, Bool, true, false, none, some, List, [], ◌∷◌, ◌++◌, map, arith,
  if◌then◌else◌, Bool-cases, filter_by, nat_eq, string_eq, list_eq,
}
use sqlite_reconcile.Cascade.{CascadeWriteEvent, is_update}
use sqlite_reconcile.Schema.{ConflictCheckContext}
use sqlite_reconcile.Metadata.{
  StatementMetadata, required_updated_table, insert_kind, update_kind, delete_kind, StatementKind,
}
use sqlite_reconcile.StaticAnalysis.Keys.{omitted_integer_primary_key_column}
use sqlite_reconcile.Remaining.Counts.{ColumnCountMap, Delta, update_column_counts}
use sqlite_reconcile.Remaining.Counting.{Footprint}
use sqlite_reconcile.Remaining.Index.{
  RemainingMetadataIndex, update_entries, update_cascade_write_event, update_cascade_write_events,
}

pub data Field : Type 0 where
  referenced written created removed updated omitted : Field

abbrev pub field_of : Field → RemainingMetadataIndex → ColumnCountMap
field_of referenced index = index.tables_referenced_to_column_counts
field_of written index = index.write_write_column_counts
field_of created index = index.create_or_change_key_column_counts
field_of removed index = index.remove_or_change_key_column_counts
field_of updated index = index.update_column_counts
field_of omitted index = index.omitted_integer_primary_key_counts

-- Which kinds of statement each counter counts the direct write of.
abbrev pub counts_kind : Field → StatementKind → Bool
counts_kind written update_kind = true
counts_kind written delete_kind = true
counts_kind created insert_kind = true
counts_kind created update_kind = true
counts_kind removed update_kind = true
counts_kind removed delete_kind = true
counts_kind updated update_kind = true
counts_kind _ _ = false

abbrev pub counts_event : Field → CascadeWriteEvent → Bool
counts_event written event = true
counts_event removed event = true
counts_event created event = is_update event.kind
counts_event updated event = is_update event.kind
counts_event _ event = false

abbrev pub direct_footprint : StatementMetadata → Footprint
direct_footprint m = (required_updated_table m, m.columns_updated)

abbrev pub event_footprint : CascadeWriteEvent → Footprint
event_footprint event = (event.table, event.columns)

abbrev pub omitted_footprint : ConflictCheckContext → StatementMetadata → List Footprint
omitted_footprint context m = elim m.statement_kind [
  | insert_kind ↦ elim (omitted_integer_primary_key_column context m) [
    | none ↦ []
    | some key ↦ (required_updated_table m, key ∷ []) ∷ []
  ]
  | _ ↦ []
]

abbrev pub read_footprints : Field → StatementMetadata → List Footprint
read_footprints referenced m = m.tables_referenced_to_columns_referenced
read_footprints _ m = []

abbrev pub key_footprints : ConflictCheckContext → Field → StatementMetadata → List Footprint
key_footprints context omitted m = omitted_footprint context m
key_footprints context _ m = []

abbrev pub write_footprints : Field → StatementMetadata → List Footprint
write_footprints field m =
    if counts_kind field m.statement_kind then direct_footprint m ∷ [] else []

abbrev pub cascade_footprints : Field → StatementMetadata → List Footprint
cascade_footprints field m =
    map event_footprint (filter_by (counts_event field) m.cascade_write_events)

-- What one statement adds to a counter.
abbrev pub all_footprints : ConflictCheckContext → Field → StatementMetadata → List Footprint
all_footprints context field m =
    write_footprints field m
    ++ (read_footprints field m ++ (cascade_footprints field m ++ key_footprints context field m))

pub update_entries-append :
    (delta : Delta) (m : ColumnCountMap) (fs gs : List Footprint)
    → update_entries delta m (fs ++ gs) ≡ update_entries delta (update_entries delta m fs) gs
unfolding update_entries
update_entries-append delta m [] gs = refl
update_entries-append delta m (f ∷ fs) gs =
    update_entries-append delta (update_column_counts delta m f.0 f.1) fs gs

field-update_cascade_write_event :
    (field : Field) (delta : Delta) (index : RemainingMetadataIndex) (e : CascadeWriteEvent)
    → field_of field (update_cascade_write_event delta index e) ≡ (
        if counts_event field e
        then update_column_counts delta (field_of field index) e.table e.columns
        else field_of field index)
unfolding update_cascade_write_event
field-update_cascade_write_event referenced delta index e = ground arith
field-update_cascade_write_event written delta index e = ground arith
field-update_cascade_write_event created delta index e = ground arith
field-update_cascade_write_event removed delta index e = ground arith
field-update_cascade_write_event updated delta index e = ground arith
field-update_cascade_write_event omitted delta index e = ground arith

pub field-update_cascade_write_events :
    (field : Field) (delta : Delta) (index : RemainingMetadataIndex)
    (events : List CascadeWriteEvent)
    → field_of field (update_cascade_write_events delta index events)
      ≡ update_entries delta
          (field_of field index)
          (map event_footprint (filter_by (counts_event field) events))
unfolding update_cascade_write_events update_entries
field-update_cascade_write_events field delta index [] = refl
field-update_cascade_write_events field delta index (e ∷ events) =
    field-update_cascade_write_events field delta (update_cascade_write_event delta index e) events
    ∙ elim (Bool-cases (counts_event field e)) [
      | inl h ↦ rw (field-update_cascade_write_event, h)
      | inr h ↦ rw (field-update_cascade_write_event, h)
    ]
