-- ===== src/Remaining/Direct.antt =====
-- src/merge/remaining_metadata.py: the write/write check of statements that cascade to no table.
use sqlite_reconcile.Prelude.{
  String, ◌≡◌, refl, sym, ap, ◌∙◌, Bool, false, ◌&&◌, ◌||◌, List, [], ◌∷◌, map, arith, or_false,
  any, any_ext, any-false, any-map, any-swap, ◌==◌, nat_eq, string_eq, list_eq,
}
use mathlib.Core.Path.{ap₂}
use sqlite_reconcile.Utils.{Columns, all_columns, columns_meet}
use sqlite_reconcile.Schema.{ConflictCheckContext}
use sqlite_reconcile.Metadata.{
  StatementMetadata, StatementKind, insert_kind, update_kind, delete_kind, other_kind,
  transaction_metadata, required_updated_table,
}
use sqlite_reconcile.Models.{LoggedStatement, LoggedTransaction}
use sqlite_reconcile.StaticAnalysis.Overlaps.{
  metadata_write_write_overlap, transaction_write_write_overlap,
}
use sqlite_reconcile.Remaining.Counts.{column_counter_overlap}
use sqlite_reconcile.Remaining.Counting.{Footprint}
use sqlite_reconcile.Remaining.Index.{RemainingMetadataIndex}
use sqlite_reconcile.Remaining.Checks.{
  statement_write_write_possible, event_write_write_possible, write_write_conflict_possible,
}
use sqlite_reconcile.Remaining.Fields.{
  counts_kind, direct_footprint, all_footprints, Field, written, updated,
}
use sqlite_reconcile.Remaining.Standing.{StandsFor}
use sqlite_reconcile.Remaining.Decides.{column_counter_overlap-Represents}
use sqlite_reconcile.Remaining.Prefilter.{
  any_statement, any_statement_ext, any-any_statement, any-queue_footprints, IsAggregated,
  AllAreAggregated,
}
use sqlite_reconcile.Remaining.Plain.{IsPlain, kinds_overlap, metadata_write_write_overlap-kinds}

abbrev pub AllPlain : List LoggedStatement → Type 0
AllPlain [] = Unit
AllPlain (s ∷ statements) = IsPlain s.metadata × AllPlain statements

abbrev pub QueuePlain : List LoggedTransaction → Type 0
QueuePlain [] = Unit
QueuePlain (t ∷ ts) = AllPlain t.statements × QueuePlain ts

any_plain_ext :
    (p q : StatementMetadata → Bool) (statements : List LoggedStatement)
    → ((m : StatementMetadata) → IsPlain m → p m ≡ q m)
    → AllPlain statements
    → any (λ s. p s.metadata) statements ≡ any (λ s. q s.metadata) statements
any_plain_ext p q [] h plain = refl
any_plain_ext p q (s ∷ statements) h plain =
    ap₂ ◌||◌ (h s.metadata plain.0) (any_plain_ext p q statements h plain.1)

any_statement_plain_ext :
    (context : ConflictCheckContext) (p q : StatementMetadata → Bool) (ts : List LoggedTransaction)
    → ((m : StatementMetadata) → IsPlain m → p m ≡ q m)
    → QueuePlain ts
    → any_statement context p ts ≡ any_statement context q ts
any_statement_plain_ext context p q [] h plain = refl
any_statement_plain_ext context p q (t ∷ ts) h plain =
    ap₂ ◌||◌ (any_plain_ext p q t.statements h plain.0)
      (any_statement_plain_ext context p q ts h plain.1)

-- What a statement may overlap with, as far as a counter of its table tells.
abbrev counted_overlap : Field → StatementMetadata → Columns → StatementMetadata → Bool
counted_overlap field m columns s =
    counts_kind field s.statement_kind
    && (required_updated_table s == required_updated_table m
        && columns_meet columns s.columns_updated)

any_statement-false :
    (context : ConflictCheckContext) (ts : List LoggedTransaction)
    → any_statement context (λ s. false) ts ≡ false
any_statement-false context ts = any_ext _ _ ts (λ t. any-false t.statements) ∙ any-false ts

update_overlaps :
    (l : StatementKind) (table u : String) (columns other : Columns)
    → (counts_kind written l && (u == table && columns_meet columns other))
      ≡ kinds_overlap update_kind l table u columns other
update_overlaps insert_kind table u columns other = refl
update_overlaps update_kind table u columns other = refl
update_overlaps delete_kind table u columns other = refl
update_overlaps other_kind table u columns other = refl

delete_overlaps :
    (l : StatementKind) (table u : String) (columns other : Columns)
    → (counts_kind updated l && (u == table && columns_meet columns other))
      ≡ kinds_overlap delete_kind l table u columns other
delete_overlaps insert_kind table u columns other = refl
delete_overlaps update_kind table u columns other = refl
delete_overlaps delete_kind table u columns other = refl
delete_overlaps other_kind table u columns other = refl

module _ (context : ConflictCheckContext) where
  any-written :
      (p : Footprint → Bool) (m : StatementMetadata)
      → IsPlain m
      → any p (all_footprints context written m)
        ≡ (counts_kind written m.statement_kind && p (direct_footprint m))
  any-written p m plain = rw plain.no_events (ground arith)

  any-updated :
      (p : Footprint → Bool) (m : StatementMetadata)
      → IsPlain m
      → any p (all_footprints context updated m)
        ≡ (counts_kind updated m.statement_kind && p (direct_footprint m))
  any-updated p m plain = rw plain.no_events (ground arith)

  module _ {index : RemainingMetadataIndex} {ts : List LoggedTransaction}
      (r : StandsFor context index ts) (plain : QueuePlain ts) where
    written_counter :
        (m : StatementMetadata) (columns : Columns)
        → column_counter_overlap index.write_write_column_counts (required_updated_table m) columns
          ≡ any_statement context (counted_overlap written m columns) ts
    written_counter m columns =
        column_counter_overlap-Represents (r.counters written) (required_updated_table m) columns
        ∙ any-queue_footprints context written _ ts
        ∙ any_statement_plain_ext context _ _ ts
            (λ s p.
              any-written (λ f. f.0 == required_updated_table m && columns_meet columns f.1) s p)
            plain

    updated_counter :
        (m : StatementMetadata) (columns : Columns)
        → column_counter_overlap index.update_column_counts (required_updated_table m) columns
          ≡ any_statement context (counted_overlap updated m columns) ts
    updated_counter m columns =
        column_counter_overlap-Represents (r.counters updated) (required_updated_table m) columns
        ∙ any-queue_footprints context updated _ ts
        ∙ any_statement_plain_ext context _ _ ts
            (λ s p.
              any-updated (λ f. f.0 == required_updated_table m && columns_meet columns f.1) s p)
            plain

    events_impossible :
        (m : StatementMetadata)
        → IsPlain m
        → any (event_write_write_possible index) m.cascade_write_events ≡ false
    events_impossible m p = ap (any (event_write_write_possible index)) p.no_events

    of_kind :
        (m : StatementMetadata)
        → IsPlain m
        → (k : StatementKind) → m.statement_kind ≡ k
        → statement_write_write_possible index m
          ≡ any_statement context
              (λ s.
                kinds_overlap k s.statement_kind
                  (required_updated_table m)
                  (required_updated_table s)
                  m.columns_updated
                  s.columns_updated)
              ts
    unfolding statement_write_write_possible
    of_kind m p insert_kind e =
        rw (e, statement_write_write_possible, events_impossible m p)
          (sym (any_statement-false context ts))
    of_kind m p other_kind e =
        rw (e, statement_write_write_possible, events_impossible m p)
          (sym (any_statement-false context ts))
    of_kind m p update_kind e =
        rw (e, statement_write_write_possible, events_impossible m p)
          (or_false _
            ∙ written_counter m m.columns_updated
            ∙ any_statement_ext context _ _ ts (λ s.
              update_overlaps s.statement_kind (required_updated_table m) (required_updated_table s)
                m.columns_updated s.columns_updated))
    of_kind m p delete_kind e =
        rw (e, statement_write_write_possible, events_impossible m p, p.delete_all e)
          (or_false _
            ∙ updated_counter m (all_columns ∷ [])
            ∙ any_statement_ext context _ _ ts (λ s.
              delete_overlaps s.statement_kind (required_updated_table m) (required_updated_table s)
                (all_columns ∷ []) s.columns_updated))

    -- The check of one statement against the counters finds what the static test would find.
    statement_write_write_possible-overlap :
        (m : StatementMetadata)
        → IsPlain m
        → statement_write_write_possible index m
          ≡ any_statement context (metadata_write_write_overlap m) ts
    statement_write_write_possible-overlap m p =
        of_kind m p m.statement_kind refl
        ∙ any_statement_plain_ext context _ _ ts
            (λ s q. sym (metadata_write_write_overlap-kinds m s p q)) plain

  -- If the index stands for the queue, no statement of either side cascades to another table,
  -- each statement has the metadata that its kind requires, and the metadata of each transaction
  -- adds up that of its statements, then the counters ask for the write/write check exactly when
  -- the static test finds an overlap of the current transaction with a queued one.
  pub write_write_conflict_possible-overlap :
      (current : LoggedTransaction) {index : RemainingMetadataIndex} {ts : List LoggedTransaction}
      → StandsFor context index ts
      → AllPlain current.statements
      → QueuePlain ts
      → IsAggregated context current
      → AllAreAggregated context ts
      → write_write_conflict_possible current index
        ≡ any (λ t. transaction_write_write_overlap current.metadata t.metadata) ts
  unfolding write_write_conflict_possible transaction_write_write_overlap transaction_metadata
  write_write_conflict_possible-overlap current {index} {ts} r p q g h =
      any_plain_ext (statement_write_write_possible index)
        (λ m. any_statement context (metadata_write_write_overlap m) ts) current.statements
        (λ m plain. statement_write_write_possible-overlap r q m plain) p
      ∙ any-any_statement context (λ s. metadata_write_write_overlap s.metadata) current.statements
          ts
      ∙ each ts h
    where
      pairs :
          (t : LoggedTransaction)
          → IsAggregated context t
          → any
              (λ s.
                any (λ o. metadata_write_write_overlap o.metadata s.metadata) current.statements)
              t.statements
            ≡ transaction_write_write_overlap current.metadata t.metadata
      pairs t h =
          any-swap (λ s o. metadata_write_write_overlap o.metadata s.metadata) t.statements
            current.statements
          ∙ any_ext _ _ current.statements (λ o.
            sym (any-map (metadata_write_write_overlap o.metadata) (λ s. s.metadata) t.statements))
          ∙ sym (
              any-map
                (λ o. any (metadata_write_write_overlap o) (map (λ s. s.metadata) t.statements))
                (λ s. s.metadata) current.statements)
          ∙ ap₂ (λ os us. any (λ o. any (metadata_write_write_overlap o) us) os)
              (sym (ap (λ m. m.statements) g)) (sym (ap (λ m. m.statements) h))

      each :
          (ts : List LoggedTransaction)
          → AllAreAggregated context ts
          → any_statement context
              (λ m. any (λ o. metadata_write_write_overlap o.metadata m) current.statements)
              ts
            ≡ any (λ t. transaction_write_write_overlap current.metadata t.metadata) ts
      each [] h = refl
      each (t ∷ ts) h = ap₂ ◌||◌ (pairs t h.0) (each ts h.1)
