-- ===== src/Remaining/Standing.antt =====
-- The index stands for the transactions that remain: adding and removing keeps it so.
use sqlite_reconcile.Prelude.{
  ◌+◌, ◌-◌, String, ◌≡◌, refl, sym, ap, ◌∙◌, List, [], ◌∷◌, ◌++◌, arith, length, nat_eq, string_eq,
  list_eq,
}
use sqlite_reconcile.Schema.{ConflictCheckContext}
use sqlite_reconcile.Models.{LoggedStatement, LoggedTransaction}
use sqlite_reconcile.Remaining.Counts.{ColumnCountMap, Delta, up, down}
use sqlite_reconcile.Remaining.Counting.{Footprint, occurrences_in, occurrences_in-append}
use sqlite_reconcile.Remaining.Represents.{
  Represents, Represents-nil, Represents-add, Represents-remove, Represents-same,
}
use sqlite_reconcile.Remaining.Index.{
  RemainingMetadataIndex, empty_index, update_entries, update_statement, update_statements,
  add_transaction, remove_transaction,
}
use sqlite_reconcile.Remaining.Fields.{
  Field, referenced, written, created, removed, updated, omitted, field_of, update_entries-append,
  all_footprints,
}
use sqlite_reconcile.Remaining.Moves.{field-update_statement, count-update_statement}

Represents-add_all :
    (fs : List Footprint) {m : ColumnCountMap} {gs : List Footprint}
    → Represents m gs
    → Represents (update_entries up m fs) (fs ++ gs)
unfolding update_entries
Represents-add_all [] r = r
Represents-add_all (f ∷ fs) {gs = gs} r =
    Represents-same ((f ∷ fs) ++ gs) (Represents-add_all fs (Represents-add r f.0 f.1))
      (λ u c. omega (arith, occurrences_in-append fs (f ∷ gs) u c, occurrences_in-append fs gs u c))

Represents-remove_all :
    (fs gs : List Footprint) {m : ColumnCountMap} {hs : List Footprint}
    → Represents m hs
    → ((u c : String) → occurrences_in hs u c ≡ occurrences_in (fs ++ gs) u c)
    → Represents (update_entries down m fs) gs
unfolding update_entries
Represents-remove_all [] gs r h = Represents-same gs r h
Represents-remove_all (f ∷ fs) gs r h =
    Represents-remove_all fs gs (Represents-remove r f.0 f.1 (fs ++ gs) h) (λ u c. refl)

module _ (context : ConflictCheckContext) where
  -- What the statements of a transaction, and the transactions of a queue, add to a counter.
  abbrev pub statements_footprints : Field → List LoggedStatement → List Footprint
  statements_footprints field [] = []
  statements_footprints field (s ∷ statements) =
      all_footprints context field s.metadata ++ statements_footprints field statements

  abbrev pub queue_footprints : Field → List LoggedTransaction → List Footprint
  queue_footprints field [] = []
  queue_footprints field (t ∷ ts) =
      statements_footprints field t.statements ++ queue_footprints field ts

  field-update_statements :
      (delta : Delta) (field : Field) (index : RemainingMetadataIndex)
      (statements : List LoggedStatement)
      → field_of field (update_statements context delta index statements)
        ≡ update_entries delta (field_of field index) (statements_footprints field statements)
  unfolding update_statements update_entries
  field-update_statements delta field index [] = refl
  field-update_statements delta field index (s ∷ statements) =
      field-update_statements delta field (update_statement context delta index s.metadata)
        statements
      ∙ ap (λ m. update_entries delta m (statements_footprints field statements))
          (field-update_statement context delta field index s.metadata)
      ∙ sym (
          update_entries-append delta (field_of field index)
            (all_footprints context field s.metadata) (statements_footprints field statements))

  count-update_statements :
      (delta : Delta) (index : RemainingMetadataIndex) (statements : List LoggedStatement)
      → (update_statements context delta index statements).transaction_count
        ≡ index.transaction_count
  unfolding update_statements
  count-update_statements delta index [] = refl
  count-update_statements delta index (s ∷ statements) =
      count-update_statements delta (update_statement context delta index s.metadata) statements
      ∙ count-update_statement context delta index s.metadata

  -- The index stands for the queue: each counter counts the footprints of its transactions.
  pub record StandsFor (index : RemainingMetadataIndex) (ts : List LoggedTransaction) : Type 0 where
    pub counters : (field : Field) → Represents (field_of field index) (queue_footprints field ts)
    pub count : index.transaction_count ≡ length ts

  pub empty_index-StandsFor : StandsFor empty_index []
  empty_index-StandsFor = record { counters = empty_counter; count = refl }
    where
      empty_counter :
          (field : Field) → Represents (field_of field empty_index) (queue_footprints field [])
      empty_counter referenced = Represents-nil
      empty_counter written = Represents-nil
      empty_counter created = Represents-nil
      empty_counter removed = Represents-nil
      empty_counter updated = Represents-nil
      empty_counter omitted = Represents-nil

  field-add_transaction :
      (field : Field) (index : RemainingMetadataIndex) (t : LoggedTransaction)
      → field_of field (add_transaction context index t)
        ≡ field_of field (update_statements context up index t.statements)
  unfolding add_transaction
  field-add_transaction referenced index t = refl
  field-add_transaction _ index t = refl

  field-remove_transaction :
      (field : Field) (index : RemainingMetadataIndex) (t : LoggedTransaction)
      → field_of field (remove_transaction context index t)
        ≡ field_of field (update_statements context down index t.statements)
  unfolding remove_transaction
  field-remove_transaction referenced index t = refl
  field-remove_transaction _ index t = refl

  count-add_transaction :
      (index : RemainingMetadataIndex) (t : LoggedTransaction)
      → (add_transaction context index t).transaction_count ≡ index.transaction_count + 1
  unfolding add_transaction
  count-add_transaction index t = omega (arith, count-update_statements up index t.statements)

  count-remove_transaction :
      (index : RemainingMetadataIndex) (t : LoggedTransaction)
      → (remove_transaction context index t).transaction_count ≡ index.transaction_count - 1
  unfolding remove_transaction
  count-remove_transaction index t = omega (arith, count-update_statements down index t.statements)

  -- Adding a transaction to the index is adding it to the queue.
  pub add_transaction-StandsFor :
      (index : RemainingMetadataIndex) (ts : List LoggedTransaction) (t : LoggedTransaction)
      → StandsFor index ts
      → StandsFor (add_transaction context index t) (t ∷ ts)
  add_transaction-StandsFor index ts t r = record {
    counters = λ field.
        rw
          (field-add_transaction field index t, field-update_statements up field index t.statements)
          (Represents-add_all (statements_footprints field t.statements) (r.counters field));
    count = omega (arith, count-add_transaction index t, r.count);
  }

  -- The order of the queue does not matter to the counters.
  pub StandsFor-same :
      {index : RemainingMetadataIndex} {ts : List LoggedTransaction} (us : List LoggedTransaction)
      → StandsFor index ts
      → ((field : Field) (u c : String)
          → occurrences_in (queue_footprints field ts) u c
            ≡ occurrences_in (queue_footprints field us) u c)
      → length ts ≡ length us
      → StandsFor index us
  StandsFor-same us r h n = record {
    counters = λ field. Represents-same (queue_footprints field us) (r.counters field) (h field);
    count = r.count ∙ n;
  }

  -- Taking a transaction out of the index is taking it out of the queue.
  pub remove_transaction-StandsFor :
      (index : RemainingMetadataIndex) (ts : List LoggedTransaction) (t : LoggedTransaction)
      → StandsFor index (t ∷ ts)
      → StandsFor (remove_transaction context index t) ts
  remove_transaction-StandsFor index ts t r = record {
    counters = λ field.
        rw
          (
            field-remove_transaction field index t,
            field-update_statements down field index t.statements,
          )
          (Represents-remove_all (statements_footprints field t.statements)
            (queue_footprints field ts) (r.counters field) (λ u c. refl));
    count = omega (arith, count-remove_transaction index t, r.count);
  }
