-- ===== src/Remaining/Queue.antt =====
-- The index beside a queue: built from it, and kept in step with changes at any place.
use mathlib.Core.List.{append-nil}
use sqlite_reconcile.Prelude.{
  ℕ, zero, suc, ◌+◌, String, ◌≡◌, refl, some, List, [], ◌∷◌, ◌++◌, arith, length, get_elem?,
  delete_at, set, nat_eq, string_eq, list_eq,
}
use sqlite_reconcile.Schema.{ConflictCheckContext}
use sqlite_reconcile.Models.{LoggedTransaction}
use sqlite_reconcile.Remaining.Counting.{occurrences_in, occurrences_in-append}
use sqlite_reconcile.Remaining.Index.{
  RemainingMetadataIndex, add_transaction, remove_transaction, from_transactions, add_transactions,
}
use sqlite_reconcile.Remaining.Fields.{Field}
use sqlite_reconcile.Remaining.Standing.{
  StandsFor, StandsFor-same, queue_footprints, statements_footprints, add_transaction-StandsFor,
  remove_transaction-StandsFor, empty_index-StandsFor,
}

module _ (context : ConflictCheckContext) where
  occurrences-cons :
      (field : Field) (t : LoggedTransaction) (ts : List LoggedTransaction) (u c : String)
      → occurrences_in (queue_footprints context field (t ∷ ts)) u c
        ≡ occurrences_in (statements_footprints context field t.statements) u c
          + occurrences_in (queue_footprints context field ts) u c
  occurrences-cons field t ts u c =
      occurrences_in-append (statements_footprints context field t.statements)
        (queue_footprints context field ts) u c

  -- Two queues that the counters cannot tell apart.
  pub record SameCounts (ts us : List LoggedTransaction) : Type 0 where
    pub at :
        (field : Field) (u c : String)
        → occurrences_in (queue_footprints context field ts) u c
          ≡ occurrences_in (queue_footprints context field us) u c
    pub size : length ts ≡ length us

  SameCounts-middle :
      (ts us : List LoggedTransaction) (t : LoggedTransaction)
      → SameCounts (ts ++ t ∷ us) (t ∷ ts ++ us)
  SameCounts-middle [] us t = record { at = λ field u c. refl; size = refl }
  SameCounts-middle (s ∷ ts) us t =
      let r = SameCounts-middle ts us t in
      record {
        at = λ field u c. omega (
          arith,
          r.at field u c,
          occurrences-cons field s (ts ++ t ∷ us) u c,
          occurrences-cons field t (s ∷ ts ++ us) u c,
          occurrences-cons field s (ts ++ us) u c,
          occurrences-cons field t (ts ++ us) u c,
        );
        size = omega (arith, r.size);
      }

  SameCounts-delete_at :
      (ts : List LoggedTransaction) (i : ℕ) (t : LoggedTransaction)
      → get_elem? ts i ≡ some t
      → SameCounts ts (t ∷ delete_at ts i)
  SameCounts-delete_at [] i t h = cc
  SameCounts-delete_at (s ∷ ts) zero t h =
      let e : s ≡ t = cc in rw e (record { at = λ field u c. refl; size = refl })
  SameCounts-delete_at (s ∷ ts) (suc i) t h =
      let r = SameCounts-delete_at ts i t h in
      record {
        at = λ field u c. omega (
          arith,
          r.at field u c,
          occurrences-cons field s ts u c,
          occurrences-cons field t (s ∷ delete_at ts i) u c,
          occurrences-cons field s (delete_at ts i) u c,
          occurrences-cons field t (delete_at ts i) u c,
        );
        size = omega (arith, r.size);
      }

  SameCounts-set :
      (ts : List LoggedTransaction) (i : ℕ) (t new : LoggedTransaction)
      → get_elem? ts i ≡ some t
      → SameCounts (new ∷ delete_at ts i) (set ts i new)
  SameCounts-set [] i t new h = cc
  SameCounts-set (s ∷ ts) zero t new h = record { at = λ field u c. refl; size = refl }
  SameCounts-set (s ∷ ts) (suc i) t new h =
      let r = SameCounts-set ts i t new h in
      record {
        at = λ field u c. omega (
          arith,
          r.at field u c,
          occurrences-cons field s (set ts i new) u c,
          occurrences-cons field new (s ∷ delete_at ts i) u c,
          occurrences-cons field s (delete_at ts i) u c,
          occurrences-cons field new (delete_at ts i) u c,
        );
        size = omega (arith, r.size);
      }

  module _ {index : RemainingMetadataIndex} {ts : List LoggedTransaction}
      (r : StandsFor context index ts) where
    StandsFor-SameCounts :
        {us : List LoggedTransaction} → SameCounts ts us → StandsFor context index us
    StandsFor-SameCounts {us} s = StandsFor-same context us r s.at s.size

    -- If the index stands for the queue and the queue has a transaction at a position, then the
    -- index after the removal of that transaction stands for the queue without that position.
    pub StandsFor-delete_at :
        (i : ℕ) (t : LoggedTransaction)
        → get_elem? ts i ≡ some t
        → StandsFor context (remove_transaction context index t) (delete_at ts i)
    StandsFor-delete_at i t h =
        remove_transaction-StandsFor context index (delete_at ts i) t
          (StandsFor-SameCounts (SameCounts-delete_at ts i t h))

  -- If the index stands for the queue and the queue has a transaction at a position, then the
  -- index after the removal of that transaction and the addition of another one stands for the
  -- queue with the other one at that position.
  pub StandsFor-set :
      {index : RemainingMetadataIndex} {ts : List LoggedTransaction} (i : ℕ)
      (t new : LoggedTransaction)
      → StandsFor context index ts
      → get_elem? ts i ≡ some t
      → StandsFor context
          (add_transaction context (remove_transaction context index t) new)
          (set ts i new)
  StandsFor-set {index} {ts} i t new r h =
      StandsFor-SameCounts
        (add_transaction-StandsFor context (remove_transaction context index t) (delete_at ts i) new
          (StandsFor-delete_at r i t h))
        (SameCounts-set ts i t new h)

  add_transactions-StandsFor :
      (ts us : List LoggedTransaction) {index : RemainingMetadataIndex}
      → StandsFor context index us
      → StandsFor context (add_transactions context index ts) (ts ++ us)
  add_transactions-StandsFor [] us r = r
  add_transactions-StandsFor (t ∷ ts) us {index} r =
      StandsFor-SameCounts
        (add_transactions-StandsFor ts (t ∷ us) (add_transaction-StandsFor context index us t r))
        (SameCounts-middle ts us t)

  -- An index that is built from a queue stands for the queue: each of its six counters counts,
  -- for every table and column, the occurrences in what the statements of the queue add to it,
  -- and the transaction count is the length of the queue.
  pub from_transactions-StandsFor :
      (ts : List LoggedTransaction) → StandsFor context (from_transactions context ts) ts
  unfolding from_transactions
  from_transactions-StandsFor ts =
      rw append-nil at (add_transactions-StandsFor ts [] (empty_index-StandsFor context))
