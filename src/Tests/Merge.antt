-- ===== src/Tests/Merge.antt =====
-- The theorems on the merge and the remaining-transaction index, at the sample logs.
use sqlite_reconcile.Prelude.{◌≡◌, refl, [], ◌∷◌, list_eq, string_eq, nat_eq, any}
use sqlite_reconcile.Tests.Data.{
  context, our_head, our_second, our_log, their_log, scanner, environment, smooth, AnyWorld,
  AnyTransaction, apart, our_head-Independent, plain_update_a, plain_update_b, plain_delete_a,
}
use sqlite_reconcile.Utils.{columns_meet}
use sqlite_reconcile.Models.{ours}
use sqlite_reconcile.Mergetool.Loop.{both_turns, resolve_merge_transactions, initial_queues}
use sqlite_reconcile.Mergetool.Keeps.{Holds, Ends}
use sqlite_reconcile.Mergetool.Invariant.{
  InStep, AtMost, both_turns-InStep, resolve_merge_transactions-Ends, initial_queues-InStep,
}
use sqlite_reconcile.Scan.Quiet.{next_conflict-GoesPast, GoesPast}
use sqlite_reconcile.Scan.{next_conflict, new_scanner}
use sqlite_reconcile.Remaining.Index.{from_transactions, add_transaction, remove_transaction}
use sqlite_reconcile.Remaining.Standing.{StandsFor, queue_footprints}
use sqlite_reconcile.Remaining.Queue.{
  from_transactions-StandsFor, StandsFor-set, StandsFor-delete_at,
}
use sqlite_reconcile.Remaining.Fields.{referenced, field_of}
use sqlite_reconcile.Remaining.Represents.{names_at}
use sqlite_reconcile.Remaining.Counts.{column_counter_overlap, column_sets_overlap_counter}
use sqlite_reconcile.Remaining.Decides.{column_counter_overlap-Represents}
use sqlite_reconcile.Remaining.Prefilter.{column_sets_overlap_counter-write_read}
use sqlite_reconcile.Remaining.Direct.{write_write_conflict_possible-overlap}
use sqlite_reconcile.Remaining.Checks.{write_write_conflict_possible}
use sqlite_reconcile.StaticAnalysis.Overlaps.{
  transaction_write_read_overlap, transaction_write_write_overlap,
}

resolve_merge_transactions-Ends_example :
    Ends environment context
      (λ q. InStep context q × AtMost context 3 q)
      (resolve_merge_transactions environment context 5 our_log their_log 0)
resolve_merge_transactions-Ends_example =
    resolve_merge_transactions-Ends environment context 5 our_log their_log 0

both_turns-InStep_example :
    Holds environment context
      (InStep context)
      (both_turns environment context 5 (initial_queues environment context our_log their_log) 0)
both_turns-InStep_example =
    both_turns-InStep environment context 5 (initial_queues environment context our_log their_log) 0
      (initial_queues-InStep environment context our_log their_log)

next_conflict-GoesPast_example :
    GoesPast scanner context AnyWorld AnyTransaction
      (new_scanner scanner context 0 our_head ours [] [])
      (apart ∷ [])
      (next_conflict scanner context
        (new_scanner scanner context 0 our_head ours [] [])
        (apart ∷ []))
unfolding new_scanner
next_conflict-GoesPast_example =
    next_conflict-GoesPast scanner context AnyWorld AnyTransaction smooth.scanner_quiet ours
      (new_scanner scanner context 0 our_head ours [] []) (apart ∷ []) refl tt
      ((tt, tt, our_head-Independent), tt)

from_transactions-StandsFor_example : StandsFor context (from_transactions context our_log) our_log
from_transactions-StandsFor_example = from_transactions-StandsFor context our_log

StandsFor-set_example :
    StandsFor context
      (add_transaction context
        (remove_transaction context (from_transactions context our_log) our_second)
        our_head)
      (our_head ∷ our_head ∷ [])
StandsFor-set_example =
    StandsFor-set context 1 our_second our_head (from_transactions-StandsFor context our_log) refl

StandsFor-delete_at_example :
    StandsFor context
      (remove_transaction context (from_transactions context our_log) our_second)
      (our_head ∷ [])
StandsFor-delete_at_example =
    StandsFor-delete_at context (from_transactions-StandsFor context our_log) 1 our_second refl

column_counter_overlap-Represents_example :
    column_counter_overlap
      (field_of referenced (from_transactions context their_log))
      "a"
      ("x" ∷ [])
    ≡ names_at "a" (columns_meet ("x" ∷ [])) (queue_footprints context referenced their_log)
column_counter_overlap-Represents_example =
    column_counter_overlap-Represents
      ((from_transactions-StandsFor context their_log).counters referenced) "a" ("x" ∷ [])

column_sets_overlap_counter-write_read_example :
    column_sets_overlap_counter our_head.metadata.tables_updated_to_columns_updated
      (from_transactions context their_log).tables_referenced_to_column_counts
    ≡ any (λ t. transaction_write_read_overlap our_head.metadata t.metadata) their_log
column_sets_overlap_counter-write_read_example =
    column_sets_overlap_counter-write_read context our_head
      (from_transactions-StandsFor context their_log) (refl, tt)

write_write_conflict_possible-overlap_example :
    write_write_conflict_possible our_second (from_transactions context their_log)
    ≡ any (λ t. transaction_write_write_overlap our_second.metadata t.metadata) their_log
write_write_conflict_possible-overlap_example =
    write_write_conflict_possible-overlap context our_second
      (from_transactions-StandsFor context their_log) (plain_delete_a, tt)
      ((plain_update_b, (plain_update_a, tt)), tt) refl (refl, tt)
