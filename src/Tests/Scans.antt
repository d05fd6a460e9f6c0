-- ===== src/Tests/Scans.antt =====
-- A scan on the store of the replay's tests.
use mathlib.Core.List.{flat_map}
use sqlite_reconcile.RemainingScan.Trace.{check, done}
use sqlite_reconcile.Prelude.{◌≡◌, refl, none, some, [], ◌∷◌, flat_map, string_eq, nat_eq, list_eq}
use sqlite_reconcile.Effects.{ok}
use sqlite_reconcile.Metadata.{transaction_metadata}
use sqlite_reconcile.Models.{
  conflict_kind_eq, ConflictCheckResult, result_of, LoggedTransaction, ours, theirs, write_write,
  integrity,
}
use sqlite_reconcile.StaticAnalysis.Overlaps.{metadata_write_write_overlap}
use sqlite_reconcile.RemainingScan.Refine.{pair_conflict, start, ScannerState}
use sqlite_reconcile.RemainingScan.Scanner.{check_next, close}
use sqlite_reconcile.RemainingScan.Steps.{check_next-Settled}
use sqlite_reconcile.RemainingScan.Endings.{Settled}
use sqlite_reconcile.RemainingScan.Trace.{close-traceless}
use sqlite_reconcile.Tests.Replays.{store, store_laws, replay_context, began, plain_all, Store}
use sqlite_reconcile.Tests.Data.{update_a, update_b, statement, transaction_of, our_head}

abbrev scan : ScannerState
scan = record {
  current_transaction = our_head;
  current_branch = ours;
  enabled_kinds = write_write ∷ integrity ∷ [];
  open_savepoint = none;
  current_write_probe_tables = none;
}

abbrev other : LoggedTransaction
other = transaction_of theirs 1 (update_b ∷ update_a ∷ [])

abbrev static : ConflictCheckResult
static = (write_write, pair_conflict write_write "static" ∷ []) ∷ []

-- The state behind the start.
abbrev scanning : ScannerState
scanning = record scan {
  open_savepoint = some "\"sqlite_merge_remaining_scan_00\"";
  current_write_probe_tables = some (("a", (0, "__sqlite_merge_probe_00") ∷ []) ∷ []);
}

abbrev scanned : Store
scanned = record {
  ran =
      "before"
      ∷ "CREATE TEMP TABLE \"__sqlite_merge_probe_00\" AS SELECT * FROM (control SELECT \"a\".\"id\" FROM a)"
      ∷ "control sql" ∷ [];
  saves = ("\"sqlite_merge_remaining_scan_00\"", "before" ∷ []) ∷ ("outer", []) ∷ [];
}

start_test : start store replay_context scan began ≡ (scanned, ok (scanning, []))
unfolding start result_of
start_test = refl

-- The rows do not meet, so the static conflict is dropped and both sides advance.
check_test : (check_next store replay_context scanning our_head other static scanned).1 ≡ ok []
unfolding check_next result_of metadata_write_write_overlap flat_map transaction_metadata
check_test = refl

check_next-Settled_example :
    Settled store store_laws replay_context scanned.ran scanned.saves
      (check_next store replay_context scanning our_head other static scanned)
check_next-Settled_example =
    check_next-Settled store store_laws replay_context scanning our_head other static scanned
      (statement theirs 1 update_a, refl) (plain_all _, (plain_all _, tt))

close-traceless_example :
    ((close store replay_context scanning
        (check_next store replay_context scanning our_head other static scanned).0).0.ran
      ≡ began.ran)
    × ((close store replay_context scanning
          (check_next store replay_context scanning our_head other static scanned).0).0.saves
        ≡ began.saves)
    × ((close store replay_context scanning
          (check_next store replay_context scanning our_head other static scanned).0).1
        ≡ ok (record scanning { open_savepoint = none }))
close-traceless_example =
    close-traceless store store_laws replay_context scan scanning [] began scanned _
      (plain_all _, tt) start_test
      (check our_head other static (statement theirs 1 update_a, refl)
        (plain_all _, (plain_all _, tt)) done)
