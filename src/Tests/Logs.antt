-- ===== src/Tests/Logs.antt =====
-- The theorems on the wrapper's log and on the loaded log, at sample statements.
use sqlite_reconcile.Wrapper.Execute.{savepoint_name}
use sqlite_reconcile.Tests.Syntax.{ascii}
use sqlite_reconcile.Prelude.{
  String, true, false, ◌≡◌, ◌≢◌, ◌+◌, refl, List, [], ◌∷◌, ◌++◌, map, some, none, nat_eq, string_eq,
  list_eq,
}
use mathlib.Core.List.{flat_map}
use sqlite_reconcile.Tests.Data.{update_a, update_b, delete_a, statement}
use sqlite_reconcile.Models.{ours, LoggedStatement}
use sqlite_reconcile.LogMerge.{
  replay_warning_reason, pending_replay_warning, unresolved_replay_block_reason,
  accept_replay_warning, group_by_id, group_logged_transactions,
}
use sqlite_reconcile.LogMerge.Grouping.{
  group_logged_transactions-statements, group_logged_transactions-IsNumbered, AreRuns, IsNumbered,
}
use sqlite_reconcile.LogMerge.Warnings.{accept_replay_warning-unresolved}
use sqlite_reconcile.Wrapper.{begin, flush, fresh_wrapper, LogEntry, SqliteWrapper}
use sqlite_reconcile.Wrapper.Spec.{
  surviving, spec_steps, wrapper_steps, Transaction, Step, log_statement, set_savepoint,
  roll_back_to, release_last,
}
use sqlite_reconcile.Wrapper.Frames.{IsFramed}
use sqlite_reconcile.Wrapper.Refinement.{commit-surviving, wrapper_steps-IsFramed}

abbrev entry : String → LogEntry
entry sql = record {
  original_sql_text = sql;
  to_replay_sql_text = sql;
  is_replay_safe = true;
  replay_block_reason = none;
}

-- a; SAVEPOINT s; b; SAVEPOINT t; c; RELEASE t; ROLLBACK TO s; d
abbrev steps : List Step
steps =
    log_statement (entry "a")
    ∷ set_savepoint "s"
    ∷ log_statement (entry "b")
    ∷ set_savepoint "t"
    ∷ log_statement (entry "c")
    ∷ release_last
    ∷ roll_back_to "s"
    ∷ log_statement (entry "d")
    ∷ []

surviving-steps :
    surviving (spec_steps (λ s. s) steps (record { before = []; frames = [] }))
    ≡ entry "a" ∷ entry "d" ∷ []
surviving-steps = refl

commit-surviving_example :
    (flush (wrapper_steps (λ s. s) steps (begin fresh_wrapper))).log
    ≡ fresh_wrapper.log
      ++ map
          (λ e. (fresh_wrapper.last_transaction_id + 1, e))
          (surviving (spec_steps (λ s. s) steps (record { before = []; frames = [] })))
commit-surviving_example = commit-surviving (λ s. s) steps fresh_wrapper

-- A wrapper whose transaction has logged one statement and set one savepoint.
abbrev open_wrapper : SqliteWrapper
open_wrapper = record fresh_wrapper {
  in_transaction = true;
  buffer = entry "a" ∷ [];
  savepoints = ("s", 1) ∷ [];
}

abbrev open_transaction : Transaction
open_transaction = record { before = entry "a" ∷ []; frames = ("s", []) ∷ [] }

wrapper_steps-IsFramed_example :
    IsFramed open_wrapper
      (wrapper_steps (λ s. s) steps open_wrapper)
      (spec_steps (λ s. s) steps open_transaction)
wrapper_steps-IsFramed_example =
    wrapper_steps-IsFramed (λ s. s) steps open_wrapper open_transaction
      (record {
        is_open = refl;
        buffer_is = refl;
        savepoints_are = refl;
        log_is = refl;
        id_is = refl;
        error_is = refl;
      })

abbrev loaded : List LoggedStatement
loaded =
    statement ours 1 update_a
    ∷ statement ours 1 update_b
    ∷ statement ours 2 delete_a
    ∷ statement ours 1 update_a
    ∷ []

group_logged_transactions-statements_example :
    flat_map (λ t. t.statements) (group_logged_transactions loaded) ≡ loaded
group_logged_transactions-statements_example = group_logged_transactions-statements loaded

group_logged_transactions-IsNumbered_example :
    AreRuns (group_by_id loaded)
    × IsNumbered 0 (group_by_id loaded) (group_logged_transactions loaded)
group_logged_transactions-IsNumbered_example = group_logged_transactions-IsNumbered loaded

abbrev warned : LoggedStatement
warned = record (statement ours 1 update_a) {
  is_replay_safe = false;
  replay_block_reason = some "nondeterministic expression cannot be safely materialized: random()";
}

abbrev warning : String
warning = "nondeterministic expression cannot be safely materialized: random()"

warned-pending : pending_replay_warning warned ≡ some warning
unfolding pending_replay_warning replay_warning_reason
warned-pending = refl

accept_replay_warning-unresolved_example :
    pending_replay_warning (accept_replay_warning warned warning) ≡ none
    × unresolved_replay_block_reason (accept_replay_warning warned warning) ≡ none
    × unresolved_replay_block_reason warned ≢ none
accept_replay_warning-unresolved_example =
    accept_replay_warning-unresolved warned warning warned-pending

savepoint_name_test : savepoint_name ascii "SAVEPOINT  \"s p\" `sp1`;" ≡ "sp1"
unfolding savepoint_name
savepoint_name_test = refl
