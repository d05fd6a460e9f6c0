-- ===== src/RemainingScan/Reading.antt =====
-- src/merge/remaining_execution.py, `_rolling_write_read_dependency`: what the opposite transaction
-- reads on main against what it reads on control, while both replay it.
use sqlite_reconcile.Prelude.{
  ℕ, suc, String, Bool, true, false, Option, none, some, List, [], ◌∷◌, ◌++◌, if◌then◌else◌,
  nonempty, string_eq, nat_eq, contains, list_eq,
}
use sqlite_reconcile.Effects.{M, pure, ◌>>=◌, ◌>>◌, except_sqlite, try_finally}
use sqlite_reconcile.Metadata.{StatementMetadata}
use sqlite_reconcile.Models.{
  conflict_kind_eq, transaction_label, LoggedStatement, LoggedTransaction, pair_scope,
}
use sqlite_reconcile.Database.{rollback_savepoint, fresh_savepoint, Database}
use sqlite_reconcile.Replay.{control_sql_for, ReplayContext}
use sqlite_reconcile.Replay.Execute.{
  Failure, execute_statement_on_main, execute_statement_on_control,
}
use sqlite_reconcile.Probes.{
  is_update_from_statement, read_probe_result, probe_has_duplicate_target_rows,
  temp_probe_result_table_name, create_probe_result_table, drop_probe_result_table, ReadProbe,
  probe, no_read_dependency, not_refined,
}
use sqlite_reconcile.StaticAnalysis.Overlaps.{write_read_candidate_indexes}
use sqlite_reconcile.RemainingScan.{temp_tables_differ}

-- `WriteReadProbeResult`: the affected readers, none, or why it could not be told.
pub data ReadCheck : Type 0 where
  affected : List ℕ → ReadCheck
  unaffected : ReadCheck
  unclear : String → ReadCheck

-- What one reader's probe tells.
pub data ReaderProbe : Type 0 where
  same_rows other_rows : ReaderProbe
  gives_up : String → ReaderProbe

module _ (db : Database) (context : ReplayContext) where
  open db use {State, savepoint}

  -- `a or b`: the second probe is made only if the first finds no duplicates.
  abbrev pub either_has_duplicates : StatementMetadata → String → String → M State Bool
  either_has_duplicates m sql control_sql = do
    main ← probe_has_duplicate_target_rows db context m sql
    if main then pure true else probe_has_duplicate_target_rows db context m control_sql

  -- Both probes are stored, compared and dropped.
  unfoldable pub compare_probes : String → String → M State ReaderProbe
  unfolding create_probe_result_table drop_probe_result_table temp_tables_differ
  compare_probes sql control_sql = do
    before_table ← temp_probe_result_table_name db context
    after_table ← temp_probe_result_table_name db context
    try_finally
        (except_sqlite
          (do
            create_probe_result_table db context before_table sql
            create_probe_result_table db context after_table control_sql
            differ ← temp_tables_differ db before_table after_table
            pure (if differ then other_rows else same_rows))
          (λ is_integrity message. pure (gives_up message)))
        (drop_probe_result_table db context before_table
          >> drop_probe_result_table db context after_table)

  abbrev pub probe_both : StatementMetadata → String → Option String → M State ReaderProbe
  probe_both m sql none = pure (gives_up "reader probe cannot be rewritten for control database")
  probe_both m sql (some control_sql) = do
    duplicates ←
        (if is_update_from_statement context m
          then either_has_duplicates m sql control_sql
          else pure false)
    (if duplicates
        then pure (gives_up "reader UPDATE FROM has multiple source rows")
        else compare_probes sql control_sql)

  abbrev pub probe_reader : StatementMetadata → ReadProbe → M State ReaderProbe
  probe_reader m no_read_dependency = pure same_rows
  probe_reader m (not_refined reason) = pure (gives_up reason)
  probe_reader m (probe sql) = probe_both m sql (control_sql_for context sql)

  unfoldable pub check_reader : LoggedStatement → M State ReaderProbe
  unfolding read_probe_result compare_probes probe_has_duplicate_target_rows control_sql_for
  check_reader s = do found ← read_probe_result db context s.metadata; probe_reader s.metadata found

  abbrev pub marked : ReaderProbe → ℕ → List ℕ → List ℕ
  marked other_rows index indexes = indexes ++ index ∷ []
  marked _ index indexes = indexes

  abbrev pub unless_given_up : ReaderProbe → M State ReadCheck → M State ReadCheck
  unless_given_up (gives_up reason) next = pure (unclear reason)
  unless_given_up _ next = next

  abbrev pub unless_failed : Failure → M State ReadCheck → M State ReadCheck
  unless_failed none next = next
  unless_failed (some failure) next = pure (unclear failure.message)

  -- The loop over the reader's statements; `found` are the affected indexes so far.
  unfoldable pub reading_from :
      LoggedTransaction → List ℕ → List ℕ → ℕ → List LoggedStatement → M State ReadCheck
  unfolding check_reader execute_statement_on_main execute_statement_on_control transaction_label
  reading_from reader indexes found index [] =
      pure (if nonempty found then affected found else unaffected)
  reading_from reader indexes found index (s ∷ statements) = do
    told ← (if contains indexes index then check_reader s else pure same_rows)
    unless_given_up told (do
      main ← execute_statement_on_main db context s pair_scope (transaction_label reader) true
      unless_failed main (do
        control ←
            execute_statement_on_control db context s pair_scope (transaction_label reader) true
        unless_failed control
            (reading_from reader indexes (marked told index found) (suc index) statements)))

  -- `_rolling_write_read_dependency`
  unfoldable pub rolling_write_read_dependency :
      LoggedTransaction → LoggedTransaction → M State ReadCheck
  unfolding reading_from rollback_savepoint write_read_candidate_indexes
  rolling_write_read_dependency writer reader =
      let indexes = write_read_candidate_indexes writer.metadata reader.metadata in
      if nonempty indexes
      then (do
        name ← fresh_savepoint db "sqlite_merge_remaining_read_probe_"
        (savepoint name
            >> try_finally (reading_from reader indexes [] 0 reader.statements)
                (rollback_savepoint db name)))
      else pure unaffected
