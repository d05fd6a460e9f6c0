-- ===== src/RemainingScan/Probing.antt =====
-- The comparison of what a transaction reads on main and on control leaves no trace.
use sqlite_reconcile.Prelude.{
  ℕ, suc, String, ap, Option, none, some, List, [], ◌∷◌, string_eq, nat_eq, contains, list_eq,
}
use sqlite_reconcile.Effects.{M}
use sqlite_reconcile.Effects.Keeps.{
  Keeps, to_Kept, still, >>=-Keeps, except_sqlite-Keeps, try_finally-Keeps, if-Keeps,
}
use sqlite_reconcile.Metadata.{
  ParsedSql, StatementMetadata, insert_expr, update_expr, delete_expr, other_expr,
}
use sqlite_reconcile.Models.{conflict_kind_eq, LoggedStatement, LoggedTransaction, pair_scope}
use sqlite_reconcile.Database.{Database}
use sqlite_reconcile.Database.Laws.{SavepointLaws}
use sqlite_reconcile.Database.Savepoints.{snapshot, discarded-Keeps}
use sqlite_reconcile.Replay.{
  control_sql_for, InsertSource, RenderedTree, ReplayContext, values, query, no_source,
}
use sqlite_reconcile.Replay.Execute.{Failure}
use sqlite_reconcile.Replay.Plain.{ArePlain}
use sqlite_reconcile.Probes.{
  is_update_from_statement, select_output_count, insert_select_probe_select, insert_probe_select,
  read_probe_of, read_probe_result, probe_has_duplicate_target_rows, ReadProbe, probe,
  no_read_dependency, not_refined,
}
use sqlite_reconcile.RemainingScan.{temp_tables_differ}
use sqlite_reconcile.RemainingScan.Reading.{
  compare_probes, probe_both, probe_reader, check_reader, marked, unless_given_up, unless_failed,
  reading_from, rolling_write_read_dependency, ReadCheck, ReaderProbe, same_rows, other_rows,
  gives_up,
}
use sqlite_reconcile.RemainingScan.Keeps.{
  fetchone-saved, fresh_savepoint-Keeps, on_main-Keeps, on_control-Keeps, temp_name-Keeps,
  create-Keeps, drop-Keeps, some_row-Keeps,
}

module _ (db : Database) (laws : SavepointLaws db) (context : ReplayContext) where
  open laws use {Content, content, saved}

  column_count-saved : (sql : String) → Keeps saved (db.column_count sql)
  column_count-saved sql s = to_Kept saved (ap (λ x. x.1) (laws.column_count-Contained sql s).0)

  insert_probe_select-Keeps :
      (tree : RenderedTree) (source : InsertSource)
      → Keeps saved (insert_probe_select db context tree source)
  unfolding insert_probe_select insert_select_probe_select select_output_count
  insert_probe_select-Keeps tree (values rows) = still saved _
  insert_probe_select-Keeps tree (query sql) =
      >>=-Keeps saved _ _
        (except_sqlite-Keeps saved _ _
          (>>=-Keeps saved _ _ (column_count-saved _) (λ count. still saved _))
          (λ i m. still saved _))
        (λ count. still saved _)
  insert_probe_select-Keeps tree no_source = still saved _

  read_probe_of-Keeps :
      (parsed : ParsedSql) (m : StatementMetadata) → Keeps saved (read_probe_of db context parsed m)
  read_probe_of-Keeps update_expr m = still saved _
  read_probe_of-Keeps delete_expr m = still saved _
  read_probe_of-Keeps (insert_expr target) m = insert_probe_select-Keeps _ _
  read_probe_of-Keeps other_expr m = still saved _

  pub has_duplicates-Keeps :
      (m : StatementMetadata) (sql : String)
      → Keeps saved (probe_has_duplicate_target_rows db context m sql)
  unfolding probe_has_duplicate_target_rows
  has_duplicates-Keeps m sql =
      if-Keeps saved _ _ _ (still saved _)
        (>>=-Keeps saved _ _ (fetchone-saved db laws context _) (λ row. still saved _))

  compare_probes-Keeps :
      (sql control_sql : String) → Keeps saved (compare_probes db context sql control_sql)
  unfolding compare_probes temp_tables_differ
  compare_probes-Keeps sql control_sql =
      >>=-Keeps saved _ _ (temp_name-Keeps db laws context) (λ before.
        >>=-Keeps saved _ _ (temp_name-Keeps db laws context) (λ after.
          try_finally-Keeps saved _ _
            (except_sqlite-Keeps saved _ _
              (>>=-Keeps saved _ _ (create-Keeps db laws context before sql) (λ _.
                >>=-Keeps saved _ _ (create-Keeps db laws context after control_sql) (λ _.
                  >>=-Keeps saved _ _ (some_row-Keeps db laws context _)
                    (λ differ. still saved _))))
              (λ i m. still saved _))
            (>>=-Keeps saved _ _ (drop-Keeps db laws context before)
              (λ _. drop-Keeps db laws context after))))

  probe_both-Keeps :
      (m : StatementMetadata) (sql : String) (control : Option String)
      → Keeps saved (probe_both db context m sql control)
  probe_both-Keeps m sql none = still saved _
  probe_both-Keeps m sql (some control) =
      >>=-Keeps saved _ _
        (if-Keeps saved (is_update_from_statement context m) _ _
          (>>=-Keeps saved _ _ (has_duplicates-Keeps m sql)
            (λ main. if-Keeps saved main _ _ (still saved _) (has_duplicates-Keeps m control)))
          (still saved _))
        (λ duplicates.
          if-Keeps saved duplicates _ _ (still saved _) (compare_probes-Keeps sql control))

  probe_reader-Keeps :
      (m : StatementMetadata) (found : ReadProbe) → Keeps saved (probe_reader db context m found)
  probe_reader-Keeps m no_read_dependency = still saved _
  probe_reader-Keeps m (not_refined reason) = still saved _
  probe_reader-Keeps m (probe sql) = probe_both-Keeps m sql (control_sql_for context sql)

  check_reader-Keeps : (s : LoggedStatement) → Keeps saved (check_reader db context s)
  unfolding check_reader read_probe_result
  check_reader-Keeps s =
      >>=-Keeps saved _ _ (read_probe_of-Keeps s.metadata.parsed_sql_text s.metadata)
        (λ found. probe_reader-Keeps s.metadata found)

  unless_given_up-Keeps :
      (told : ReaderProbe) (next : M db.State ReadCheck)
      → Keeps saved next
      → Keeps saved (unless_given_up db context told next)
  unless_given_up-Keeps (gives_up reason) next h = still saved _
  unless_given_up-Keeps same_rows next h = h
  unless_given_up-Keeps other_rows next h = h

  unless_failed-Keeps :
      (failure : Failure) (next : M db.State ReadCheck)
      → Keeps saved next
      → Keeps saved (unless_failed db context failure next)
  unless_failed-Keeps none next h = h
  unless_failed-Keeps (some failure) next h = still saved _

  reading_from-Keeps :
      (statements : List LoggedStatement) (reader : LoggedTransaction) (indexes found : List ℕ)
      (index : ℕ)
      → ArePlain db laws context statements
      → Keeps saved (reading_from db context reader indexes found index statements)
  unfolding reading_from
  reading_from-Keeps [] reader indexes found index p = still saved _
  reading_from-Keeps (s ∷ statements) reader indexes found index p =
      >>=-Keeps saved _ _
        (if-Keeps saved (contains indexes index) _ _ (check_reader-Keeps s) (still saved _))
        (λ told. unless_given_up-Keeps told _ (
          >>=-Keeps saved _ _ (on_main-Keeps db laws context s _ p.0) (λ main.
            unless_failed-Keeps main _ (
              >>=-Keeps saved _ _ (on_control-Keeps db laws context s pair_scope _ p.0) (λ control.
                unless_failed-Keeps control _ (
                  reading_from-Keeps statements reader indexes (marked db context told index found)
                    (suc index) p.1))))))

  pub rolling_write_read_dependency-Keeps :
      (writer reader : LoggedTransaction)
      → ArePlain db laws context reader.statements
      → Keeps (snapshot db laws) (rolling_write_read_dependency db context writer reader)
  unfolding rolling_write_read_dependency
  rolling_write_read_dependency-Keeps writer reader p =
      if-Keeps (snapshot db laws) _ _ _
        (>>=-Keeps (snapshot db laws) _ _ (fresh_savepoint-Keeps db laws context _) (λ name.
          discarded-Keeps db laws name _ (reading_from-Keeps reader.statements reader _ [] 0 p)))
        (still (snapshot db laws) _)
