-- ===== src/RemainingScan/Overlap.antt =====
-- src/merge/remaining_execution.py, `_find_write_write_overlap`: the rows that the current statements
-- touched against those that the opposite statements would touch, while the opposite transaction is
-- replayed on main.
use sqlite_reconcile.Prelude.{
  ℕ, suc, String, Bool, true, false, Option, none, some, List, [], ◌∷◌, ltb, if◌then◌else◌, length,
  get_elem?, nonempty, string_eq, nat_eq, list_eq, Dict, lookup,
}
use sqlite_reconcile.Effects.{
  M, pure, raise, ◌>>=◌, ◌>>◌, except_sqlite, try_finally, uncaught, index_error,
}
use sqlite_reconcile.Metadata.{required_updated_table}
use sqlite_reconcile.Models.{
  conflict_kind_eq, transaction_label, BranchName, LoggedStatement, LoggedTransaction, ours, theirs,
  pair_scope,
}
use sqlite_reconcile.Database.{rollback_savepoint, fresh_savepoint, Database}
use sqlite_reconcile.Replay.{ReplayContext}
use sqlite_reconcile.Replay.Execute.{Failure, execute_statement_on_main}
use sqlite_reconcile.Probes.{
  temp_probe_result_table_name, create_probe_result_table, drop_probe_result_table,
}
use sqlite_reconcile.RemainingScan.{
  ProbeTables, statement_write_probe_sql, current_of, candidate_pairs_for_other_statement,
  temp_table_intersects_probe, temp_tables_intersect,
}

pub data Overlap : Type 0 where
  no_overlap not_comparable : Overlap
  overlapping : LoggedStatement → LoggedStatement → Overlap

pub record Sides : Type 0 where
  pub current_branch : BranchName
  pub ours_transaction : LoggedTransaction
  pub theirs_transaction : LoggedTransaction

abbrev pub other_transaction : Sides → LoggedTransaction
other_transaction sides = elim sides.current_branch [
  | ours ↦ sides.theirs_transaction
  | theirs ↦ sides.ours_transaction
]

module _ (db : Database) (context : ReplayContext) where
  open db use {State, savepoint}

  abbrev pub pair_at : Option LoggedStatement → Option LoggedStatement → M State Overlap
  pair_at (some o) (some t) = pure (overlapping o t)
  pair_at _ _ = raise (uncaught index_error)

  -- Two stored tables are compared where the opposite probe has been stored.
  abbrev pub compare_tables : String → String → Option String → M State (Option Bool)
  compare_tables current_table sql none = temp_table_intersects_probe db current_table sql
  compare_tables current_table sql (some other_table) =
      temp_tables_intersect db current_table other_table

  -- The loop over the pairs of one opposite statement.
  unfoldable pub compare_pairs :
      Sides → Dict ℕ String → String → Option String → List (ℕ × ℕ) → M State Overlap
  unfolding temp_table_intersects_probe temp_tables_intersect
  compare_pairs sides tables sql other_table [] = pure no_overlap
  compare_pairs sides tables sql other_table (pair ∷ pairs) =
      elim (lookup tables (current_of sides.current_branch pair)) [
        | none ↦ pure not_comparable
        | some current_table ↦ (do
          overlap ← compare_tables current_table sql other_table
          elim overlap [
            | none ↦ pure not_comparable
            | some met ↦
                (if met
                  then pair_at (get_elem? sides.ours_transaction.statements pair.0)
                      (get_elem? sides.theirs_transaction.statements pair.1)
                  else compare_pairs sides tables sql other_table pairs)
          ])
      ]

  -- With more than one pair the opposite probe is stored first; it is dropped in any case.
  unfoldable pub compare_stored : Sides → Dict ℕ String → String → List (ℕ × ℕ) → M State Overlap
  unfolding compare_pairs create_probe_result_table drop_probe_result_table
  compare_stored sides tables sql pairs =
      if ltb 1 (length pairs)
      then (do
        other_table ← temp_probe_result_table_name db context
        try_finally
            (do
              created ←
                  except_sqlite (do create_probe_result_table db context other_table sql; pure true)
                    (λ is_integrity message. pure false)
              (if created
                  then compare_pairs sides tables sql (some other_table) pairs
                  else pure not_comparable))
            (drop_probe_result_table db context other_table))
      else compare_pairs sides tables sql none pairs

  unfoldable pub compare_statement :
      Sides → ProbeTables → LoggedStatement → List (ℕ × ℕ) → M State Overlap
  unfolding compare_stored statement_write_probe_sql
  compare_statement sides tables s pairs =
      elim (lookup tables (required_updated_table s.metadata)) [
        | none ↦ pure not_comparable
        | some current_tables ↦ (elim (statement_write_probe_sql context s false) [
          | none ↦ pure not_comparable
          | some sql ↦ compare_stored sides current_tables sql pairs
        ])
      ]

  abbrev pub replayed_or_stop : Failure → M State Overlap → M State Overlap
  replayed_or_stop none next = next
  replayed_or_stop (some failure) next = pure not_comparable

  abbrev pub overlap_or_next : Overlap → M State Overlap → M State Overlap
  overlap_or_next no_overlap next = next
  overlap_or_next not_comparable next = pure not_comparable
  overlap_or_next (overlapping o t) next = pure (overlapping o t)

  -- The loop over the opposite statements.
  unfoldable pub overlap_from :
      Sides → ProbeTables → List (ℕ × ℕ) → ℕ → List LoggedStatement → M State Overlap
  unfolding compare_statement candidate_pairs_for_other_statement execute_statement_on_main
      transaction_label
  overlap_from sides tables pairs index [] = pure no_overlap
  overlap_from sides tables pairs index (s ∷ statements) =
      let matching = candidate_pairs_for_other_statement sides.current_branch pairs index in
      (do
        found ←
            (if nonempty matching
              then compare_statement sides tables s matching
              else pure no_overlap)
        overlap_or_next found (do
          failure ←
              execute_statement_on_main db context s pair_scope
                (transaction_label (other_transaction sides)) true
          replayed_or_stop failure (overlap_from sides tables pairs (suc index) statements)))

  -- `_find_write_write_overlap`
  unfoldable pub find_write_write_overlap : Sides → ProbeTables → List (ℕ × ℕ) → M State Overlap
  unfolding overlap_from rollback_savepoint
  find_write_write_overlap sides tables pairs = do
    name ← fresh_savepoint db "sqlite_merge_remaining_write_probe_"
    (savepoint name
        >> try_finally (overlap_from sides tables pairs 0 (other_transaction sides).statements)
            (rollback_savepoint db name))
