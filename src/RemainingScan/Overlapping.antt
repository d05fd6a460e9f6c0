-- ===== src/RemainingScan/Overlapping.antt =====
-- The comparison of the rows that two transactions touch leaves no trace.
use sqlite_reconcile.Prelude.{
  ℕ, suc, String, false, Option, none, some, List, [], ◌∷◌, ltb, length, nonempty, string_eq,
  nat_eq, list_eq, Dict, lookup,
}
use sqlite_reconcile.Effects.{M, pure}
use sqlite_reconcile.Effects.Keeps.{
  Keeps, still, >>=-Keeps, except_sqlite-Keeps, try_finally-Keeps, if-Keeps,
}
use sqlite_reconcile.Metadata.{required_updated_table}
use sqlite_reconcile.Models.{conflict_kind_eq, LoggedStatement}
use sqlite_reconcile.Database.{Database}
use sqlite_reconcile.Database.Laws.{SavepointLaws}
use sqlite_reconcile.Database.Savepoints.{snapshot, discarded-Keeps}
use sqlite_reconcile.Replay.{ReplayContext}
use sqlite_reconcile.Replay.Execute.{Failure}
use sqlite_reconcile.Replay.Plain.{ArePlain}
use sqlite_reconcile.RemainingScan.{
  ProbeTables, statement_write_probe_sql, candidate_pairs_for_other_statement,
}
use sqlite_reconcile.RemainingScan.Overlap.{
  other_transaction, compare_stored, compare_statement, replayed_or_stop, overlap_or_next,
  overlap_from, find_write_write_overlap, Overlap, Sides, no_overlap, not_comparable, overlapping,
}
use sqlite_reconcile.RemainingScan.Keeps.{
  fresh_savepoint-Keeps, on_main-Keeps, temp_name-Keeps, create-Keeps, drop-Keeps,
  compare_pairs-Keeps,
}

module _ (db : Database) (laws : SavepointLaws db) (context : ReplayContext) where
  open laws use {Content, content, saved}

  compare_stored-Keeps :
      (sides : Sides) (tables : Dict ℕ String) (sql : String) (pairs : List (ℕ × ℕ))
      → Keeps saved (compare_stored db context sides tables sql pairs)
  unfolding compare_stored
  compare_stored-Keeps sides tables sql pairs =
      if-Keeps saved (ltb 1 (length pairs)) _ _
        (>>=-Keeps saved _ _ (temp_name-Keeps db laws context) (λ other.
          try_finally-Keeps saved _ _
            (>>=-Keeps saved _ _
              (except_sqlite-Keeps saved _ _
                (>>=-Keeps saved _ _ (create-Keeps db laws context other sql) (λ _. still saved _))
                (λ i m. still saved _))
              (λ created.
                if-Keeps saved created _ _
                  (compare_pairs-Keeps db laws context pairs sides tables sql (some other))
                  (still saved _)))
            (drop-Keeps db laws context other)))
        (compare_pairs-Keeps db laws context pairs sides tables sql none)

  compare_statement-Keeps :
      (sides : Sides) (tables : ProbeTables) (s : LoggedStatement) (pairs : List (ℕ × ℕ))
      → Keeps saved (compare_statement db context sides tables s pairs)
  unfolding compare_statement
  compare_statement-Keeps sides tables s pairs =
      with_tables (lookup tables (required_updated_table s.metadata))
    where
      with_sql :
          (current : Dict ℕ String) (sql : Option String)
          → Keeps saved (elim sql as (λ x. M db.State Overlap) [
            | none ↦ pure not_comparable
            | some text ↦ compare_stored db context sides current text pairs
          ])
      with_sql current none = still saved _
      with_sql current (some sql) = compare_stored-Keeps sides current sql pairs

      with_tables :
          (found : Option (Dict ℕ String))
          → Keeps saved (elim found as (λ x. M db.State Overlap) [
            | none ↦ pure not_comparable
            | some current ↦
                (elim (statement_write_probe_sql context s false) as (λ x. M db.State Overlap) [
                  | none ↦ pure not_comparable
                  | some text ↦ compare_stored db context sides current text pairs
                ])
          ])
      with_tables none = still saved _
      with_tables (some current) = with_sql current (statement_write_probe_sql context s false)

  overlap_or_next-Keeps :
      (overlap : Overlap) (next : M db.State Overlap)
      → Keeps saved next
      → Keeps saved (overlap_or_next db context overlap next)
  overlap_or_next-Keeps no_overlap next h = h
  overlap_or_next-Keeps not_comparable next h = still saved _
  overlap_or_next-Keeps (overlapping o t) next h = still saved _

  replayed_or_stop-Keeps :
      (failure : Failure) (next : M db.State Overlap)
      → Keeps saved next
      → Keeps saved (replayed_or_stop db context failure next)
  replayed_or_stop-Keeps none next h = h
  replayed_or_stop-Keeps (some failure) next h = still saved _

  overlap_from-Keeps :
      (statements : List LoggedStatement) (sides : Sides) (tables : ProbeTables)
      (pairs : List (ℕ × ℕ)) (index : ℕ)
      → ArePlain db laws context statements
      → Keeps saved (overlap_from db context sides tables pairs index statements)
  unfolding overlap_from
  overlap_from-Keeps [] sides tables pairs index p = still saved _
  overlap_from-Keeps (s ∷ statements) sides tables pairs index p =
      let matching = candidate_pairs_for_other_statement sides.current_branch pairs index in
      >>=-Keeps saved _ _
        (if-Keeps saved (nonempty matching) _ _ (compare_statement-Keeps sides tables s matching)
          (still saved _))
        (λ found. overlap_or_next-Keeps found _ (
          >>=-Keeps saved _ _ (on_main-Keeps db laws context s _ p.0) (λ failure.
            replayed_or_stop-Keeps failure _
              (overlap_from-Keeps statements sides tables pairs (suc index) p.1))))

  pub find_write_write_overlap-Keeps :
      (sides : Sides) (tables : ProbeTables) (pairs : List (ℕ × ℕ))
      → ArePlain db laws context (other_transaction sides).statements
      → Keeps (snapshot db laws) (find_write_write_overlap db context sides tables pairs)
  unfolding find_write_write_overlap
  find_write_write_overlap-Keeps sides tables pairs p =
      >>=-Keeps (snapshot db laws) _ _ (fresh_savepoint-Keeps db laws context _) (λ name.
        discarded-Keeps db laws name _
          (overlap_from-Keeps (other_transaction sides).statements sides tables pairs 0 p))
