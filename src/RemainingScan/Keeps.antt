-- ===== src/RemainingScan/Keeps.antt =====
-- The probes of a scan leave no trace: the data and the open savepoints are as before.
use sqlite_reconcile.Prelude.{
  ℕ, String, ap, Bool, true, Option, none, some, List, [], ◌∷◌, if◌then◌else◌, get_elem?, string_eq,
  nat_eq, list_eq, Dict, lookup,
}
use sqlite_reconcile.Effects.{M, pure, ◌>>=◌}
use sqlite_reconcile.Effects.Keeps.{
  Keeps, to_Kept, still, Contained-Keeps, >>=-Keeps, except_sqlite-Keeps, if-Keeps,
}
use sqlite_reconcile.Models.{conflict_kind_eq, ConflictScope, LoggedStatement, pair_scope}
use sqlite_reconcile.Database.{fresh_savepoint, Database}
use sqlite_reconcile.Database.Laws.{SavepointLaws}
use sqlite_reconcile.Database.Savepoints.{snapshot}
use sqlite_reconcile.Replay.{ReplayContext}
use sqlite_reconcile.Replay.Execute.{execute_statement_on_main, execute_statement_on_control}
use sqlite_reconcile.Replay.Plain.{PlainReplay}
use sqlite_reconcile.Replay.Traceless.{
  fresh_savepoint-Contained, execute_statement_on_main-Contained,
  execute_statement_on_control-Contained,
}
use sqlite_reconcile.Probes.{
  temp_probe_result_table_name, create_probe_result_table, drop_probe_result_table,
}
use sqlite_reconcile.RemainingScan.{
  current_of, some_row, intersection, temp_table_intersects_probe, temp_tables_intersect,
}
use sqlite_reconcile.RemainingScan.Overlap.{
  pair_at, compare_tables, compare_pairs, Overlap, Sides, not_comparable,
}

module _ (db : Database) (laws : SavepointLaws db) (context : ReplayContext) where
  open laws use {Content, content, saved}

  pub snapshot-saved-Keeps :
      {A : Type 0} (m : M db.State A) → Keeps (snapshot db laws) m → Keeps saved m
  snapshot-saved-Keeps m h s = to_Kept saved (ap (λ x. x.1) (h s).same)

  pub fetchone-saved : (sql : String) → Keeps saved (db.fetchone sql)
  fetchone-saved sql s = to_Kept saved (ap (λ x. x.1) (laws.fetchone-Contained sql s).0)

  pub run-saved : (sql : String) → Keeps saved (db.run sql)
  run-saved sql = Contained-Keeps saved _ (laws.run-saved sql)

  pub uuid-saved : Keeps saved db.uuid4_hex
  uuid-saved s = to_Kept saved (ap (λ x. x.1) (laws.uuid4_hex-ContainedOk s).0)

  pub fresh_savepoint-Keeps :
      (prefix : String) → Keeps (snapshot db laws) (fresh_savepoint db prefix)
  fresh_savepoint-Keeps prefix =
      Contained-Keeps (snapshot db laws) _ (fresh_savepoint-Contained db laws prefix)

  pub on_main-Keeps :
      (s : LoggedStatement) (label : String)
      → PlainReplay db laws context s
      → Keeps saved (execute_statement_on_main db context s pair_scope label true)
  on_main-Keeps s label p =
      Contained-Keeps saved _
        (execute_statement_on_main-Contained db laws context s pair_scope label true p.0)

  pub on_control-Keeps :
      (s : LoggedStatement) (scope : ConflictScope) (label : String)
      → PlainReplay db laws context s
      → Keeps saved (execute_statement_on_control db context s scope label true)
  on_control-Keeps s scope label p =
      Contained-Keeps saved _
        (execute_statement_on_control-Contained db laws context s scope label true p.0)

  pub temp_name-Keeps : Keeps saved (temp_probe_result_table_name db context)
  temp_name-Keeps = >>=-Keeps saved _ _ uuid-saved (λ hex. still saved _)

  pub create-Keeps :
      (table sql : String) → Keeps saved (create_probe_result_table db context table sql)
  unfolding create_probe_result_table
  create-Keeps table sql = run-saved _

  pub drop-Keeps : (table : String) → Keeps saved (drop_probe_result_table db context table)
  unfolding drop_probe_result_table
  drop-Keeps table = run-saved _

  pub some_row-Keeps : (sql : String) → Keeps saved (some_row db sql)
  some_row-Keeps sql = >>=-Keeps saved _ _ (fetchone-saved sql) (λ row. still saved _)

  pub intersection-Keeps : (first second : String) → Keeps saved (intersection db first second)
  intersection-Keeps first second =
      except_sqlite-Keeps saved _ _
        (>>=-Keeps saved _ _ (some_row-Keeps _) (λ found. still saved _)) (λ i m. still saved _)

  compare_tables-Keeps :
      (current sql : String) (other : Option String)
      → Keeps saved (compare_tables db context current sql other)
  unfolding temp_table_intersects_probe temp_tables_intersect
  compare_tables-Keeps current sql none = intersection-Keeps _ _
  compare_tables-Keeps current sql (some other) = intersection-Keeps _ _

  pair_at-Keeps : (o t : Option LoggedStatement) → Keeps saved (pair_at db context o t)
  pair_at-Keeps (some o) (some t) = still saved _
  pair_at-Keeps (some o) none = still saved _
  pair_at-Keeps none t = still saved _

  pub compare_pairs-Keeps :
      (pairs : List (ℕ × ℕ)) (sides : Sides) (tables : Dict ℕ String) (sql : String)
      (other : Option String)
      → Keeps saved (compare_pairs db context sides tables sql other pairs)
  unfolding compare_pairs
  compare_pairs-Keeps [] sides tables sql other = still saved _
  compare_pairs-Keeps (pair ∷ pairs) sides tables sql other =
      at_table (lookup tables (current_of sides.current_branch pair))
        (compare_pairs-Keeps pairs sides tables sql other)
    where
      o : Option LoggedStatement
      o = get_elem? sides.ours_transaction.statements pair.0

      t : Option LoggedStatement
      t = get_elem? sides.theirs_transaction.statements pair.1

      told :
          (overlap : Option Bool) (rest : M db.State Overlap)
          → Keeps saved rest
          → Keeps saved (elim overlap as (λ x. M db.State Overlap) [
            | none ↦ pure not_comparable
            | some met ↦ (if met then pair_at db context o t else rest)
          ])
      told none rest k = still saved _
      told (some met) rest k = if-Keeps saved met _ _ (pair_at-Keeps o t) k

      at_table :
          (table : Option String) {rest : M db.State Overlap}
          → Keeps saved rest
          → Keeps saved (elim table as (λ x. M db.State Overlap) [
            | none ↦ pure not_comparable
            | some current_table ↦ (do
              overlap ← compare_tables db context current_table sql other
              elim overlap [
                | none ↦ pure not_comparable
                | some met ↦ (if met then pair_at db context o t else rest)
              ])
          ])
      at_table none k = still saved _
      at_table (some current) k =
          >>=-Keeps saved _ _ (compare_tables-Keeps current sql other) (λ overlap. told overlap _ k)
