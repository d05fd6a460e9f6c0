-- ===== src/RemainingScan.antt =====
-- src/merge/remaining_execution.py: the rolling check of one transaction against the other branch by
-- replaying both on SQLite. Main is the state without the current transaction, control the state
-- with it.
pub mod Overlap
pub mod Reading
pub mod Refine
pub mod Scanner
pub mod Keeps
pub mod Overlapping
pub mod Probing
pub mod Refining
pub mod Endings
pub mod Steps
pub mod Trace
use sqlite_reconcile.Prelude.{
  ℕ, suc, ◌+◌, ◌*◌, String, Bool, true, false, ◌&&◌, Option, none, some, List, [], ◌∷◌, map,
  flat_map, arith, if◌then◌else◌, get_elem?, nonempty, any, filter_by, string_eq, nat_eq, ◌==◌,
  list_eq, Eq, Dict, concat, join, show,
}
use sqlite_reconcile.Effects.{M, pure, ◌>>=◌, ◌>>◌, except_sqlite}
use sqlite_reconcile.Models.{
  conflict_kind_eq, ConflictCheckResult, of_kind, transaction_label, BranchName, ConflictKind,
  LoggedStatement, LoggedTransaction, ours, theirs,
}
use sqlite_reconcile.Database.{quote_identifier, Database}
use sqlite_reconcile.Replay.{control_sql_for, ReplayContext, values}
use sqlite_reconcile.Probes.{
  affected_primary_key_select, select_difference_query, temp_probe_result_table_name,
  create_probe_result_table,
}

-- `CurrentWriteProbeTables`: for a table and the index of a current statement, the temporary table
-- with the keys that the statement touches.
abbrev pub ProbeTables : Type 0
ProbeTables = Dict String (Dict ℕ String)

-- `_has_cascade_metadata_conflict`
unfoldable pub has_cascade_metadata_conflict : ConflictCheckResult → ConflictKind → Bool
unfolding of_kind
has_cascade_metadata_conflict result kind =
    any (λ c. any (λ d. d.0 == "metadata_source" && d.1 == "cascade") c.details)
      (of_kind result kind)

-- `_current_write_probe_indexes`
unfoldable pub current_write_probe_indexes : ProbeTables → List ℕ
current_write_probe_indexes tables = flat_map (λ entry. map (λ e. e.0) entry.1) tables

-- `statements.index(statement)`
abbrev pub index_of :
    (LoggedStatement → LoggedStatement → Bool)
    → ℕ
    → List LoggedStatement
    → LoggedStatement
    → Option ℕ
index_of same i [] s = none
index_of same i (t ∷ rest) s =
    let later = index_of same (suc i) rest s in if same t s then some i else later

-- `_transaction_scoped_statement_label`
unfoldable pub transaction_scoped_statement_label :
    ReplayContext → LoggedTransaction → LoggedStatement → String
unfolding transaction_label
transaction_scoped_statement_label context t s =
    elim (index_of context.same_statement 0 t.statements s) [
      | none ↦ transaction_label t
      | some i ↦ concat (transaction_label t ∷ "." ∷ show (i + 1) ∷ [])
    ]

-- execution_based_analysis.py, `_transaction_statement_list_label`
unfoldable pub transaction_statement_list_label :
    ReplayContext → LoggedTransaction → List LoggedStatement → String
unfolding transaction_scoped_statement_label
transaction_statement_list_label context t statements =
    join ", " (map (transaction_scoped_statement_label context t) statements)

abbrev pub statements_at : List LoggedStatement → List ℕ → Option (List LoggedStatement)
statements_at statements [] = some []
statements_at statements (i ∷ indexes) =
    let rest = statements_at statements indexes in
    elim (get_elem? statements i) [
      | none ↦ none
      | some s ↦ (elim rest [ none ↦ none | some ss ↦ some (s ∷ ss) ])
    ]

-- execution_based_analysis.py, `_write_read_conflict_message`; `none` is the `IndexError`.
unfoldable pub write_read_conflict_message :
    ReplayContext → LoggedTransaction → LoggedTransaction → List ℕ → Option String
unfolding transaction_statement_list_label transaction_label
write_read_conflict_message context writer reader affected =
    elim (statements_at reader.statements affected) [
      | none ↦ none
      | some statements ↦ some (
          concat (
            (if nonempty statements
              then transaction_statement_list_label context reader statements
              else transaction_label reader)
            ∷ " reads values affected by "
            ∷ transaction_label writer
            ∷ []))
    ]

-- `_statement_write_probe_sql`
unfoldable pub statement_write_probe_sql : ReplayContext → LoggedStatement → Bool → Option String
unfolding affected_primary_key_select control_sql_for
statement_write_probe_sql context s use_control =
    elim (affected_primary_key_select context s.metadata) [
      | none ↦ none
      | some sql ↦ (if use_control then control_sql_for context sql else some sql)
    ]

-- `_candidate_pairs_for_other_statement`; a pair holds an index of ours and one of theirs.
abbrev pub other_of : BranchName → ℕ × ℕ → ℕ
other_of ours pair = pair.1
other_of theirs pair = pair.0

abbrev pub current_of : BranchName → ℕ × ℕ → ℕ
current_of ours pair = pair.0
current_of theirs pair = pair.1

unfoldable pub candidate_pairs_for_other_statement : BranchName → List (ℕ × ℕ) → ℕ → List (ℕ × ℕ)
candidate_pairs_for_other_statement branch pairs other_index =
    filter_by (λ pair. other_of branch pair == other_index) pairs

module _ (db : Database) where
  open db use {State, fetchone}

  abbrev pub some_row : String → M State Bool
  some_row sql = do row ← fetchone sql; pure (elim row [ none ↦ false | some r ↦ true ])

  abbrev pub stored : String → String
  stored table = concat ("SELECT * FROM " ∷ quote_identifier table ∷ [])

  abbrev pub intersection : String → String → M State (Option Bool)
  intersection first second =
      except_sqlite
        (do
          found ←
              some_row
                (concat ("SELECT 1 FROM (" ∷ first ∷ " INTERSECT " ∷ second ∷ ") LIMIT 1" ∷ []))
          pure (some found))
        (λ is_integrity message. pure none)

  -- `_temp_table_intersects_probe`
  unfoldable pub temp_table_intersects_probe : String → String → M State (Option Bool)
  unfolding quote_identifier
  temp_table_intersects_probe table sql =
      intersection (stored table) (concat ("SELECT * FROM (" ∷ sql ∷ ")" ∷ []))

  -- `_temp_tables_intersect`
  unfoldable pub temp_tables_intersect : String → String → M State (Option Bool)
  unfolding quote_identifier
  temp_tables_intersect first second = intersection (stored first) (stored second)

  -- `_temp_tables_differ`
  unfoldable pub temp_tables_differ : String → String → M State Bool
  unfolding quote_identifier select_difference_query
  temp_tables_differ first second =
      some_row (select_difference_query (stored first) (stored second))

  -- `_statement_write_probe_table`
  unfoldable pub statement_write_probe_table :
      ReplayContext → LoggedStatement → Bool → M State (Option String)
  unfolding statement_write_probe_sql create_probe_result_table
  statement_write_probe_table context s use_control =
      elim (statement_write_probe_sql context s use_control) [
        | none ↦ pure none
        | some sql ↦ (do
          table ← temp_probe_result_table_name db context
          except_sqlite (do create_probe_result_table db context table sql; pure (some table))
              (λ is_integrity message. pure none))
      ]
