-- ===== src/Probes.antt =====
-- src/merge/execution_based_analysis.py: the queries that probe which rows and values a statement
-- touches. sqlglot's rendering of a tree is a parameter; the queries are put together from it here.
pub mod Reads
use sqlite_reconcile.Prelude.{
  ℕ, zero, suc, ◌+◌, ◌*◌, String, Bool, true, false, not, ◌&&◌, ◌||◌, Option, none, some, List, [],
  ◌∷◌, ◌++◌, map, arith, ltb, if◌then◌else◌, length, get_elem?, drop, nonempty, any, string_eq,
  nat_eq, ◌==◌, list_eq, Eq, lookup, concat, join, show,
}
use sqlite_reconcile.Effects.{M, pure, ◌>>=◌, ◌>>◌, except_sqlite}
use sqlite_reconcile.Metadata.{
  is_update_statement, is_delete_statement, required_updated_table, ParsedSql, StatementMetadata,
  insert_expr, update_expr, delete_expr, other_expr,
}
use sqlite_reconcile.Models.{conflict_kind_eq}
use sqlite_reconcile.ConflictSyntax.Characters.{
  chars, text_of, starts_with_chars, lstrip, rstrip, CharTables,
}
use sqlite_reconcile.Database.{quote_identifier, Database}
use sqlite_reconcile.Replay.{
  RenderedValue, InsertSource, RenderedTree, ReplayContext, values, query, no_source,
}

-- `ReadProbeResult`: the SQL of the probe, or why there is none.
pub data ReadProbe : Type 0 where
  probe : String → ReadProbe
  no_read_dependency : ReadProbe
  not_refined : String → ReadProbe

-- `str(index) for index in range(1, count + 1)`
abbrev pub numbered_from : ℕ → ℕ → List String
numbered_from zero start = []
numbered_from (suc count) start = show start ∷ numbered_from count (suc start)

abbrev pub group_columns : ℕ → String
group_columns count = join ", " (numbered_from count 1)

abbrev pub with_prefix : RenderedTree → String
with_prefix tree = elim tree.with_sql [ none ↦ "" | some w ↦ concat (w ∷ " " ∷ []) ]

-- `_from_expression_sql`
unfoldable pub from_expression_sql : CharTables → String → String
from_expression_sql tables from_sql =
    let text = chars from_sql in
    let contents = if starts_with_chars text (chars "FROM ") then drop 5 text else text in
    text_of (rstrip tables (lstrip tables contents))

-- `_primary_key_columns`
unfoldable pub primary_key_columns : ReplayContext → String → List String
primary_key_columns context table =
    elim (lookup context.schema.schema_cache.primary_key_columns table) [
      | some columns ↦ columns
      | none ↦ context.base_primary_key_columns table
    ]

-- `_is_update_from_statement`
abbrev pub is_update_from_statement : ReplayContext → StatementMetadata → Bool
is_update_from_statement context m =
    is_update_statement m && (elim (context.render m).from_sql [ none ↦ false | some f ↦ true ])

abbrev pub from_sources : ReplayContext → StatementMetadata → List String
from_sources context m =
    let tree = context.render m in
    tree.target_sql
    ∷ (if is_update_statement m
        then (elim tree.from_sql [ none ↦ [] | some f ↦ from_expression_sql context.tables f ∷ [] ])
        else [])

-- `_target_row_select` for an UPDATE or a DELETE.
unfoldable pub target_row_select : ReplayContext → StatementMetadata → List String → Option String
unfolding primary_key_columns quote_identifier from_expression_sql
target_row_select context m extra =
    let tree = context.render m in
    let columns = primary_key_columns context (required_updated_table m) in
    let selected =
      map (λ c. concat (quote_identifier tree.qualifier ∷ "." ∷ quote_identifier c ∷ [])) columns
      ++ extra in
    let where_sql : String = elim tree.where_sql [
      | none ↦ ""
      | some w ↦ concat (" WHERE " ∷ w ∷ [])
    ] in
    if is_update_statement m || is_delete_statement m
    then if nonempty columns
      then some (
          concat (
            with_prefix tree
            ∷ "SELECT "
            ∷ join ", " selected
            ∷ " FROM "
            ∷ join ", " (from_sources context m)
            ∷ where_sql
            ∷ []))
      else none
    else none

-- `_affected_primary_key_select`; its cache holds what `_target_row_select` gave.
unfoldable pub affected_primary_key_select : ReplayContext → StatementMetadata → Option String
unfolding target_row_select
affected_primary_key_select context m = target_row_select context m []

-- `_assignment_read_expressions`, which counts the assignments from 1.
unfoldable pub assignment_read_expressions : ℕ → List (Option RenderedValue) → List String
unfolding show
assignment_read_expressions index [] = []
assignment_read_expressions index (none ∷ rest) = assignment_read_expressions (suc index) rest
assignment_read_expressions index (some value ∷ rest) =
    (if value.has_read then concat (value.sql ∷ " AS __set_expr_" ∷ show index ∷ []) ∷ [] else [])
    ++ assignment_read_expressions (suc index) rest

-- `_update_read_probe_select`
unfoldable pub update_read_probe_select : ReplayContext → StatementMetadata → Option String
unfolding target_row_select assignment_read_expressions
update_read_probe_select context m =
    if is_update_statement m
    then target_row_select context m (assignment_read_expressions 1 (context.render m).assignments)
    else none

-- `_probe_result`
abbrev pub probe_result : Option String → ReadProbe
probe_result none = not_refined "reader probe could not be built"
probe_result (some sql) = probe sql

abbrev pub row_reads : List RenderedValue → Bool
row_reads row = any (λ v. v.has_read) row

-- The rows with a read, under their indexes from 0.
unfoldable pub read_rows : ℕ → List (List RenderedValue) → List (ℕ × List RenderedValue)
read_rows index [] = []
read_rows index (row ∷ rows) =
    (if row_reads row then (index, row) ∷ [] else []) ++ read_rows (suc index) rows

abbrev pub value_reads : Option RenderedValue → Bool
value_reads none = false
value_reads (some v) = v.has_read

-- The indexes of the values with a read, from `index` on.
abbrev pub read_indexes : ℕ → List RenderedValue → List ℕ
read_indexes index [] = []
read_indexes index (v ∷ row) =
    let rest = read_indexes (index + 1) row in if v.has_read then index ∷ rest else rest

-- A set of numbers as its sorted list.
abbrev pub add_sorted : ℕ → List ℕ → List ℕ
add_sorted i [] = i ∷ []
add_sorted i (j ∷ indexes) =
    let rest = add_sorted i indexes in
    if i == j then j ∷ indexes else if ltb i j then i ∷ j ∷ indexes else j ∷ rest

abbrev pub add_all_sorted : List ℕ → List ℕ → List ℕ
add_all_sorted [] indexes = indexes
add_all_sorted (i ∷ more) indexes = add_sorted i (add_all_sorted more indexes)

-- `sorted({...})` of the indexes in the rows.
unfoldable pub value_indexes : List (ℕ × List RenderedValue) → List ℕ
value_indexes [] = []
value_indexes (r ∷ rows) = add_all_sorted (read_indexes 0 r.1) (value_indexes rows)

abbrev pub selected_values : List RenderedValue → List ℕ → List String
selected_values row [] = []
selected_values row (i ∷ indexes) =
    (elim (get_elem? row i) [
      | none ↦ []
      | some v ↦ concat (v.sql ∷ " AS __value_" ∷ show (i + 1) ∷ []) ∷ []
    ])
    ++ selected_values row indexes

-- `_insert_values_probe_select`
unfoldable pub insert_values_probe_select : RenderedTree → List (List RenderedValue) → Option String
unfolding read_rows value_indexes show
insert_values_probe_select tree rows =
    let reads = read_rows 0 rows in
    let select = λ (r : ℕ × List RenderedValue). concat (
      "SELECT "
      ∷ show (r.0 + 1)
      ∷ " AS __row_index, "
      ∷ join ", " (selected_values r.1 (value_indexes reads))
      ∷ []) in
    if nonempty reads
    then some (concat (with_prefix tree ∷ join " UNION ALL " (map select reads) ∷ []))
    else none

-- `_select_difference_query`
unfoldable pub select_difference_query : String → String → String
select_difference_query first second = concat (
    "SELECT 1 FROM (SELECT 1 FROM (" ∷ second ∷ " EXCEPT " ∷ first ∷ ") UNION ALL SELECT 1 FROM ("
    ∷ first ∷ " EXCEPT " ∷ second ∷ ")) LIMIT 1" ∷ [])

module _ (db : Database) (context : ReplayContext) where
  open db use {State, run, fetchone, column_count, uuid4_hex}

  -- `_select_output_count`
  unfoldable pub select_output_count : String → M State (Option ℕ)
  select_output_count sql =
      except_sqlite
        (do
          count ← column_count (concat ("SELECT * FROM (" ∷ sql ∷ ") LIMIT 0" ∷ []))
          pure (some count))
        (λ is_integrity message. pure none)

  -- `_insert_select_probe_select`
  unfoldable pub insert_select_probe_select : RenderedTree → String → M State ReadProbe
  unfolding select_output_count show
  insert_select_probe_select tree source = do
    let source_sql = concat (with_prefix tree ∷ source ∷ [])
    output_count ← select_output_count source_sql
    pure (
        probe_result (elim output_count [
          | none ↦ none
          | some count ↦ some (
              concat (
                "SELECT *, COUNT(*) AS __count FROM ("
                ∷ source_sql
                ∷ ") GROUP BY "
                ∷ group_columns count
                ∷ []))
        ]))

  -- `_insert_probe_select`
  unfoldable pub insert_probe_select : RenderedTree → InsertSource → M State ReadProbe
  unfolding insert_values_probe_select insert_select_probe_select
  insert_probe_select tree (values rows) = pure (elim (insert_values_probe_select tree rows) [
    | none ↦ no_read_dependency
    | some sql ↦ probe sql
  ])
  insert_probe_select tree (query source) = insert_select_probe_select tree source
  insert_probe_select tree no_source = pure no_read_dependency

  abbrev pub read_probe_of : ParsedSql → StatementMetadata → M State ReadProbe
  read_probe_of update_expr m = pure (probe_result (update_read_probe_select context m))
  read_probe_of delete_expr m = pure (probe_result (affected_primary_key_select context m))
  read_probe_of (insert_expr target) m =
      insert_probe_select (context.render m) (context.render m).insert_source
  read_probe_of other_expr m = pure (not_refined "reader statement has no supported probe")

  -- `_read_probe_result`; its cache holds what the first call gave.
  unfoldable pub read_probe_result : StatementMetadata → M State ReadProbe
  unfolding insert_probe_select update_read_probe_select affected_primary_key_select
  read_probe_result m = read_probe_of m.parsed_sql_text m

  abbrev pub is_row : Option String → Bool
  is_row none = false
  is_row (some row) = true

  -- `_probe_has_duplicate_target_rows`
  unfoldable pub probe_has_duplicate_target_rows : StatementMetadata → String → M State Bool
  unfolding primary_key_columns show
  probe_has_duplicate_target_rows m sql =
      let count = length (primary_key_columns context (required_updated_table m)) in
      if count == 0 then pure true else (do
        row ← fetchone (
            concat (
              "SELECT 1 FROM ("
              ∷ sql
              ∷ ") GROUP BY "
              ∷ group_columns count
              ∷ " HAVING COUNT(*) > 1 LIMIT 1"
              ∷ []))
        pure (is_row row))

  -- `update_from_has_duplicate_target_rows`
  unfoldable pub update_from_has_duplicate_target_rows : StatementMetadata → M State Bool
  unfolding probe_has_duplicate_target_rows affected_primary_key_select
  update_from_has_duplicate_target_rows m =
      if is_update_from_statement context m
      then (elim (affected_primary_key_select context m) [
        | none ↦ pure false
        | some sql ↦
            except_sqlite (probe_has_duplicate_target_rows m sql)
              (λ is_integrity message. pure false)
      ])
      else pure false

  -- `_temp_probe_result_table_name`
  abbrev pub temp_probe_result_table_name : M State String
  temp_probe_result_table_name = do
    hex ← uuid4_hex
    pure (concat ("__sqlite_merge_probe_" ∷ hex ∷ []))

  -- `_create_probe_result_table`, and the `DROP TABLE IF EXISTS` of its callers.
  unfoldable pub create_probe_result_table : String → String → M State (Unit {0})
  unfolding quote_identifier
  create_probe_result_table table sql = run (
      concat
        ("CREATE TEMP TABLE " ∷ quote_identifier table ∷ " AS SELECT * FROM (" ∷ sql ∷ ")" ∷ []))

  unfoldable pub drop_probe_result_table : String → M State (Unit {0})
  unfolding quote_identifier
  drop_probe_result_table table =
      run (concat ("DROP TABLE IF EXISTS " ∷ quote_identifier table ∷ []))
