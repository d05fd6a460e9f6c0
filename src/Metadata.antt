-- ===== src/Metadata.antt =====
-- src/merge/sql_metadata.py: what a statement and a transaction read and write. The SQL parser
-- (sqlglot) is not modelled: a parsed statement is what the program asks of its tree.
pub mod Aggregate
use sqlite_reconcile.Prelude.{
  String, Bool, true, false, ◌||◌, Option, none, some, List, [], ◌∷◌, flat_map, if◌then◌else◌, any,
  ◌==◌, nat_eq, string_eq, set_update, list_eq, lookup_or, insert,
}
use sqlite_reconcile.ConflictSyntax.{SqliteConflictResolution, CompatibleSql}
use sqlite_reconcile.Utils.{Columns, ColumnMap, add_columns_by_table}
use mathlib.Core.Option
use sqlite_reconcile.Cascade
use sqlite_reconcile.Cascade.{
  CascadeWriteEvent, CascadeEffects, no_effects, has_effects, cascade_effects_for_parsed_statement,
  ForeignKeyEdgeMap, CascadeEventKind,
}

-- The class of the tree's root; an INSERT with a list of target columns carries their names.
pub data ParsedSql : Type 0 where
  insert_expr : Option (List String) → ParsedSql
  update_expr delete_expr other_expr : ParsedSql

pub data StatementKind : Type 0 where
  insert_kind update_kind delete_kind other_kind : StatementKind

unfoldable pub statement_kind_of : ParsedSql → StatementKind
statement_kind_of (insert_expr target) = insert_kind
statement_kind_of update_expr = update_kind
statement_kind_of delete_expr = delete_kind
statement_kind_of other_expr = other_kind

pub record StatementMetadata : Type 0 where
  pub parsed_sql_text : ParsedSql
  pub compatible_sql : CompatibleSql
  pub statement_kind : StatementKind
  pub conflict_resolution : Option SqliteConflictResolution
  pub has_reviewable_constraint_resolution : Bool
  pub table_updated : Option String
  pub columns_updated : Columns
  pub tables_updated_to_columns_updated : ColumnMap
  pub tables_referenced_to_columns_referenced : ColumnMap
  pub cascade_write_events : List CascadeWriteEvent
  pub has_cascade_effects : Bool

pub record TransactionMetadata : Type 0 where
  pub statements : List StatementMetadata
  pub has_insert : Bool
  pub has_update : Bool
  pub has_delete : Bool
  pub tables_updated_to_columns_updated : ColumnMap
  pub tables_referenced_to_columns_referenced : ColumnMap
  pub cascade_write_events : List CascadeWriteEvent
  pub has_cascade_effects : Bool

abbrev pub is_kind : StatementKind → StatementKind → Bool
is_kind insert_kind insert_kind = true
is_kind update_kind update_kind = true
is_kind delete_kind delete_kind = true
is_kind other_kind other_kind = true
is_kind _ _ = false

-- utils.py: `is_insert_statement`, `is_update_statement`, `is_delete_statement`.
abbrev pub is_insert_statement : StatementMetadata → Bool
is_insert_statement m = elim m.parsed_sql_text [ insert_expr target ↦ true | _ ↦ false ]

abbrev pub is_update_statement : StatementMetadata → Bool
is_update_statement m = elim m.parsed_sql_text [ update_expr ↦ true | _ ↦ false ]

abbrev pub is_delete_statement : StatementMetadata → Bool
is_delete_statement m = elim m.parsed_sql_text [ delete_expr ↦ true | _ ↦ false ]

-- `assert metadata.table_updated is not None`: the callers have narrowed to DML, and an absent
-- table would end the program; the model reads it as the empty name.
abbrev pub required_updated_table : StatementMetadata → String
required_updated_table m = elim m.table_updated [ some table ↦ table | none ↦ "" ]

-- `updated[table].update(columns)` for each entry, on a `defaultdict(set)`.
unfoldable pub update_columns : ColumnMap → ColumnMap → ColumnMap
update_columns m [] = m
update_columns m ((table, columns) ∷ entries) =
    update_columns (insert m table (set_update (lookup_or m table []) columns)) entries

unfoldable pub written_columns_of : List StatementMetadata → ColumnMap → ColumnMap
unfolding update_columns
written_columns_of [] updated = updated
written_columns_of (s ∷ statements) updated =
    written_columns_of statements (update_columns updated s.tables_updated_to_columns_updated)

unfoldable pub read_columns_of : List StatementMetadata → ColumnMap → ColumnMap
unfolding update_columns
read_columns_of [] referenced = referenced
read_columns_of (s ∷ statements) referenced =
    read_columns_of statements (update_columns referenced s.tables_referenced_to_columns_referenced)

unfoldable pub transaction_metadata : List StatementMetadata → TransactionMetadata
unfolding written_columns_of read_columns_of
transaction_metadata statements = record {
  statements = statements;
  has_insert = any (λ s. is_kind s.statement_kind insert_kind) statements;
  has_update = any (λ s. is_kind s.statement_kind update_kind) statements;
  has_delete = any (λ s. is_kind s.statement_kind delete_kind) statements;
  tables_updated_to_columns_updated = written_columns_of statements [];
  tables_referenced_to_columns_referenced = read_columns_of statements [];
  cascade_write_events = flat_map (λ s. s.cascade_write_events) statements;
  has_cascade_effects = any (λ s. s.has_cascade_effects) statements;
}

abbrev pub written_tables_to_columns : StatementKind → String → Columns → ColumnMap
written_tables_to_columns other_kind table columns = []
written_tables_to_columns _ table columns = (table, columns) ∷ []

abbrev pub is_reviewable_conflict_resolution :
    (String → String) → Option SqliteConflictResolution → Bool
is_reviewable_conflict_resolution upper none = false
is_reviewable_conflict_resolution upper (some r) =
    upper r.algorithm == "IGNORE" || upper r.algorithm == "REPLACE"

-- `None` for the context stands for a parse without the schema.
unfoldable pub cascade_effects_for_metadata :
    Option (List String × ForeignKeyEdgeMap)
    → StatementKind
    → String
    → Columns
    → Option CascadeEffects
unfolding cascade_effects_for_parsed_statement
cascade_effects_for_metadata none kind table columns = some no_effects
cascade_effects_for_metadata (some (tables, edges)) delete_kind table columns =
    cascade_effects_for_parsed_statement tables edges Cascade.delete table columns
cascade_effects_for_metadata (some (tables, edges)) update_kind table columns =
    cascade_effects_for_parsed_statement tables edges Cascade.update table columns
cascade_effects_for_metadata (some (tables, edges)) insert_kind table columns = some no_effects
cascade_effects_for_metadata (some (tables, edges)) other_kind table columns = some no_effects

-- What sqlglot and the column resolution find in one statement.
pub record ParsedFacts : Type 0 where
  pub compatible : CompatibleSql
  pub parsed : ParsedSql
  pub target_table : String
  pub updated_columns : Columns
  pub referenced : ColumnMap

-- `_parse_statement_metadata` behind the parser; `none` only if the cascade walk ran out of fuel.
unfoldable pub statement_metadata :
    (String → String)
    → Option (List String × ForeignKeyEdgeMap)
    → ParsedFacts
    → Option StatementMetadata
unfolding cascade_effects_for_metadata statement_kind_of add_columns_by_table has_effects
statement_metadata upper context f =
    let kind = statement_kind_of f.parsed in
    let updated = written_tables_to_columns kind f.target_table f.updated_columns in
    Option.map
      (λ effects. record {
        parsed_sql_text = f.parsed;
        compatible_sql = f.compatible;
        statement_kind = kind;
        conflict_resolution = f.compatible.conflict_resolution;
        has_reviewable_constraint_resolution =
            f.compatible.stripped_upsert
            || is_reviewable_conflict_resolution upper f.compatible.conflict_resolution;
        table_updated = if is_kind kind other_kind then none else some f.target_table;
        columns_updated = f.updated_columns;
        tables_updated_to_columns_updated =
            if has_effects effects
            then add_columns_by_table updated effects.tables_updated_to_columns_updated
            else updated;
        tables_referenced_to_columns_referenced =
            if has_effects effects
            then add_columns_by_table f.referenced effects.tables_referenced_to_columns_referenced
            else f.referenced;
        cascade_write_events = effects.write_events;
        has_cascade_effects = has_effects effects;
      })
      (cascade_effects_for_metadata context kind f.target_table f.updated_columns)

unfoldable pub unsupported_statement_metadata : String → StatementMetadata
unsupported_statement_metadata sql_text = record {
  parsed_sql_text = other_expr;
  compatible_sql = record { sql = sql_text; conflict_resolution = none; stripped_upsert = false };
  statement_kind = other_kind;
  conflict_resolution = none;
  has_reviewable_constraint_resolution = false;
  table_updated = none;
  columns_updated = [];
  tables_updated_to_columns_updated = [];
  tables_referenced_to_columns_referenced = [];
  cascade_write_events = [];
  has_cascade_effects = false;
}
