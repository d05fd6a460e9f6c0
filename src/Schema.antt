-- ===== src/Schema.antt =====
-- The schema side of `ConflictCheckContext` (src/merge/models.py) and the cached accessors of
-- src/merge/cascade_metadata.py and src/merge/static_analysis.py.
-- What the base database would answer is a field: filling a cache stores that answer, so reading
-- through the cache and reading the base give one value, and the model keeps no write-back.
use sqlite_reconcile.Prelude.{
  String, Option, none, some, List, nat_eq, string_eq, list_eq, Dict, lookup,
}
use sqlite_reconcile.Utils.{Columns, ColumnMap}
use sqlite_reconcile.Cascade.{ForeignKeyEdges, ForeignKeyEdgeMap}
use sqlite_reconcile.Cascade.Edges.{parent, child, group_foreign_key_edges_by_table}

pub record SchemaCache : Type 0 where
  pub table_columns : ColumnMap
  pub primary_key_columns : Dict String (List String)
  pub key_column_sets : Dict String (List Columns)
  pub integer_primary_key_columns : Dict String (Option String)
  pub foreign_key_edges : Option ForeignKeyEdges
  pub foreign_key_edges_by_parent : Option ForeignKeyEdgeMap
  pub foreign_key_edges_by_child : Option ForeignKeyEdgeMap

pub record ConflictCheckContext : Type 0 where
  pub schema_cache : SchemaCache
  -- what `_foreign_key_edges` and `integer_primary_key_column` read from the base database
  pub base_edges : ForeignKeyEdges
  pub base_integer_primary_key : String → Option String

unfoldable pub foreign_key_edges : ConflictCheckContext → ForeignKeyEdges
foreign_key_edges context = elim context.schema_cache.foreign_key_edges [
  | some edges ↦ edges
  | none ↦ context.base_edges
]

unfoldable pub foreign_key_edges_by_parent : ConflictCheckContext → ForeignKeyEdgeMap
unfolding foreign_key_edges group_foreign_key_edges_by_table
foreign_key_edges_by_parent context = elim context.schema_cache.foreign_key_edges_by_parent [
  | some edges ↦ edges
  | none ↦ group_foreign_key_edges_by_table parent (foreign_key_edges context)
]

unfoldable pub foreign_key_edges_by_child : ConflictCheckContext → ForeignKeyEdgeMap
unfolding foreign_key_edges group_foreign_key_edges_by_table
foreign_key_edges_by_child context = elim context.schema_cache.foreign_key_edges_by_child [
  | some edges ↦ edges
  | none ↦ group_foreign_key_edges_by_table child (foreign_key_edges context)
]

-- `_integer_primary_key_column` of static_analysis.py
unfoldable pub integer_primary_key_column : ConflictCheckContext → String → Option String
integer_primary_key_column context table =
    elim (lookup context.schema_cache.integer_primary_key_columns table) [
      | some key_column ↦ key_column
      | none ↦ context.base_integer_primary_key table
    ]
