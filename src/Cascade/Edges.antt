-- ===== src/Cascade/Edges.antt =====
-- src/merge/cascade_metadata.py: loading the foreign-key edges and grouping them by table.
use sqlite_reconcile.Prelude.{
  append_to, ℕ, ◌+◌, String, Bool, true, false, not, ◌&&◌, Option, none, some, List, [], ◌∷◌, ◌++◌,
  map, leb, if◌then◌else◌, length, get_elem?, any, ◌==◌, nat_eq, string_eq, Dict, lookup_or,
}
use sqlite_reconcile.Cascade.Types.{
  ForeignKeyEdge, ForeignKeyEdges, ForeignKeyEdgeMap, ForeignKeyAction, no_action, restrict,
  cascade, set_null, set_default,
}

-- One row of `PRAGMA foreign_key_list`; a NULL "to" is `none`. `upper` is Python's `str.upper`.
pub record ForeignKeyRow : Type 0 where
  pub id : ℕ
  pub seq : ℕ
  pub table : String
  pub from_column : String
  pub to_column : Option String
  pub on_update : String
  pub on_delete : String

pub data TableRole : Type 0 where
  parent child : TableRole

abbrev pub role_table : TableRole → ForeignKeyEdge → String
role_table parent edge = edge.parent_table
role_table child edge = edge.child_table

unfoldable pub group_edges_from :
    TableRole → ForeignKeyEdges → ForeignKeyEdgeMap → ForeignKeyEdgeMap
group_edges_from role [] grouped = grouped
group_edges_from role (edge ∷ edges) grouped =
    group_edges_from role edges (append_to grouped (role_table role edge) edge)

unfoldable pub group_foreign_key_edges_by_table : TableRole → ForeignKeyEdges → ForeignKeyEdgeMap
unfolding group_edges_from
group_foreign_key_edges_by_table role edges = group_edges_from role edges []

unfoldable pub foreign_key_action : (String → String) → String → ForeignKeyAction
foreign_key_action upper value =
    let action = upper value in
    if action == "RESTRICT"
    then restrict
    else if action == "CASCADE"
    then cascade
    else if action == "SET NULL"
    then set_null
    else if action == "SET DEFAULT"
    then set_default
    else no_action

-- The rows of one constraint, under its id.
unfoldable pub group_rows :
    List ForeignKeyRow → Dict ℕ (List ForeignKeyRow) → Dict ℕ (List ForeignKeyRow)
group_rows [] grouped = grouped
group_rows (row ∷ rows) grouped = group_rows rows (append_to grouped row.id row)

-- `sorted(edge_rows, key=seq)`, which is stable.
abbrev pub insert_by_seq : ForeignKeyRow → List ForeignKeyRow → List ForeignKeyRow
insert_by_seq row [] = row ∷ []
insert_by_seq row (r ∷ rows) =
    if leb row.seq r.seq then row ∷ r ∷ rows else r ∷ insert_by_seq row rows

abbrev pub sort_by_seq : List ForeignKeyRow → List ForeignKeyRow
sort_by_seq [] = []
sort_by_seq (row ∷ rows) = insert_by_seq row (sort_by_seq rows)

abbrev pub is_none {ℓ} : {A : Type ℓ} → Option A → Bool
is_none none = true
is_none (some a) = false

-- The parent column of each row: the one it names, or that of the key at its place, which is there:
-- a shorthand of another length has been skipped.
unfoldable pub parent_columns_of : List String → ℕ → List ForeignKeyRow → List String
parent_columns_of pk_columns index [] = []
parent_columns_of pk_columns index (row ∷ rows) =
    elim row.to_column [
      | some column ↦ column
      | none ↦ elim (get_elem? pk_columns index) [ some column ↦ column | none ↦ "" ]
    ]
    ∷ parent_columns_of pk_columns (index + 1) rows

-- One constraint: `none` where it is skipped.
unfoldable pub edge_of_rows :
    (String → String)
    → Dict String (List String)
    → String
    → List ForeignKeyRow
    → Option ForeignKeyEdge
unfolding parent_columns_of foreign_key_action
edge_of_rows upper primary_key_columns child_table [] = none
edge_of_rows upper primary_key_columns child_table (first ∷ ordered_rows) =
    let rows = first ∷ ordered_rows in
    let pk_columns = lookup_or primary_key_columns first.table [] in
    let uses_shorthand = any (λ row. is_none row.to_column) rows in
    if uses_shorthand && not (length rows == length pk_columns)
    then none
    else some (record {
      child_table = child_table;
      child_columns = map (λ row. row.from_column) rows;
      parent_table = first.table;
      parent_columns = parent_columns_of pk_columns 0 rows;
      on_update = foreign_key_action upper first.on_update;
      on_delete = foreign_key_action upper first.on_delete;
    })

unfoldable pub edges_of_groups :
    (String → String)
    → Dict String (List String)
    → String
    → Dict ℕ (List ForeignKeyRow)
    → ForeignKeyEdges
unfolding edge_of_rows
edges_of_groups upper primary_key_columns child_table [] = []
edges_of_groups upper primary_key_columns child_table ((id, rows) ∷ grouped) =
    let rest = edges_of_groups upper primary_key_columns child_table grouped in
    elim (edge_of_rows upper primary_key_columns child_table (sort_by_seq rows)) [
      | none ↦ rest
      | some edge ↦ edge ∷ rest
    ]

-- `rows_of` is the answer of `PRAGMA foreign_key_list` for a table.
unfoldable pub load_foreign_key_edges :
    (String → String)
    → (String → List ForeignKeyRow)
    → List String
    → Dict String (List String)
    → ForeignKeyEdges
unfolding edges_of_groups group_rows
load_foreign_key_edges upper rows_of [] primary_key_columns = []
load_foreign_key_edges upper rows_of (child_table ∷ tables) primary_key_columns =
    edges_of_groups upper primary_key_columns child_table (group_rows (rows_of child_table) [])
    ++ load_foreign_key_edges upper rows_of tables primary_key_columns
