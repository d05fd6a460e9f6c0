-- ===== src/Cascade.antt =====
-- src/merge/cascade_types.py and src/merge/cascade_metadata.py: the hidden reads and writes that
-- foreign-key actions cause.
pub mod Types
pub mod Edges
unfoldable pub use Types.*
use sqlite_reconcile.Prelude.{
  ◌*◌, ℕ, zero, suc, ◌+◌, String, ◌⊎◌, inl, inr, Bool, true, false, ◌&&◌, ◌||◌, Option, none, some,
  List, [], ◌∷◌, ◌++◌, arith, ltb, if◌then◌else◌, length, nonempty, any, ◌==◌, nat_eq, string_eq,
  Eq, lookup_or,
}
use sqlite_reconcile.Utils.{
  ColumnMap, Columns, add_columns_to_column_map, all_columns, column_overlap,
}

pub record CascadeEffects : Type 0 where
  pub tables_updated_to_columns_updated : ColumnMap
  pub tables_referenced_to_columns_referenced : ColumnMap
  pub write_events : List CascadeWriteEvent

unfoldable pub has_effects : CascadeEffects → Bool
has_effects e =
    nonempty e.tables_updated_to_columns_updated
    || nonempty e.tables_referenced_to_columns_referenced

abbrev pub no_effects : CascadeEffects
no_effects = record {
  tables_updated_to_columns_updated = [];
  tables_referenced_to_columns_referenced = [];
  write_events = [];
}

abbrev pub max_cascade_metadata_depth : ℕ
max_cascade_metadata_depth = 64

unfoldable pub action_for_parent_event :
    ForeignKeyEdge → CascadeWriteEvent → Option ForeignKeyAction
unfolding column_overlap
action_for_parent_event edge event = elim event.kind [
  | delete ↦ some edge.on_delete
  | update ↦
      if nonempty (column_overlap event.columns edge.parent_columns)
      then some edge.on_update
      else none
]

unfoldable pub cascade_child_event :
    ForeignKeyEdge → ForeignKeyAction → CascadeEventKind → Option CascadeWriteEvent
cascade_child_event edge cascade delete =
    some (record { table = edge.child_table; columns = all_columns ∷ []; kind = delete })
cascade_child_event edge cascade update =
    some (record { table = edge.child_table; columns = edge.child_columns; kind = update })
cascade_child_event edge set_null kind =
    some (record { table = edge.child_table; columns = edge.child_columns; kind = update })
cascade_child_event edge set_default kind =
    some (record { table = edge.child_table; columns = edge.child_columns; kind = update })
cascade_child_event edge no_action kind = none
cascade_child_event edge restrict kind = none

unfoldable pub cascade_event_may_create_or_change_key : CascadeWriteEvent → String → Columns → Bool
unfolding column_overlap
cascade_event_may_create_or_change_key event table key_columns =
    is_update event.kind
    && (event.table == table && nonempty (column_overlap event.columns key_columns))

unfoldable pub cascade_event_may_remove_or_change_key : CascadeWriteEvent → String → Columns → Bool
unfolding column_overlap
cascade_event_may_remove_or_change_key event table key_columns =
    if event.table == table
    then if is_delete event.kind then true else nonempty (column_overlap event.columns key_columns)
    else false

-- The state of the loop of `_cascade_effects_for_event`.
pub record Walk : Type 0 where
  pub queue : List (CascadeWriteEvent × ℕ)
  pub visited : List CascadeWriteEvent
  pub effects : CascadeEffects

-- One edge of the inner loop: the reference is noted, and a child event is noted and queued.
unfoldable pub follow_edge : CascadeWriteEvent → ℕ → Walk → ForeignKeyEdge → Walk
unfolding action_for_parent_event cascade_child_event add_columns_to_column_map
follow_edge event depth w edge = elim (action_for_parent_event edge event) [
  | none ↦ w
  | some action ↦
      let referenced =
        add_columns_to_column_map w.effects.tables_referenced_to_columns_referenced edge.child_table
          edge.child_columns in
      elim (cascade_child_event edge action event.kind) [
        | none ↦ record w {
          effects = record (w.effects) { tables_referenced_to_columns_referenced = referenced };
        }
        | some child_event ↦ record w {
          queue = w.queue ++ (child_event, depth + 1) ∷ [];
          effects = record {
            tables_updated_to_columns_updated =
                add_columns_to_column_map w.effects.tables_updated_to_columns_updated
                  child_event.table child_event.columns;
            tables_referenced_to_columns_referenced = referenced;
            write_events = w.effects.write_events ++ child_event ∷ [];
          };
        }
      ]
]

unfoldable pub follow_edges : CascadeWriteEvent → ℕ → Walk → List ForeignKeyEdge → Walk
unfolding follow_edge
follow_edges event depth w [] = w
follow_edges event depth w (edge ∷ edges) =
    follow_edges event depth (follow_edge event depth w edge) edges

unfoldable pub mark_unknown_cascade_effects : List String → CascadeEffects → CascadeEffects
unfolding add_columns_to_column_map
mark_unknown_cascade_effects [] e = e
mark_unknown_cascade_effects (table ∷ tables) e = mark_unknown_cascade_effects tables (record {
  tables_updated_to_columns_updated =
      add_columns_to_column_map e.tables_updated_to_columns_updated table (all_columns ∷ []);
  tables_referenced_to_columns_referenced =
      add_columns_to_column_map e.tables_referenced_to_columns_referenced table (all_columns ∷ []);
  write_events =
      e.write_events ++ record { table = table; columns = all_columns ∷ []; kind = update } ∷ [];
})

-- One round of `while queue` for the event at its head; `inr` is the `break`.
unfoldable pub walk_step :
    List String → ForeignKeyEdgeMap → CascadeWriteEvent → ℕ → Walk → Walk ⊎ CascadeEffects
unfolding follow_edges mark_unknown_cascade_effects
walk_step tables edges event depth w =
    if ltb max_cascade_metadata_depth depth
    then inr (mark_unknown_cascade_effects tables w.effects)
    else if any (same_event_key event) w.visited
    then inl w
    else inl (
        follow_edges event depth (record w { visited = event ∷ w.visited })
          (lookup_or edges event.table []))

-- `while queue`, on fuel; `none` means that the fuel ran out. `tables` are the tables of the schema.
unfoldable pub walk_loop :
    ℕ
    → List String
    → ForeignKeyEdgeMap
    → List (CascadeWriteEvent × ℕ)
    → List CascadeWriteEvent
    → CascadeEffects
    → Option CascadeEffects
unfolding walk_step
walk_loop fuel tables edges [] visited effects = some effects
walk_loop zero tables edges ((event, depth) ∷ queue) visited effects = none
walk_loop (suc fuel) tables edges ((event, depth) ∷ queue) visited effects =
    elim (walk_step tables edges event depth
      (record { queue = queue; visited = visited; effects = effects })) [
        | inl w ↦ walk_loop fuel tables edges w.queue w.visited w.effects
        | inr e ↦ some e
      ]

-- Enough rounds: every edge yields two different child events at most, so no more than twice the
-- edges and one events are expanded, and each of them queues no more than the edges.
abbrev pub edge_count : ForeignKeyEdgeMap → ℕ
edge_count [] = 0
edge_count ((table, edges) ∷ m) = length edges + edge_count m

abbrev pub walk_fuel : ForeignKeyEdgeMap → ℕ
walk_fuel edges = 1 + (2 * edge_count edges + 1) * edge_count edges

unfoldable pub cascade_effects_for_event :
    List String → ForeignKeyEdgeMap → CascadeWriteEvent → Option CascadeEffects
unfolding walk_loop
cascade_effects_for_event tables edges initial_event =
    walk_loop (walk_fuel edges) tables edges ((initial_event, 0) ∷ []) [] no_effects

abbrev pub initial_event : CascadeEventKind → String → Columns → CascadeWriteEvent
initial_event delete table columns_updated = record {
  table = table;
  columns = all_columns ∷ [];
  kind = delete;
}
initial_event update table columns_updated = record {
  table = table;
  columns = columns_updated;
  kind = update;
}

unfoldable pub cascade_effects_for_parsed_statement :
    List String → ForeignKeyEdgeMap → CascadeEventKind → String → Columns → Option CascadeEffects
unfolding cascade_effects_for_event
cascade_effects_for_parsed_statement tables edges statement_kind table_updated columns_updated =
    cascade_effects_for_event tables edges
      (initial_event statement_kind table_updated columns_updated)
