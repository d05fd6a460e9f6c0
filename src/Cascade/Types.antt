-- ===== src/Cascade/Types.antt =====
-- src/merge/cascade_types.py: foreign-key edges and the hidden writes that they cause.
use sqlite_reconcile.Prelude.{
  String, Bool, true, false, ◌&&◌, List, all, ◌==◌, nat_eq, string_eq, contains, Dict,
}
use sqlite_reconcile.Utils.{Columns}

pub data CascadeEventKind : Type 0 where
  delete update : CascadeEventKind

pub data ForeignKeyAction : Type 0 where
  no_action restrict cascade set_null set_default : ForeignKeyAction

pub record CascadeWriteEvent : Type 0 where
  pub table : String
  pub columns : Columns
  pub kind : CascadeEventKind

pub record ForeignKeyEdge : Type 0 where
  pub child_table : String
  pub child_columns : List String
  pub parent_table : String
  pub parent_columns : List String
  pub on_update : ForeignKeyAction
  pub on_delete : ForeignKeyAction

abbrev pub ForeignKeyEdges : Type 0
ForeignKeyEdges = List ForeignKeyEdge

abbrev pub ForeignKeyEdgeMap : Type 0
ForeignKeyEdgeMap = Dict String ForeignKeyEdges

abbrev pub is_update : CascadeEventKind → Bool
is_update update = true
is_update delete = false

abbrev pub is_delete : CascadeEventKind → Bool
is_delete update = false
is_delete delete = true

abbrev pub same_kind : CascadeEventKind → CascadeEventKind → Bool
same_kind delete delete = true
same_kind update update = true
same_kind _ _ = false

-- `==` on the frozen sets of columns.
abbrev pub same_columns : Columns → Columns → Bool
same_columns xs ys = all (contains ys) xs && all (contains xs) ys

-- `(event.table, event.kind, event.columns)` is one key for both events.
abbrev pub same_event_key : CascadeWriteEvent → CascadeWriteEvent → Bool
same_event_key a b =
    a.table == b.table && (same_kind a.kind b.kind && same_columns a.columns b.columns)
