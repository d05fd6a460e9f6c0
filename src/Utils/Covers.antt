-- ===== src/Utils/Covers.antt =====
-- What the maps of columns name after an addition, and how a search over them adds up.
use sqlite_reconcile.Prelude.{
  String, ◌≡◌, sym, ◌∙◌, ◌&&◌, ◌||◌, [], ◌∷◌, arith, if◌then◌else◌, or_false, any, ◌==◌, nat_eq,
  string_eq, ==_iff, contains, set_add, set_update, contains-set_add, lookup_or, insert,
  lookup-insert,
}
use sqlite_reconcile.Utils.{
  Columns, ColumnMap, all_columns, add_columns_by_table, add_columns_to_column_map, covers,
  names_column,
}

contains-set_update :
    (xs ys : Columns) (c : String)
    → contains (set_update xs ys) c ≡ (contains xs c || contains ys c)
contains-set_update xs [] c = sym (or_false (contains xs c))
contains-set_update xs (y ∷ ys) c =
    contains-set_update (set_add xs y) ys c ∙ ground (arith, contains-set_add xs y c)

covers-insert :
    (m : ColumnMap) (t : String) (columns : Columns) (u c : String)
    → covers (insert m t columns) u c ≡ (if t == u then names_column columns c else covers m u c)
covers-insert m t columns u c = ground (arith, lookup-insert m t columns u)

covers-lookup_or : (m : ColumnMap) (t c : String) → covers m t c ≡ names_column (lookup_or m t []) c
covers-lookup_or m t c = ground arith

-- Adding columns to a map names, beside what it named, exactly those columns of that table.
pub covers-add_columns_to_column_map :
    (m : ColumnMap) (t : String) (columns : Columns) (u c : String)
    → covers (add_columns_to_column_map m t columns) u c
      ≡ (covers m u c || ((t == u) && names_column columns c))
unfolding add_columns_to_column_map
covers-add_columns_to_column_map m t [] u c = ground arith
covers-add_columns_to_column_map m t (d ∷ columns) u c = ground (
  arith,
  covers-lookup_or m t c,
  ==_iff t u,
  covers-insert m t (all_columns ∷ []) u c,
  covers-insert m t (set_update (lookup_or m t []) (d ∷ columns)) u c,
  contains-set_update (lookup_or m t []) (d ∷ columns) c,
  contains-set_update (lookup_or m t []) (d ∷ columns) all_columns,
)

-- Merging a map of columns into another names exactly the columns that either of the two names.
pub covers-add_columns_by_table :
    (m extra : ColumnMap) (u c : String)
    → covers (add_columns_by_table m extra) u c
      ≡ (covers m u c || any (λ x. (x.0 == u) && names_column x.1 c) extra)
unfolding add_columns_by_table
covers-add_columns_by_table m [] u c = sym (or_false (covers m u c))
covers-add_columns_by_table m ((t, columns) ∷ extra) u c =
    covers-add_columns_by_table (add_columns_to_column_map m t columns) extra u c
    ∙ ground (arith, covers-add_columns_to_column_map m t columns u c)
