-- ===== src/StaticAnalysis/Symmetric.antt =====
-- The overlaps of src/merge/static_analysis.py against an independent description, both ways round.
use sqlite_reconcile.Prelude.{
  String, ◌≡◌, refl, sym, ap, ◌∙◌, Bool, true, false, not, ◌&&◌, ◌||◌, Option, none, some, List, [],
  ◌∷◌, arith, if◌then◌else◌, nonempty, any, any_ext, any-swap, ◌==◌, nat_eq, string_eq, ==_iff,
  ==_comm, list_eq, lookup, has_key,
}
use mathlib.Core.Path.{ap₂}
use sqlite_reconcile.Utils.{Columns, ColumnMap, column_overlap, columns_meet, maps_meet}
use sqlite_reconcile.Utils.Overlap.{columns_meet_comm, nonempty-column_overlap}
use sqlite_reconcile.Metadata.{
  StatementMetadata, TransactionMetadata, is_delete_statement, is_insert_statement,
}
use sqlite_reconcile.Metadata.Aggregate.{HasUniqueKeys}
use sqlite_reconcile.StaticAnalysis.Overlaps.{
  columns_by_table_overlap, metadata_write_overlap, same_written_table, direct_write_write_overlap,
  metadata_write_write_overlap, transaction_write_write_overlap,
}

any-absent :
    (m : ColumnMap) (table : String) (p : Columns → Bool)
    → has_key m table ≡ false
    → any (λ y. table == y.0 && p y.1) m ≡ false
any-absent [] table p h = refl
any-absent ((u, columns) ∷ m) table p h = ground (arith, any-absent m table p, ==_comm table u)

any-lookup :
    (m : ColumnMap) (table : String) (p : Columns → Bool)
    → HasUniqueKeys m
    → any (λ y. table == y.0 && p y.1) m
      ≡ (elim (lookup m table) [ none ↦ false | some columns ↦ p columns ])
any-lookup [] table p h = refl
any-lookup ((u, columns) ∷ m) table p h =
    ground
      (arith, any-lookup m table p h.1, any-absent m table p, ==_iff u table, ==_comm table u, h.0)

-- If the right map has one entry for each table, two maps of columns overlap exactly when some
-- table has a column that both may mean.
pub columns_by_table_overlap_lem :
    (left right : ColumnMap)
    → HasUniqueKeys right
    → columns_by_table_overlap left right ≡ maps_meet left right
unfolding columns_by_table_overlap
columns_by_table_overlap_lem [] right h = refl
columns_by_table_overlap_lem ((table, columns) ∷ left) right h =
    found (lookup right table) (columns_by_table_overlap left right)
    ∙ ap₂ ◌||◌ (sym (any-lookup right table (columns_meet columns) h))
        (columns_by_table_overlap_lem left right h)
  where
    found :
        (o : Option Columns) (rest : Bool)
        → (elim o [
          | none ↦ rest
          | some right_columns ↦ nonempty (column_overlap columns right_columns) || rest
        ])
          ≡ ((elim o [ none ↦ false | some c ↦ columns_meet columns c ]) || rest)
    found none rest = refl
    found (some c) rest = ap (λ b. b || rest) (nonempty-column_overlap columns c)

-- Two maps meet whichever of them is asked first.
pub maps_meet_comm : (m n : ColumnMap) → maps_meet m n ≡ maps_meet n m
maps_meet_comm m n =
    any-swap (λ x y. x.0 == y.0 && columns_meet x.1 y.1) m n
    ∙ any_ext _ _ n
        (λ y. any_ext _ _ m (λ x. ground (arith, ==_comm x.0 y.0, columns_meet_comm x.1 y.1)))

abbrev pub same_table : Option String → Option String → Bool
same_table none u = false
same_table (some t) none = false
same_table (some t) (some u) = u == t

same_table_comm : (t u : Option String) → same_table t u ≡ same_table u t
same_table_comm none none = refl
same_table_comm none (some u) = refl
same_table_comm (some t) none = refl
same_table_comm (some t) (some u) = ==_comm u t

-- Two statements write the same columns themselves: no INSERT, and not two DELETE.
pub direct_write_write_overlap_lem :
    (o t : StatementMetadata)
    → direct_write_write_overlap o t ≡ (
        same_table o.table_updated t.table_updated
        && (not (is_delete_statement o && is_delete_statement t)
            && (not (is_insert_statement o || is_insert_statement t)
                && columns_meet t.columns_updated o.columns_updated)))
unfolding direct_write_write_overlap same_written_table metadata_write_overlap
direct_write_write_overlap_lem o t =
    by_table o.table_updated t.table_updated (is_delete_statement o && is_delete_statement t)
      (is_insert_statement o || is_insert_statement t)
      (column_overlap t.columns_updated o.columns_updated)
      (nonempty-column_overlap t.columns_updated o.columns_updated)
  where
    by_table :
        (a b : Option String) (d i : Bool) (overlap : Columns) {meet : Bool}
        → nonempty overlap ≡ meet
        → (if not
              (elim a [ none ↦ false | some table ↦ elim b [ none ↦ false | some u ↦ u == table ] ])
            then false
            else if d
            then false
            else if i
            then false
            else nonempty (
                if elim b [
                  | none ↦ false
                  | some u ↦ u == (elim a [ some table ↦ table | none ↦ "" ])
                ]
                then overlap
                else []))
          ≡ (same_table a b && (not d && (not i && meet)))
    by_table none b d i overlap h = refl
    by_table (some table) none d i overlap h = refl
    by_table (some table) (some u) d i overlap h = ground (arith, h)

-- Which of the two statements is ours does not matter to the overlap of their own writes.
direct_write_write_overlap_comm :
    (o t : StatementMetadata) → direct_write_write_overlap o t ≡ direct_write_write_overlap t o
direct_write_write_overlap_comm o t =
    direct_write_write_overlap_lem o t
    ∙ swapped (is_delete_statement o) (is_delete_statement t) (is_insert_statement o)
        (is_insert_statement t) (same_table_comm o.table_updated t.table_updated)
        (columns_meet_comm t.columns_updated o.columns_updated)
    ∙ sym (direct_write_write_overlap_lem t o)
  where
    swapped :
        (d d' i i' : Bool) {s s' m m' : Bool}
        → s ≡ s'
        → m ≡ m'
        → (s && (not (d && d') && (not (i || i') && m)))
          ≡ (s' && (not (d' && d) && (not (i' || i) && m')))
    swapped d d' i i' p q = ground (arith, p, q)

-- The maps that the tests look tables up in have one entry for each table.
abbrev pub HasUniqueTables : StatementMetadata → Type 0
HasUniqueTables m = HasUniqueKeys m.tables_updated_to_columns_updated

metadata_write_write_overlap_comm :
    (o t : StatementMetadata)
    → HasUniqueTables o
    → HasUniqueTables t
    → metadata_write_write_overlap o t ≡ metadata_write_write_overlap t o
unfolding metadata_write_write_overlap
metadata_write_write_overlap_comm o t h k =
    both o.has_cascade_effects t.has_cascade_effects (direct_write_write_overlap_comm o t) (
      columns_by_table_overlap_lem _ _ k
      ∙ maps_meet_comm o.tables_updated_to_columns_updated t.tables_updated_to_columns_updated
      ∙ sym (columns_by_table_overlap_lem _ _ h))
  where
    both :
        (b c : Bool) {d d' m m' : Bool}
        → d ≡ d'
        → m ≡ m'
        → (if d then true else if not (b || c) then false else m)
          ≡ (if d' then true else if not (c || b) then false else m')
    both b c p q = ground (arith, p, q)

abbrev pub AllHaveUniqueTables : List StatementMetadata → Type 0
AllHaveUniqueTables [] = Unit
AllHaveUniqueTables (m ∷ ms) = HasUniqueTables m × AllHaveUniqueTables ms

-- Whether the writes of two transactions overlap does not depend on which of the two is ours,
-- provided the maps of columns written have one entry for each table.
pub transaction_write_write_overlap_comm :
    (o t : TransactionMetadata)
    → AllHaveUniqueTables o.statements
    → AllHaveUniqueTables t.statements
    → transaction_write_write_overlap o t ≡ transaction_write_write_overlap t o
unfolding transaction_write_write_overlap
transaction_write_write_overlap_comm o t h k =
    any-swap (λ p q. metadata_write_write_overlap p q) o.statements t.statements
    ∙ over t.statements k
  where
    inner :
        (u : StatementMetadata)
        → HasUniqueTables u
        → (ms : List StatementMetadata) → AllHaveUniqueTables ms
        → any (λ p. metadata_write_write_overlap p u) ms
          ≡ any (λ p. metadata_write_write_overlap u p) ms
    inner u k [] h = refl
    inner u k (m ∷ ms) h = ap₂ ◌||◌ (metadata_write_write_overlap_comm m u h.0 k) (inner u k ms h.1)

    over :
        (us : List StatementMetadata)
        → AllHaveUniqueTables us
        → any (λ u. any (λ p. metadata_write_write_overlap p u) o.statements) us
          ≡ any (λ u. any (λ p. metadata_write_write_overlap u p) o.statements) us
    over [] k = refl
    over (u ∷ us) k = ap₂ ◌||◌ (inner u k.0 o.statements h) (over us k.1)
