-- ===== src/Metadata/Aggregate.antt =====
-- What the maps of a transaction's metadata name: what the maps of its statements name.
use sqlite_reconcile.Prelude.{
  String, ◌≡◌, refl, sym, ap, ◌∙◌, inl, inr, Bool, false, ◌&&◌, ◌||◌, List, [], ◌∷◌, arith,
  Bool-cases, or_assoc, or_false, any, any_ext, any-or, any-false, any-swap, ◌==◌, nat_eq,
  string_eq, ==_iff, ==_comm, set_update, any-set_update, list_eq, has_key, lookup_or, insert,
  has_key-insert,
}
use sqlite_reconcile.Utils.{Columns, ColumnMap, same_column, columns_meet, maps_meet}
use sqlite_reconcile.Metadata.{
  StatementMetadata, update_columns, written_columns_of, read_columns_of,
}

-- No table has two entries, as in every Python dictionary.
abbrev pub HasUniqueKeys : ColumnMap → Type 0
HasUniqueKeys [] = Unit
HasUniqueKeys ((table, columns) ∷ m) = has_key m table ≡ false × HasUniqueKeys m

HasUniqueKeys-insert :
    (m : ColumnMap) (t : String) (columns : Columns)
    → HasUniqueKeys m
    → HasUniqueKeys (insert m t columns)
HasUniqueKeys-insert [] t columns h = (refl, tt)
HasUniqueKeys-insert ((u, us) ∷ m) t columns h = elim (Bool-cases (u == t)) [
  | inl e ↦ rw e h
  | inr e ↦ rw e (
    ground (arith, has_key-insert m t columns u, ==_comm t u, h.0),
    HasUniqueKeys-insert m t columns h.1,
  )
]

HasUniqueKeys-update_columns :
    (entries m : ColumnMap) → HasUniqueKeys m → HasUniqueKeys (update_columns m entries)
unfolding update_columns
HasUniqueKeys-update_columns [] m h = h
HasUniqueKeys-update_columns ((t, columns) ∷ entries) m h =
    HasUniqueKeys-update_columns entries _ (HasUniqueKeys-insert m t _ h)

-- The map of the columns that the statements write has one entry for each table.
pub HasUniqueKeys-written_columns_of :
    (statements : List StatementMetadata) (m : ColumnMap)
    → HasUniqueKeys m
    → HasUniqueKeys (written_columns_of statements m)
unfolding written_columns_of
HasUniqueKeys-written_columns_of [] m h = h
HasUniqueKeys-written_columns_of (s ∷ statements) m h =
    HasUniqueKeys-written_columns_of statements _
      (HasUniqueKeys-update_columns s.tables_updated_to_columns_updated m h)

pub HasUniqueKeys-read_columns_of :
    (statements : List StatementMetadata) (m : ColumnMap)
    → HasUniqueKeys m
    → HasUniqueKeys (read_columns_of statements m)
unfolding read_columns_of
HasUniqueKeys-read_columns_of [] m h = h
HasUniqueKeys-read_columns_of (s ∷ statements) m h =
    HasUniqueKeys-read_columns_of statements _
      (HasUniqueKeys-update_columns s.tables_referenced_to_columns_referenced m h)

-- A search for a table's columns that some set meets.
abbrev pub meets_at : String → Columns → ColumnMap → Bool
meets_at t columns m = any (λ y. t == y.0 && columns_meet columns y.1) m

columns_meet-set_update :
    (columns a b : Columns)
    → columns_meet columns (set_update a b) ≡ (columns_meet columns a || columns_meet columns b)
columns_meet-set_update columns a b =
    any_ext _ (λ c. any (same_column c) a || any (same_column c) b) columns
      (λ c. any-set_update (same_column c) a b)
    ∙ any-or (λ c. any (same_column c) a) (λ c. any (same_column c) b) columns

columns_meet-nil : (columns : Columns) → columns_meet columns [] ≡ false
columns_meet-nil columns = any-false columns

meets_at-update :
    (m : ColumnMap) (t : String) (columns : Columns) (u : String) (new : Columns)
    → meets_at t columns (insert m u (set_update (lookup_or m u []) new))
      ≡ (meets_at t columns m || (t == u && columns_meet columns new))
meets_at-update [] t columns u new =
    ground (arith, columns_meet-set_update columns [] new, columns_meet-nil columns)
meets_at-update ((v, vs) ∷ m) t columns u new = elim (Bool-cases (v == u)) [
  | inl e ↦ rw e (ground (arith, columns_meet-set_update columns vs new, ==_iff v u))
  | inr e ↦
      let skip : lookup_or ((v, vs) ∷ m) u [] ≡ lookup_or m u [] = ground (arith, e) in
      rw (skip, e, meets_at-update m t columns u new)
        (sym (
          or_assoc (t == v && columns_meet columns vs) (meets_at t columns m)
            (t == u && columns_meet columns new)))
]

meets_at-update_columns :
    (entries m : ColumnMap) (t : String) (columns : Columns)
    → meets_at t columns (update_columns m entries)
      ≡ (meets_at t columns m || meets_at t columns entries)
unfolding update_columns
meets_at-update_columns [] m t columns = sym (or_false (meets_at t columns m))
meets_at-update_columns ((u, new) ∷ entries) m t columns =
    meets_at-update_columns entries _ t columns
    ∙ ap (λ b. b || meets_at t columns entries) (meets_at-update m t columns u new)
    ∙ or_assoc (meets_at t columns m) (t == u && columns_meet columns new)
        (meets_at t columns entries)

meets_at-read_columns_of :
    (statements : List StatementMetadata) (m : ColumnMap) (t : String) (columns : Columns)
    → meets_at t columns (read_columns_of statements m) ≡ (
        meets_at t columns m
        || any (λ s. meets_at t columns s.tables_referenced_to_columns_referenced) statements)
unfolding read_columns_of
meets_at-read_columns_of [] m t columns = sym (or_false (meets_at t columns m))
meets_at-read_columns_of (s ∷ statements) m t columns =
    meets_at-read_columns_of statements _ t columns
    ∙ ap
        (λ b.
          b || any (λ r. meets_at t columns r.tables_referenced_to_columns_referenced) statements)
        (meets_at-update_columns s.tables_referenced_to_columns_referenced m t columns)
    ∙ or_assoc (meets_at t columns m) (meets_at t columns s.tables_referenced_to_columns_referenced)
        _

meets_at-written_columns_of :
    (statements : List StatementMetadata) (m : ColumnMap) (t : String) (columns : Columns)
    → meets_at t columns (written_columns_of statements m) ≡ (
        meets_at t columns m
        || any (λ s. meets_at t columns s.tables_updated_to_columns_updated) statements)
unfolding written_columns_of
meets_at-written_columns_of [] m t columns = sym (or_false (meets_at t columns m))
meets_at-written_columns_of (s ∷ statements) m t columns =
    meets_at-written_columns_of statements _ t columns
    ∙ ap (λ b. b || any (λ r. meets_at t columns r.tables_updated_to_columns_updated) statements)
        (meets_at-update_columns s.tables_updated_to_columns_updated m t columns)
    ∙ or_assoc (meets_at t columns m) (meets_at t columns s.tables_updated_to_columns_updated) _

-- A map meets the reads of a transaction exactly when it meets those of one of its statements.
pub maps_meet-read_columns_of :
    (m : ColumnMap) (statements : List StatementMetadata)
    → maps_meet m (read_columns_of statements [])
      ≡ any (λ s. maps_meet m s.tables_referenced_to_columns_referenced) statements
maps_meet-read_columns_of m statements =
    any_ext _ _ m (λ x. meets_at-read_columns_of statements [] x.0 x.1)
    ∙ any-swap (λ x s. meets_at x.0 x.1 s.tables_referenced_to_columns_referenced) m statements

-- A map meets the writes of a transaction exactly when it meets those of one of its statements.
pub maps_meet-written_columns_of :
    (m : ColumnMap) (statements : List StatementMetadata)
    → maps_meet m (written_columns_of statements [])
      ≡ any (λ s. maps_meet m s.tables_updated_to_columns_updated) statements
maps_meet-written_columns_of m statements =
    any_ext _ _ m (λ x. meets_at-written_columns_of statements [] x.0 x.1)
    ∙ any-swap (λ x s. meets_at x.0 x.1 s.tables_updated_to_columns_updated) m statements
