-- ===== src/Remaining/Counting.antt =====
-- What the counters hold: how often the remaining writes or reads name each column.
use sqlite_reconcile.Prelude.{
  ℕ, ◌+◌, ◌-◌, String, ◌≡◌, Bool, List, [], ◌∷◌, ◌++◌, arith, if◌then◌else◌, ◌==◌, nat_eq,
  string_eq, ==_iff, list_eq, lookup_or, lookup_or-insert, lookup_or-remove,
}
use sqlite_reconcile.Utils.{Columns}
use sqlite_reconcile.Remaining.Counts.{
  ColumnCounts, ColumnCountMap, Delta, up, down, bump_column, bump_columns, update_column_counts,
}

-- A table with the columns that one statement or event names there.
abbrev pub Footprint : Type 0
Footprint = String × Columns

abbrev pub count_at : ColumnCountMap → String → String → ℕ
count_at m t c = lookup_or (lookup_or m t []) c 0

abbrev pub one_if : Bool → ℕ
one_if b = if b then 1 else 0

abbrev pub occurrences : String → Columns → ℕ
occurrences c [] = 0
occurrences c (d ∷ columns) = one_if (d == c) + occurrences c columns

abbrev pub occurrences_in : List Footprint → String → String → ℕ
occurrences_in [] t c = 0
occurrences_in (f ∷ fs) t c = (if f.0 == t then occurrences c f.1 else 0) + occurrences_in fs t c

pub occurrences_in-append :
    (fs gs : List Footprint) (t c : String)
    → occurrences_in (fs ++ gs) t c ≡ occurrences_in fs t c + occurrences_in gs t c
occurrences_in-append [] gs t c = omega arith
occurrences_in-append (f ∷ fs) gs t c = omega (arith, occurrences_in-append fs gs t c)

-- Adding moves a count up, removing moves it down as far as 0.
abbrev pub shift : Delta → ℕ → ℕ → ℕ
shift up n k = n + k
shift down n k = n - k

bump_column-up :
    (counts : ColumnCounts) (d c : String)
    → lookup_or (bump_column up counts d) c 0 ≡ lookup_or counts c 0 + one_if (d == c)
unfolding bump_column
bump_column-up counts d c =
    ground (arith, ==_iff d c, lookup_or-insert counts d (lookup_or counts d 0 + 1) c 0)

bump_column-down :
    (counts : ColumnCounts) (d c : String)
    → lookup_or (bump_column down counts d) c 0 ≡ lookup_or counts c 0 - one_if (d == c)
unfolding bump_column
bump_column-down counts d c = ground (
  arith,
  ==_iff d c,
  lookup_or-insert counts d (lookup_or counts d 0 - 1) c 0,
  lookup_or-remove counts d c 0,
)

pub lookup_or-bump_columns :
    (delta : Delta) (counts : ColumnCounts) (columns : Columns) (c : String)
    → lookup_or (bump_columns delta counts columns) c 0
      ≡ shift delta (lookup_or counts c 0) (occurrences c columns)
unfolding bump_columns
lookup_or-bump_columns up counts [] c = omega arith
lookup_or-bump_columns down counts [] c = omega arith
lookup_or-bump_columns up counts (d ∷ columns) c = omega (
  arith,
  lookup_or-bump_columns up (bump_column up counts d) columns c,
  bump_column-up counts d c,
)
lookup_or-bump_columns down counts (d ∷ columns) c = omega (
  arith,
  lookup_or-bump_columns down (bump_column down counts d) columns c,
  bump_column-down counts d c,
)

pub lookup_or-update_column_counts :
    (delta : Delta) (m : ColumnCountMap) (t : String) (columns : Columns) (u : String)
    → lookup_or (update_column_counts delta m t columns) u []
      ≡ (if t == u then bump_columns delta (lookup_or m t []) columns else lookup_or m u [])
unfolding update_column_counts
lookup_or-update_column_counts delta m t columns u = ground (
  arith,
  lookup_or-insert m t (bump_columns delta (lookup_or m t []) columns) u [],
  lookup_or-remove m t u [],
)

-- The counters of a table move by the number of times that the columns name each of them.
pub count_at-update_column_counts :
    (delta : Delta) (m : ColumnCountMap) (t : String) (columns : Columns) (u c : String)
    → count_at (update_column_counts delta m t columns) u c
      ≡ shift delta (count_at m u c) (if t == u then occurrences c columns else 0)
count_at-update_column_counts up m t columns u c = ground (
  arith,
  ==_iff t u,
  lookup_or-update_column_counts up m t columns u,
  lookup_or-bump_columns up (lookup_or m t []) columns c,
)
count_at-update_column_counts down m t columns u c = ground (
  arith,
  ==_iff t u,
  lookup_or-update_column_counts down m t columns u,
  lookup_or-bump_columns down (lookup_or m t []) columns c,
)
