-- ===== src/Remaining/Represents.antt =====
-- When a map of counters stands for a list of footprints, and what its tests then decide.
use sqlite_reconcile.Prelude.{
  ◌+◌, ◌-◌, String, ◌≡◌, refl, sym, ◌∙◌, inl, inr, Bool, true, ◌&&◌, List, [], ◌∷◌, arith, ltb,
  Bool-cases, bool_ext, nonempty, any, any_ext, any-and, any-swap, ◌==◌, nat_eq, string_eq, ==_iff,
  ==_refl, contains, list_eq, has_key, lookup_or, lookup_or-insert, lookup_or-remove,
  has_key-insert, has_key-remove,
}
use sqlite_reconcile.Utils.{Columns}
use sqlite_reconcile.Remaining.Counts.{
  ColumnCounts, ColumnCountMap, Delta, up, down, bump_column, bump_columns, update_column_counts,
}
use sqlite_reconcile.Remaining.Counting.{
  Footprint, count_at, occurrences, occurrences_in, count_at-update_column_counts,
  lookup_or-update_column_counts,
}

-- The counters are positive, no table is without one, and they count the footprints.
pub record Represents (m : ColumnCountMap) (fs : List Footprint) : Type 0 where
  pub positive : (t c : String) → has_key (lookup_or m t []) c ≡ ltb 0 (count_at m t c)
  pub no_empty : (t : String) → has_key m t ≡ nonempty (lookup_or m t [])
  pub counts : (t c : String) → count_at m t c ≡ occurrences_in fs t c

pub Represents-nil : Represents [] []
Represents-nil = record { positive = λ t c. refl; no_empty = λ t. refl; counts = λ t c. refl }

bump_column-positive :
    (delta : Delta) (counts : ColumnCounts) (d : String)
    → ((c : String) → has_key counts c ≡ ltb 0 (lookup_or counts c 0))
    → (c : String)
    → has_key (bump_column delta counts d) c ≡ ltb 0 (lookup_or (bump_column delta counts d) c 0)
unfolding bump_column
bump_column-positive up counts d h c = ground (
  arith,
  h c,
  ==_iff d c,
  has_key-insert counts d (lookup_or counts d 0 + 1) c,
  lookup_or-insert counts d (lookup_or counts d 0 + 1) c 0,
)
bump_column-positive down counts d h c = ground (
  arith,
  h c,
  ==_iff d c,
  has_key-insert counts d (lookup_or counts d 0 - 1) c,
  lookup_or-insert counts d (lookup_or counts d 0 - 1) c 0,
  has_key-remove counts d c,
  lookup_or-remove counts d c 0,
)

bump_columns-positive :
    (delta : Delta) (counts : ColumnCounts) (columns : Columns)
    → ((c : String) → has_key counts c ≡ ltb 0 (lookup_or counts c 0))
    → (c : String)
    → has_key (bump_columns delta counts columns) c
      ≡ ltb 0 (lookup_or (bump_columns delta counts columns) c 0)
unfolding bump_columns
bump_columns-positive delta counts [] h c = h c
bump_columns-positive delta counts (d ∷ columns) h c =
    bump_columns-positive delta (bump_column delta counts d) columns
      (bump_column-positive delta counts d h) c

module _ {m : ColumnCountMap} {fs : List Footprint} (r : Represents m fs) (t : String)
    (columns : Columns) where
  update-positive :
      (delta : Delta) (u c : String)
      → has_key (lookup_or (update_column_counts delta m t columns) u []) c
        ≡ ltb 0 (count_at (update_column_counts delta m t columns) u c)
  update-positive delta u c = ground (
    arith,
    lookup_or-update_column_counts delta m t columns u,
    r.positive u c,
    bump_columns-positive delta (lookup_or m t []) columns (r.positive t) c,
  )

  update-no_empty :
      (delta : Delta) (u : String)
      → has_key (update_column_counts delta m t columns) u
        ≡ nonempty (lookup_or (update_column_counts delta m t columns) u [])
  unfolding update_column_counts
  update-no_empty delta u = ground (
    arith,
    r.no_empty u,
    ==_iff t u,
    has_key-insert m t (bump_columns delta (lookup_or m t []) columns) u,
    has_key-remove m t u,
    lookup_or-insert m t (bump_columns delta (lookup_or m t []) columns) u [],
    lookup_or-remove m t u [],
  )

  -- Counting one more footprint.
  pub Represents-add : Represents (update_column_counts up m t columns) ((t, columns) ∷ fs)
  Represents-add = record {
    positive = update-positive up;
    no_empty = update-no_empty up;
    counts = λ u c. ground (arith, count_at-update_column_counts up m t columns u c, r.counts u c);
  }

  -- Taking back a footprint that has been counted.
  pub Represents-remove :
      (gs : List Footprint)
      → ((u c : String) → occurrences_in fs u c ≡ occurrences_in ((t, columns) ∷ gs) u c)
      → Represents (update_column_counts down m t columns) gs
  Represents-remove gs h = record {
    positive = update-positive down;
    no_empty = update-no_empty down;
    counts = λ u c.
        ground (arith, count_at-update_column_counts down m t columns u c, r.counts u c, h u c);
  }

-- Only the counts of the footprints matter.
pub Represents-same :
    {m : ColumnCountMap} {fs : List Footprint} (gs : List Footprint)
    → Represents m fs
    → ((u c : String) → occurrences_in fs u c ≡ occurrences_in gs u c)
    → Represents m gs
Represents-same gs r h = record {
  positive = r.positive;
  no_empty = r.no_empty;
  counts = λ u c. r.counts u c ∙ h u c;
}

abbrev pub names_at : String → (Columns → Bool) → List Footprint → Bool
names_at t p fs = any (λ f. f.0 == t && p f.1) fs

occurrences_pos :
    (c : String) (columns : Columns) → ltb 0 (occurrences c columns) ≡ contains columns c
occurrences_pos c [] = refl
occurrences_pos c (d ∷ columns) = ground (arith, occurrences_pos c columns)

occurrences_in_pos :
    (fs : List Footprint) (t c : String)
    → ltb 0 (occurrences_in fs t c) ≡ names_at t (λ columns. contains columns c) fs
occurrences_in_pos [] t c = refl
occurrences_in_pos (f ∷ fs) t c = ground (arith, occurrences_in_pos fs t c, occurrences_pos c f.1)

-- A footprint with any column at all names some column.
some_column :
    (t : String) (fs : List Footprint)
    → names_at t nonempty fs ≡ true
    → (c : String) × (names_at t (λ columns. contains columns c) fs ≡ true)
some_column t ((u, []) ∷ fs) h = let (c, k) = some_column t fs (ground arith) in (c, ground arith)
some_column t ((u, d ∷ columns) ∷ fs) h = elim (Bool-cases (u == t)) [
  | inl e ↦ (d, ground (arith, ==_refl d))
  | inr e ↦ let (c, k) = some_column t fs (ground arith) in (c, ground arith)
]
some_column t [] h = (t, h)

names_at-nonempty :
    (t c : String) (fs : List Footprint)
    → names_at t (λ columns. contains columns c) fs ≡ true
    → names_at t nonempty fs ≡ true
names_at-nonempty t c ((u, []) ∷ fs) h = ground (arith, names_at-nonempty t c fs)
names_at-nonempty t c ((u, d ∷ columns) ∷ fs) h = ground (arith, names_at-nonempty t c fs)
names_at-nonempty t c [] h = h

nonempty_of_has_key :
    (counts : ColumnCounts) (c : String) → has_key counts c ≡ true → nonempty counts ≡ true
nonempty_of_has_key [] c h = h
nonempty_of_has_key (x ∷ counts) c h = refl

has_key_of_nonempty :
    (counts : ColumnCounts) → nonempty counts ≡ true → (c : String) × (has_key counts c ≡ true)
has_key_of_nonempty [] h = ("", h)
has_key_of_nonempty ((k, n) ∷ counts) h = (k, ground (arith, ==_refl k))

module _ {m : ColumnCountMap} {fs : List Footprint} (r : Represents m fs) (t : String) where
  pub has_key-Represents :
      (c : String) → has_key (lookup_or m t []) c ≡ names_at t (λ columns. contains columns c) fs
  has_key-Represents c = ground (arith, r.positive t c, r.counts t c, occurrences_in_pos fs t c)

  pub nonempty-Represents : nonempty (lookup_or m t []) ≡ names_at t nonempty fs
  nonempty-Represents =
      bool_ext _ _
        (λ h.
          let (c, k) = has_key_of_nonempty (lookup_or m t []) h in
          names_at-nonempty t c fs (sym (has_key-Represents c) ∙ k))
        (λ h.
          let (c, k) = some_column t fs h in
          nonempty_of_has_key (lookup_or m t []) c (has_key-Represents c ∙ k))

  pub any-has_key-Represents :
      (columns : Columns)
      → any (has_key (lookup_or m t [])) columns
        ≡ names_at t (λ written. any (contains written) columns) fs
  any-has_key-Represents columns =
      any_ext _ _ columns has_key-Represents
      ∙ any-swap (λ c f. f.0 == t && contains f.1 c) columns fs
      ∙ any_ext _ _ fs (λ f. any-and (f.0 == t) (contains f.1) columns)
