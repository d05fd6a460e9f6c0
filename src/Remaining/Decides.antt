-- ===== src/Remaining/Decides.antt =====
-- What the test of the counters decides: an overlap with one of the footprints that are counted.
use mathlib.Core.Path.{ap₂}
use sqlite_reconcile.Prelude.{
  String, ◌≡◌, sym, ap, ◌∙◌, Bool, true, false, not, ◌&&◌, ◌||◌, List, [], ◌∷◌, arith,
  if◌then◌else◌, and_comm, and_or_distrib, nonempty, any, any_ext, any-or, any-and, any-false, ◌==◌,
  nat_eq, string_eq, contains, list_eq, has_key, lookup_or,
}
use sqlite_reconcile.Utils.{Columns, all_columns, columns_meet}
use sqlite_reconcile.Utils.Overlap.{columns_meet_lem}
use sqlite_reconcile.Remaining.Counts.{ColumnCounts, ColumnCountMap, column_counter_overlap}
use sqlite_reconcile.Remaining.Counting.{Footprint}
use sqlite_reconcile.Remaining.Represents.{
  Represents, names_at, nonempty-Represents, has_key-Represents, any-has_key-Represents,
}

names_at-or :
    (t : String) (p q : Columns → Bool) (fs : List Footprint)
    → names_at t (λ w. p w || q w) fs ≡ (names_at t p fs || names_at t q fs)
names_at-or t p q fs =
    any_ext _ _ fs (λ f. and_or_distrib (f.0 == t) (p f.1) (q f.1))
    ∙ any-or (λ f. f.0 == t && p f.1) (λ f. f.0 == t && q f.1) fs

names_at-and :
    (t : String) (b : Bool) (p : Columns → Bool) (fs : List Footprint)
    → names_at t (λ w. b && p w) fs ≡ (b && names_at t p fs)
names_at-and t b p fs =
    any_ext _ (λ f. b && (f.0 == t && p f.1)) fs (λ f. and_swap (f.0 == t) b (p f.1))
    ∙ any-and b (λ f. f.0 == t && p f.1) fs
  where
    and_swap : (a b c : Bool) → (a && (b && c)) ≡ (b && (a && c))
    and_swap a b c = ground arith

names_at-columns_meet :
    (t : String) (columns : Columns) (fs : List Footprint)
    → names_at t (columns_meet columns) fs ≡ (
        (contains columns all_columns && names_at t nonempty fs)
        || ((nonempty columns && names_at t (λ written. contains written all_columns) fs)
            || names_at t (λ written. any (contains written) columns) fs))
names_at-columns_meet t columns fs =
    let starred = contains columns all_columns in
    let first = λ (w : Columns). starred && nonempty w in
    let second = λ (w : Columns). nonempty columns && contains w all_columns in
    let third = λ (w : Columns). any (contains w) columns in
    any_ext _ (λ f. f.0 == t && (first f.1 || (second f.1 || third f.1))) fs
      (λ f.
        ap (λ b. f.0 == t && b)
          (columns_meet_lem columns f.1
            ∙ ap (λ b. b || (second f.1 || third f.1)) (and_comm (nonempty f.1) starred)))
    ∙ names_at-or t first (λ w. second w || third w) fs
    ∙ ap₂ ◌||◌ (names_at-and t starred nonempty fs) (
        names_at-or t second third fs
        ∙ ap (λ b. b || names_at t third fs)
            (names_at-and t (nonempty columns) (λ w. contains w all_columns) fs))

-- If a map of counters represents a list of footprints, the test of the counters of a table
-- against a set of columns holds exactly when one of the footprints of that table may mean one of
-- the columns.
pub column_counter_overlap-Represents :
    {m : ColumnCountMap} {fs : List Footprint}
    → Represents m fs
    → (t : String) (columns : Columns)
    → column_counter_overlap m t columns ≡ names_at t (columns_meet columns) fs
unfolding column_counter_overlap
column_counter_overlap-Represents {m} {fs} r t columns =
    counted (lookup_or m t []) columns (nonempty-Represents r t)
      (has_key-Represents r t all_columns) (any-has_key-Represents r t columns)
    ∙ sym (names_at-columns_meet t columns fs)
  where
    counted :
        (counts : ColumnCounts) (columns : Columns) {n s h : Bool}
        → nonempty counts ≡ n
        → has_key counts all_columns ≡ s
        → any (has_key counts) columns ≡ h
        → (if not (nonempty counts) || not (nonempty columns)
            then false
            else if has_key counts all_columns
            then true
            else if contains columns all_columns
            then nonempty counts
            else any (has_key counts) columns)
          ≡ ((contains columns all_columns && n) || ((nonempty columns && s) || h))
    counted [] columns p q k = ground (arith, any-false columns)
    counted (x ∷ counts) [] p q k = ground arith
    counted (x ∷ counts) (c ∷ columns) p q k = ground arith
