-- ===== src/Utils/Overlap.antt =====
-- `column_overlap` against an independent description, and searches over maps of columns.
use sqlite_reconcile.Prelude.{
  String, [], ◌∷◌, any, any-swap, any_ext, any-false, arith, contains, nonempty, nonempty-filter_by,
  refl, ◌&&◌, ◌==◌, ◌||◌, ◌≡◌, ◌∙◌, string_eq, ==_comm,
}
use sqlite_reconcile.Utils.{Columns, all_columns, column_overlap, columns_meet, same_column}

pub same_column_comm : (c d : String) → same_column c d ≡ same_column d c
same_column_comm c d = ground (arith, ==_comm c d)

-- The overlap of two sets of columns does not depend on their order.
pub columns_meet_comm : (l r : Columns) → columns_meet l r ≡ columns_meet r l
columns_meet_comm l r =
    any-swap (λ c d. same_column c d) l r
    ∙ any_ext _ _ r (λ d. any_ext _ _ l (λ c. same_column_comm c d))

any-same_column :
    (r : Columns) (c : String)
    → any (λ d. same_column c d) r
      ≡ ((nonempty r && (c == all_columns)) || (contains r all_columns || contains r c))
any-same_column [] c = refl
any-same_column (d ∷ r) c = ground (arith, any-same_column r c, ==_comm c d)

pub columns_meet_lem :
    (l r : Columns)
    → columns_meet l r ≡ (
        (nonempty r && contains l all_columns)
        || ((nonempty l && contains r all_columns) || any (contains r) l))
columns_meet_lem [] r = ground arith
columns_meet_lem (c ∷ l) r = ground (arith, columns_meet_lem l r, any-same_column r c)

-- The set that `column_overlap` returns is non-empty exactly when some column may be meant by
-- both sets.
pub nonempty-column_overlap :
    (left right : Columns) → nonempty (column_overlap left right) ≡ columns_meet left right
unfolding column_overlap
nonempty-column_overlap [] right = refl
nonempty-column_overlap (c ∷ left) [] =
    ground (arith, columns_meet_lem (c ∷ left) [], any-false left)
nonempty-column_overlap (c ∷ left) (d ∷ right) = ground (
  arith,
  columns_meet_lem (c ∷ left) (d ∷ right),
  nonempty-filter_by (contains (d ∷ right)) (c ∷ left),
)
