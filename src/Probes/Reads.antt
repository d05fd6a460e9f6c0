-- ===== src/Probes/Reads.antt =====
-- Which columns of the rows of an INSERT the probe selects.
use sqlite_reconcile.Prelude.{
  ℕ, zero, suc, ◌+◌, ◌<◌, String, ◌≡◌, refl, sym, ap, ◌∙◌, inl, inr, Bool, true, false, ◌||◌, none,
  some, List, [], ◌∷◌, ◌++◌, arith, Bool-cases, or_assoc, get_elem?, any, string_eq, nat_eq, ◌==◌,
  ==_iff, ==_refl, contains, contains-append, list_eq, concat, show,
}
use sqlite_reconcile.Replay.{RenderedValue}
use sqlite_reconcile.Probes.{
  row_reads, read_rows, value_reads, read_indexes, add_sorted, add_all_sorted, value_indexes,
  selected_values,
}

contains-add_sorted :
    (i : ℕ) (indexes : List ℕ) (j : ℕ)
    → contains (add_sorted i indexes) j ≡ ((i == j) || contains indexes j)
contains-add_sorted i [] j = refl
contains-add_sorted i (k ∷ indexes) j = ground (arith, contains-add_sorted i indexes j)

contains-add_all_sorted :
    (more indexes : List ℕ) (j : ℕ)
    → contains (add_all_sorted more indexes) j ≡ (contains more j || contains indexes j)
contains-add_all_sorted [] indexes j = refl
contains-add_all_sorted (i ∷ more) indexes j =
    contains-add_sorted i (add_all_sorted more indexes) j
    ∙ ap (λ b. (i == j) || b) (contains-add_all_sorted more indexes j)
    ∙ sym (or_assoc (i == j) (contains more j) (contains indexes j))

read_indexes-start :
    (row : List RenderedValue) (start j : ℕ)
    → j < start
    → contains (read_indexes start row) j ≡ false
read_indexes-start [] start j h = refl
read_indexes-start (v ∷ row) start j h = ground (arith, h, read_indexes-start row (start + 1) j)

contains-read_indexes :
    (row : List RenderedValue) (start j k : ℕ)
    → k ≡ start + j
    → contains (read_indexes start row) k ≡ value_reads (get_elem? row j)
contains-read_indexes [] start j k e = refl
contains-read_indexes (v ∷ row) start zero k e =
    ground (arith, e, read_indexes-start row (start + 1) k)
contains-read_indexes (v ∷ row) start (suc j) k e =
    ground (arith, e, contains-read_indexes row (start + 1) j k (omega (arith, e)))

row_reads-false :
    (row : List RenderedValue) (j : ℕ)
    → row_reads row ≡ false
    → value_reads (get_elem? row j) ≡ false
row_reads-false [] j h = refl
row_reads-false (v ∷ row) zero h = ground arith
row_reads-false (v ∷ row) (suc j) h = ground (arith, row_reads-false row j)

-- The sorted set of columns that the probe of the rows of an INSERT selects has exactly the
-- columns in which some of the rows has a value that reads, whatever index the rows are counted
-- from.
pub contains-value_indexes :
    (rows : List (List RenderedValue)) (index j : ℕ)
    → contains (value_indexes (read_rows index rows)) j
      ≡ any (λ row. value_reads (get_elem? row j)) rows
unfolding value_indexes read_rows
contains-value_indexes [] index j = refl
contains-value_indexes (row ∷ rows) index j = elim (Bool-cases (row_reads row)) [
  | inl h ↦ rw h (
      contains-add_all_sorted (read_indexes 0 row) (value_indexes (read_rows (suc index) rows)) j
      ∙ ap (λ b. b || contains (value_indexes (read_rows (suc index) rows)) j)
          (contains-read_indexes row 0 j j (omega arith))
      ∙ ap (λ b. value_reads (get_elem? row j) || b) (contains-value_indexes rows (suc index) j))
  | inr h ↦ rw (h, row_reads-false row j h) (contains-value_indexes rows (suc index) j)
]

-- The text under which the probe selects a value.
abbrev pub selected_value : RenderedValue → ℕ → String
selected_value v j = concat (v.sql ∷ " AS __value_" ∷ show (j + 1) ∷ [])

abbrev selected_at : List RenderedValue → ℕ → List String
selected_at row i = elim (get_elem? row i) [
  | none ↦ []
  | some v ↦ concat (v.sql ∷ " AS __value_" ∷ show (i + 1) ∷ []) ∷ []
]

contains_self : (text : String) → contains (text ∷ []) text ≡ true
contains_self text = rw (==_refl text) refl

selected_here :
    (row : List RenderedValue) (j : ℕ) (v : RenderedValue)
    → get_elem? row j ≡ some v
    → contains (selected_at row j) (selected_value v j) ≡ true
selected_here row j v e =
    ap
      (λ o.
        contains
          (elim o as (λ x. List String) [
            | none ↦ []
            | some w ↦ concat (w.sql ∷ " AS __value_" ∷ show (j + 1) ∷ []) ∷ []
          ])
          (selected_value v j))
      e
    ∙ contains_self (selected_value v j)

or_true : (b : Bool) → (b || true) ≡ true
or_true b = ground arith

contains-selected_values :
    (row : List RenderedValue) (indexes : List ℕ) (j : ℕ) (v : RenderedValue)
    → get_elem? row j ≡ some v
    → contains indexes j ≡ true
    → contains (selected_values row indexes) (selected_value v j) ≡ true
contains-selected_values row [] j v e h = cc
contains-selected_values row (i ∷ indexes) j v e h = elim (Bool-cases (i == j)) [
  | inl same ↦
      let here : i ≡ j = (==_iff i j).0 same in
      contains-append (selected_at row i) (selected_values row indexes) (selected_value v j)
      ∙ ap (λ b. b || contains (selected_values row indexes) (selected_value v j))
          (ap (λ k. contains (selected_at row k) (selected_value v j)) here
            ∙ selected_here row j v e)
  | inr other ↦
      let later : contains indexes j ≡ true = rw (← h, other) refl in
      let found = contains-selected_values row indexes j v e later in
      contains-append _ (selected_values row indexes) (selected_value v j)
      ∙ ap (λ b. contains (selected_at row i) (selected_value v j) || b) found
      ∙ or_true (contains (selected_at row i) (selected_value v j))
]

any-member :
    (before : List (List RenderedValue)) (row : List RenderedValue)
    (after : List (List RenderedValue)) (p : List RenderedValue → Bool)
    → p row ≡ true
    → any p (before ++ row ∷ after) ≡ true
any-member [] row after p h = ground (arith, h)
any-member (r ∷ before) row after p h = ground (arith, any-member before row after p h)

-- Each value that reads, of any row of an INSERT, stands among what the probe selects for its
-- row, under the name of its own column, which counts from 1.
pub contains-selected_values-reads :
    (before : List (List RenderedValue)) (row : List RenderedValue)
    (after : List (List RenderedValue)) (j : ℕ) (v : RenderedValue)
    → get_elem? row j ≡ some v
    → v.has_read ≡ true
    → contains
        (selected_values row (value_indexes (read_rows 0 (before ++ row ∷ after))))
        (selected_value v j)
      ≡ true
contains-selected_values-reads before row after j v e h = contains-selected_values row _ j v e (
    contains-value_indexes (before ++ row ∷ after) 0 j
    ∙ any-member before row after (λ r. value_reads (get_elem? r j)) (rw e h))
