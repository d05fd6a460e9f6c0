-- ===== src/StaticAnalysis/Candidates.antt =====
-- The candidates that src/merge/static_analysis.py hands to the execution scan.
use sqlite_reconcile.Prelude.{
  ℕ, zero, suc, ◌+◌, ◌<◌, ◌≡◌, refl, sym, ap, ◌∙◌, Bool, false, ◌&&◌, ◌||◌, ◌==◌, Option, none,
  some, arith, get_elem?, any-append, any-map, any-filter_by, any-and, List, [], ◌∷◌, map, nonempty,
  any, any_ext, nonempty-filter_by, any-swap, nat_eq, string_eq, list_eq,
}
use mathlib.Core.List.{flat_map}
use sqlite_reconcile.Utils.{maps_meet}
use sqlite_reconcile.Metadata.{
  StatementMetadata, TransactionMetadata, transaction_metadata, written_columns_of, read_columns_of,
}
use sqlite_reconcile.Metadata.Aggregate.{
  HasUniqueKeys-written_columns_of, HasUniqueKeys-read_columns_of, maps_meet-read_columns_of,
  maps_meet-written_columns_of,
}
use sqlite_reconcile.StaticAnalysis.Overlaps.{
  metadata_write_write_overlap, metadata_reads_any, transaction_write_read_overlap, enumerate_from,
  write_write_candidate_pairs, write_read_candidate_indexes,
}
use sqlite_reconcile.StaticAnalysis.Symmetric.{columns_by_table_overlap_lem, maps_meet_comm}

module _ {ℓ} {A : Type ℓ} where
  any-enumerate_from :
      (p : A → Bool) (i : ℕ) (xs : List A) → any (λ x. p x.1) (enumerate_from i xs) ≡ any p xs
  any-enumerate_from p i [] = refl
  any-enumerate_from p i (x ∷ xs) = ap (λ b. p x || b) (any-enumerate_from p (i + 1) xs)

nonempty-map : {A B : Type 0} (f : A → B) (xs : List A) → nonempty (map f xs) ≡ nonempty xs
nonempty-map f [] = refl
nonempty-map f (x ∷ xs) = refl

any-flat_map :
    {A B : Type 0} (p : B → Bool) (f : A → List B) (xs : List A)
    → any p (flat_map f xs) ≡ any (λ x. any p (f x)) xs
unfolding flat_map
any-flat_map p f [] = refl
any-flat_map p f (x ∷ xs) =
    any-append p (f x) (flat_map f xs) ∙ ap (λ b. any p (f x) || b) (any-flat_map p f xs)

-- Whether there is an element, and it passes.
abbrev pub passes {ℓ} : {A : Type ℓ} → (A → Bool) → Option A → Bool
passes p none = false
passes p (some x) = p x

module _ {ℓ} {A : Type ℓ} where
  any-enumerate_from-none :
      (p : A → Bool) (xs : List A) (k n : ℕ)
      → n < k
      → any (λ x. (x.0 == n) && p x.1) (enumerate_from k xs) ≡ false
  any-enumerate_from-none p [] k n h = refl
  any-enumerate_from-none p (x ∷ xs) k n h =
      ground (arith, h, any-enumerate_from-none p xs (k + 1) n)

  -- A search at one index looks at the element there.
  any-enumerate_from-at :
      (p : A → Bool) (xs : List A) (k i n : ℕ)
      → n ≡ k + i
      → any (λ x. (x.0 == n) && p x.1) (enumerate_from k xs) ≡ passes p (get_elem? xs i)
  any-enumerate_from-at p [] k i n e = refl
  any-enumerate_from-at p (x ∷ xs) k zero n e =
      ground (arith, e, any-enumerate_from-none p xs (k + 1) n)
  any-enumerate_from-at p (x ∷ xs) k (suc i) n e =
      ground (arith, e, any-enumerate_from-at p xs (k + 1) i n (omega (arith, e)))

and_swap : (a b c : Bool) → (a && (b && c)) ≡ (b && (c && a))
and_swap a b c = ground arith

-- A pair of indexes is a candidate for a write/write conflict exactly when our transaction has a
-- statement at the first index, theirs has one at the second, and what the two write overlaps.
pub write_write_candidate_pairs-at :
    (o t : TransactionMetadata) (i j : ℕ)
    → any (λ pair. (pair.0 == i) && (pair.1 == j)) (write_write_candidate_pairs o t)
      ≡ passes
          (λ s. passes (metadata_write_write_overlap s) (get_elem? t.statements j))
          (get_elem? o.statements i)
unfolding write_write_candidate_pairs
write_write_candidate_pairs-at o t i j =
    any-flat_map (λ pair. (pair.0 == i) && (pair.1 == j)) _ (enumerate_from 0 o.statements)
    ∙ any_ext _ _ (enumerate_from 0 o.statements) (λ s.
      any-map (λ pair. (pair.0 == i) && (pair.1 == j)) (λ u. (s.0, u.0)) _
      ∙ any-filter_by (λ u. metadata_write_write_overlap s.1 u.1) (λ u. (s.0 == i) && (u.0 == j))
          (enumerate_from 0 t.statements)
      ∙ any_ext _ _ (enumerate_from 0 t.statements)
          (λ u. and_swap (metadata_write_write_overlap s.1 u.1) (s.0 == i) (u.0 == j))
      ∙ any-and (s.0 == i) (λ u. (u.0 == j) && metadata_write_write_overlap s.1 u.1)
          (enumerate_from 0 t.statements)
      ∙ ap (λ b. (s.0 == i) && b)
          (any-enumerate_from-at (metadata_write_write_overlap s.1) t.statements 0 j j
            (omega arith)))
    ∙ any-enumerate_from-at
        (λ s. passes (metadata_write_write_overlap s) (get_elem? t.statements j)) o.statements 0 i i
        (omega arith)

-- The overlap of what one transaction writes and what another reads, tested on the maps of the
-- two transactions, is found exactly when some statement of the one writes a column that some
-- statement of the other may read.
pub transaction_write_read_overlap_lem :
    (ws rs : List StatementMetadata)
    → transaction_write_read_overlap (transaction_metadata ws) (transaction_metadata rs)
      ≡ any
          (λ w.
            any
              (λ r.
                maps_meet w.tables_updated_to_columns_updated
                  r.tables_referenced_to_columns_referenced)
              rs)
          ws
unfolding transaction_write_read_overlap transaction_metadata
transaction_write_read_overlap_lem ws rs =
    columns_by_table_overlap_lem (written_columns_of ws []) (read_columns_of rs [])
      (HasUniqueKeys-read_columns_of rs [] tt)
    ∙ maps_meet-read_columns_of (written_columns_of ws []) rs
    ∙ any_ext _ _ rs (λ r.
      maps_meet_comm (written_columns_of ws []) r.tables_referenced_to_columns_referenced
      ∙ maps_meet-written_columns_of r.tables_referenced_to_columns_referenced ws
      ∙ any_ext _ _ ws (λ w.
        maps_meet_comm r.tables_referenced_to_columns_referenced
          w.tables_updated_to_columns_updated))
    ∙ any-swap
        (λ r w.
          maps_meet w.tables_updated_to_columns_updated r.tables_referenced_to_columns_referenced)
        rs ws

-- The scan is given reading statements exactly when the static test finds an overlap of what one
-- transaction writes and the other reads.
pub nonempty-write_read_candidate_indexes :
    (ws rs : List StatementMetadata)
    → nonempty (write_read_candidate_indexes (transaction_metadata ws) (transaction_metadata rs))
      ≡ transaction_write_read_overlap (transaction_metadata ws) (transaction_metadata rs)
unfolding write_read_candidate_indexes transaction_write_read_overlap metadata_reads_any
    transaction_metadata
nonempty-write_read_candidate_indexes ws rs =
    let written = written_columns_of ws [] in
    nonempty-map (λ r. r.0) _
    ∙ nonempty-filter_by (λ r. metadata_reads_any r.1 written) (enumerate_from 0 rs)
    ∙ any-enumerate_from (λ r. metadata_reads_any r written) 0 rs
    ∙ any_ext _ _ rs (λ r.
      columns_by_table_overlap_lem r.tables_referenced_to_columns_referenced written
        (HasUniqueKeys-written_columns_of ws [] tt)
      ∙ maps_meet_comm r.tables_referenced_to_columns_referenced written)
    ∙ sym (maps_meet-read_columns_of written rs)
    ∙ sym (
        columns_by_table_overlap_lem written (read_columns_of rs [])
          (HasUniqueKeys-read_columns_of rs [] tt))
