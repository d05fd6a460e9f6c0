-- ===== src/StaticAnalysis/Kinds.antt =====
-- The kinds of conflict that `static_analysis_matching` reports.
use sqlite_reconcile.Prelude.{
  String, ◌≡◌, refl, sym, ap, ◌∙◌, inl, inr, Bool, true, false, not, ◌&&◌, ◌||◌, Option, some, List,
  [], ◌∷◌, ◌++◌, flat_map, if◌then◌else◌, Bool-cases, Option-cases, or_comm, or_assoc, or_false,
  nonempty, any, any-append, string_eq, nat_eq, ◌==◌, list_eq, has_key, lookup_or, has_key-insert,
}
use mathlib.Core.List.{flat_map}
use sqlite_reconcile.Schema.{ConflictCheckContext}
use sqlite_reconcile.Metadata.{
  StatementMetadata, TransactionMetadata, is_update_statement, required_updated_table,
}
use sqlite_reconcile.Models.{
  BranchName, ours, theirs, ConflictKind, write_write, write_read, implicit_insert_key,
  StatementConflict, ConflictCheckResult, add_conflicts, has_kind, conflict_kind_eq,
}
use sqlite_reconcile.StaticAnalysis.Overlaps.{
  metadata_write_overlap, same_written_table, transaction_write_write_overlap,
  transaction_write_read_overlap,
}
use sqlite_reconcile.StaticAnalysis.Keys.{
  omitted_integer_primary_key_column, implicit_insert_key_conflict,
  implicit_insert_key_update_conflict, implicit_insert_key_turn, implicit_insert_key_conflicts,
  transaction_implicit_insert_key_conflicts,
}
use sqlite_reconcile.StaticAnalysis.Matching.{
  kind_enabled, write_read_conflict, write_write_conflict, checks_from, either_cascades,
  static_conflicts, static_analysis_matching,
}

has_key-add_conflicts :
    (cs : List StatementConflict) (result : ConflictCheckResult) (k : ConflictKind)
    → has_key (add_conflicts result cs) k ≡ (has_key result k || any (λ c. c.kind == k) cs)
unfolding add_conflicts
has_key-add_conflicts [] result k = sym (or_false (has_key result k))
has_key-add_conflicts (c ∷ cs) result k =
    has_key-add_conflicts cs _ k
    ∙ ap (λ b. b || any (λ d. d.kind == k) cs)
        (has_key-insert result c.kind (lookup_or result c.kind [] ++ c ∷ []) k
          ∙ or_comm (c.kind == k) (has_key result k))
    ∙ or_assoc (has_key result k) (c.kind == k) (any (λ d. d.kind == k) cs)

-- All the conflicts are about hidden keys.
abbrev AllImplicit : List StatementConflict → Type 0
AllImplicit [] = Unit
AllImplicit (c ∷ cs) = c.kind ≡ implicit_insert_key × AllImplicit cs

AllImplicit-append :
    (cs ds : List StatementConflict) → AllImplicit cs → AllImplicit ds → AllImplicit (cs ++ ds)
AllImplicit-append [] ds h k = k
AllImplicit-append (c ∷ cs) ds h k = (h.0, AllImplicit-append cs ds h.1 k)

AllImplicit-flat_map :
    {A : Type 0} (f : A → List StatementConflict) (xs : List A)
    → ((x : A) → AllImplicit (f x))
    → AllImplicit (flat_map f xs)
unfolding flat_map
AllImplicit-flat_map f [] h = tt
AllImplicit-flat_map f (x ∷ xs) h =
    AllImplicit-append (f x) (flat_map f xs) (h x) (AllImplicit-flat_map f xs h)

kind_of_some :
    (d : StatementConflict) {c : StatementConflict}
    → d.kind ≡ implicit_insert_key
    → some d ≡ some c
    → c.kind ≡ implicit_insert_key
kind_of_some d {c} h e = let same : d ≡ c = cc in ap (λ x. x.kind) (sym same) ∙ h

implicit_insert_key_update_conflict-kind :
    (a : BranchName) (ins : StatementMetadata) (b : BranchName) (other : StatementMetadata)
    (key : String) {c : StatementConflict}
    → implicit_insert_key_update_conflict a ins b other key ≡ some c
    → c.kind ≡ implicit_insert_key
unfolding implicit_insert_key_update_conflict
implicit_insert_key_update_conflict-kind a ins b other key e =
    elim (Bool-cases (not (same_written_table ins other) || not (is_update_statement other))) [
      | inl h ↦ let e' = rw (implicit_insert_key_update_conflict, h) at e in cc
      | inr h ↦
          elim (Bool-cases (
            not
              (nonempty (metadata_write_overlap other (required_updated_table ins) (key ∷ []))))) [
                | inl g ↦ let e' = rw (implicit_insert_key_update_conflict, h, g) at e in cc
                | inr g ↦ kind_of_some _ refl (rw (implicit_insert_key_update_conflict, h, g) at e)
              ]
    ]

implicit_insert_key_turn-AllImplicit :
    (context : ConflictCheckContext) (a : BranchName) (ins : StatementMetadata) (b : BranchName)
    (other : StatementMetadata)
    → AllImplicit (implicit_insert_key_turn context a ins b other).0
unfolding implicit_insert_key_turn implicit_insert_key_conflict
implicit_insert_key_turn-AllImplicit context a ins b other =
    elim (Option-cases (omitted_integer_primary_key_column context ins)) [
      | inl h ↦ rw (implicit_insert_key_turn, h) tt
      | inr (key, h) ↦ elim (Bool-cases (not (same_written_table ins other))) [
        | inl s ↦ rw (implicit_insert_key_turn, h, s) tt
        | inr s ↦ elim (Option-cases (omitted_integer_primary_key_column context other)) [
          | inr (second, g) ↦ rw (implicit_insert_key_turn, h, s, g) (refl, tt)
          | inl g ↦ elim (Option-cases (implicit_insert_key_update_conflict a ins b other key)) [
            | inl u ↦ rw (implicit_insert_key_turn, h, s, g, u) tt
            | inr (c, u) ↦
                rw (implicit_insert_key_turn, h, s, g, u)
                  (implicit_insert_key_update_conflict-kind a ins b other key u, tt)
          ]
        ]
      ]
    ]

implicit_insert_key_conflicts-AllImplicit :
    (context : ConflictCheckContext) (o t : StatementMetadata)
    → AllImplicit (implicit_insert_key_conflicts context o t)
unfolding implicit_insert_key_conflicts
implicit_insert_key_conflicts-AllImplicit context o t =
    elim (Bool-cases (implicit_insert_key_turn context ours o theirs t).1) [
      | inl h ↦
          rw (implicit_insert_key_conflicts, h)
            (implicit_insert_key_turn-AllImplicit context ours o theirs t)
      | inr h ↦
          rw (implicit_insert_key_conflicts, h)
            (AllImplicit-append _ _ (implicit_insert_key_turn-AllImplicit context ours o theirs t)
              (implicit_insert_key_turn-AllImplicit context theirs t ours o))
    ]

any-AllImplicit :
    (cs : List StatementConflict) (k : ConflictKind)
    → (implicit_insert_key == k) ≡ false
    → AllImplicit cs
    → any (λ c. c.kind == k) cs ≡ false
any-AllImplicit [] k e h = refl
any-AllImplicit (c ∷ cs) k e h =
    ap (λ kind. kind == k || any (λ d. d.kind == k) cs) h.0
    ∙ ap (λ b. b || any (λ d. d.kind == k) cs) e
    ∙ any-AllImplicit cs k e h.1

module _ (context : ConflictCheckContext) (o t : TransactionMetadata)
    (kinds : Option (List ConflictKind)) (branch : Option BranchName)
    (ours_label theirs_label : Option String) where
  abbrev implicit_part : List StatementConflict
  implicit_part =
      if kind_enabled kinds implicit_insert_key
      then transaction_implicit_insert_key_conflicts context o t
      else []

  implicit_part-AllImplicit : AllImplicit implicit_part
  unfolding transaction_implicit_insert_key_conflicts
  implicit_part-AllImplicit = elim (Bool-cases (kind_enabled kinds implicit_insert_key)) [
    | inl h ↦ rw h (
        AllImplicit-flat_map _ o.statements (λ p.
          AllImplicit-flat_map _ t.statements
            (λ q. implicit_insert_key_conflicts-AllImplicit context p q)))
    | inr h ↦ rw h tt
  ]

  abbrev rest_part : List StatementConflict
  rest_part =
      (if kind_enabled kinds write_write && transaction_write_write_overlap o t
        then write_write_conflict (either_cascades o t) ∷ []
        else [])
      ++ (if kind_enabled kinds write_read
          then (if checks_from branch ours && transaction_write_read_overlap o t
              then write_read_conflict ours theirs ours_label theirs_label (either_cascades o t)
                ∷ []
              else [])
            ++ (if checks_from branch theirs && transaction_write_read_overlap t o
                then write_read_conflict theirs ours ours_label theirs_label (either_cascades t o)
                  ∷ []
                else [])
          else [])

  has_kind-rest_part :
      (k : ConflictKind)
      → (implicit_insert_key == k) ≡ false
      → has_kind (static_analysis_matching context o t kinds branch ours_label theirs_label) k
        ≡ any (λ c. c.kind == k) rest_part
  unfolding static_analysis_matching static_conflicts
  has_kind-rest_part k e =
      has_key-add_conflicts (implicit_part ++ rest_part) [] k
      ∙ any-append (λ c. c.kind == k) implicit_part rest_part
      ∙ ap (λ b. b || any (λ c. c.kind == k) rest_part)
          (any-AllImplicit implicit_part k e implicit_part-AllImplicit)

  -- The static analysis of two transactions reports a write/write conflict exactly when that kind
  -- is enabled and their writes overlap, and a write/read conflict exactly when that kind is
  -- enabled and the writes of one overlap the reads of the other in a direction that starts at
  -- the current branch, or in either direction where no current branch is given.
  pub static_analysis_matching-kinds :
      has_kind
          (static_analysis_matching context o t kinds branch ours_label theirs_label)
          write_write
        ≡ (kind_enabled kinds write_write && transaction_write_write_overlap o t)
      × has_kind
          (static_analysis_matching context o t kinds branch ours_label theirs_label)
          write_read
        ≡ (kind_enabled kinds write_read
            && ((checks_from branch ours && transaction_write_read_overlap o t)
                || (checks_from branch theirs && transaction_write_read_overlap t o)))
  unfolding write_write_conflict write_read_conflict
  static_analysis_matching-kinds = (
    has_kind-rest_part write_write refl
        ∙ found_write_write (kind_enabled kinds write_write && transaction_write_write_overlap o t)
            (kind_enabled kinds write_read)
            (checks_from branch ours && transaction_write_read_overlap o t)
            (checks_from branch theirs && transaction_write_read_overlap t o),
    has_kind-rest_part write_read refl
        ∙ found_write_read (kind_enabled kinds write_write && transaction_write_write_overlap o t)
            (kind_enabled kinds write_read)
            (checks_from branch ours && transaction_write_read_overlap o t)
            (checks_from branch theirs && transaction_write_read_overlap t o),
  )
    where
      parts : Bool → Bool → Bool → Bool → List StatementConflict
      parts b r p q =
          (if b then write_write_conflict (either_cascades o t) ∷ [] else [])
          ++ (if r
              then (if p
                  then write_read_conflict ours theirs ours_label theirs_label (either_cascades o t)
                    ∷ []
                  else [])
                ++ (if q
                    then write_read_conflict theirs ours ours_label theirs_label
                        (either_cascades t o)
                      ∷ []
                    else [])
              else [])

      found_write_write : (b r p q : Bool) → any (λ c. c.kind == write_write) (parts b r p q) ≡ b
      found_write_write true true p q = refl
      found_write_write true false p q = refl
      found_write_write false false p q = refl
      found_write_write false true true true = refl
      found_write_write false true true false = refl
      found_write_write false true false true = refl
      found_write_write false true false false = refl

      found_write_read :
          (b r p q : Bool) → any (λ c. c.kind == write_read) (parts b r p q) ≡ (r && (p || q))
      found_write_read true false p q = refl
      found_write_read false false p q = refl
      found_write_read true true true q = refl
      found_write_read false true true q = refl
      found_write_read true true false true = refl
      found_write_read false true false true = refl
      found_write_read true true false false = refl
      found_write_read false true false false = refl
