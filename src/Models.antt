-- ===== src/Models.antt =====
-- src/merge/models.py: logged statements and transactions, conflicts and their groups by kind.
pub mod Groups
pub mod Keys
use sqlite_reconcile.Prelude.{
  ℕ, ◌+◌, String, ◌≡◌, refl, sym, ap, ◌∙◌, ◌↔◌, Bool, true, false, Option, some, List, [], ◌∷◌, map,
  flat_map, nat_beq, nat_beq_iff, if◌then◌else◌, nonempty, ◌==◌, nat_eq, string_eq, list_eq, Eq,
  Dict, has_key, lookup_or, insert, remove, append_to, is_negative, abs, concat, join, show, ℤ,
}
use sqlite_reconcile.Metadata.{StatementMetadata, TransactionMetadata}

pub data BranchName : Type 0 where
  ours theirs : BranchName

pub data ConflictScope : Type 0 where
  pair_scope ours_scope theirs_scope both_scope : ConflictScope

pub data ConflictKind : Type 0 where
  write_write write_read implicit_insert_key integrity constraint_resolution replay_error :
      ConflictKind

pub record LoggedStatement : Type 0 where
  pub branch : BranchName
  pub branch_index : ℤ
  pub transaction_id : ℕ
  pub committed_at : String
  pub original_sql_text : String
  pub to_replay_sql_text : String
  pub is_replay_safe : Bool
  pub replay_block_reason : Option String
  pub metadata : StatementMetadata
  pub replay_warnings : List String
  pub accepted_replay_warnings : List String

-- `LoggedStatement.sql_text`
abbrev pub sql_text : LoggedStatement → String
sql_text s = s.to_replay_sql_text

pub record LoggedTransaction : Type 0 where
  pub branch : BranchName
  pub branch_index : ℕ
  pub transaction_id : ℕ
  pub committed_at : String
  pub statements : List LoggedStatement
  pub metadata : TransactionMetadata

-- `LoggedTransaction.sql_text`
unfoldable pub transaction_sql_text : LoggedTransaction → String
transaction_sql_text t = join "; " (map sql_text t.statements)

pub record StatementConflict : Type 0 where
  pub kind : ConflictKind
  pub message : String
  pub scope : ConflictScope
  pub details : List (String × String)

abbrev pub kind_rank : ConflictKind → ℕ
kind_rank write_write = 0
kind_rank write_read = 1
kind_rank implicit_insert_key = 2
kind_rank integrity = 3
kind_rank constraint_resolution = 4
kind_rank replay_error = 5

abbrev pub same_conflict_kind : ConflictKind → ConflictKind → Bool
same_conflict_kind a b = nat_beq (kind_rank a) (kind_rank b)

abbrev of_rank : ℕ → ConflictKind
of_rank n =
    if n == 0
    then write_write
    else if n == 1
    then write_read
    else if n == 2
    then implicit_insert_key
    else if n == 3
    then integrity
    else if n == 4
    then constraint_resolution
    else replay_error

of_rank-kind_rank : (k : ConflictKind) → of_rank (kind_rank k) ≡ k
of_rank-kind_rank write_write = refl
of_rank-kind_rank write_read = refl
of_rank-kind_rank implicit_insert_key = refl
of_rank-kind_rank integrity = refl
of_rank-kind_rank constraint_resolution = refl
of_rank-kind_rank replay_error = refl

pub same_conflict_kind_iff : (a b : ConflictKind) → (same_conflict_kind a b ≡ true) ↔ (a ≡ b)
same_conflict_kind_iff a b = (
  λ h.
      sym (of_rank-kind_rank a)
      ∙ ap of_rank ((nat_beq_iff (kind_rank a) (kind_rank b)).0 h)
      ∙ of_rank-kind_rank b,
  λ p. (nat_beq_iff (kind_rank a) (kind_rank b)).1 (ap kind_rank p),
)

instance abbrev pub conflict_kind_eq : Eq ConflictKind
conflict_kind_eq = record { beq = same_conflict_kind; beq_iff = same_conflict_kind_iff }

abbrev pub same_branch : BranchName → BranchName → Bool
same_branch ours ours = true
same_branch theirs theirs = true
same_branch _ _ = false

abbrev pub opposite : BranchName → BranchName
opposite ours = theirs
opposite theirs = ours

abbrev pub branch_scope : BranchName → ConflictScope
branch_scope ours = ours_scope
branch_scope theirs = theirs_scope

-- `ConflictCheckResult`: the conflicts under their kinds, in the order in which the kinds came in.
abbrev pub ConflictCheckResult : Type 0
ConflictCheckResult = Dict ConflictKind (List StatementConflict)

unfoldable pub add_conflicts : ConflictCheckResult → List StatementConflict → ConflictCheckResult
add_conflicts result [] = result
add_conflicts result (c ∷ conflicts) = add_conflicts (append_to result c.kind c) conflicts

-- `ConflictCheckResult(conflicts)`
unfoldable pub result_of : List StatementConflict → ConflictCheckResult
unfolding add_conflicts
result_of conflicts = add_conflicts [] conflicts

-- `result.conflicts`
unfoldable pub all_conflicts : ConflictCheckResult → List StatementConflict
all_conflicts result = flat_map (λ x. x.1) result

abbrev pub has_conflict : ConflictCheckResult → Bool
has_conflict result = nonempty result

unfoldable pub of_kind : ConflictCheckResult → ConflictKind → List StatementConflict
of_kind result kind = lookup_or result kind []

abbrev pub has_kind : ConflictCheckResult → ConflictKind → Bool
has_kind result kind = has_key result kind

unfoldable pub without_kind : ConflictCheckResult → ConflictKind → ConflictCheckResult
without_kind result kind = remove result kind

unfoldable pub replace_kind :
    ConflictCheckResult → ConflictKind → List StatementConflict → ConflictCheckResult
replace_kind result kind conflicts =
    let rest = remove result kind in if nonempty conflicts then insert rest kind conflicts else rest

-- What an accepted pair is recognised by.
pub record ConflictResolutionKey : Type 0 where
  pub ours_id : ℕ
  pub ours_indexes : List ℤ
  pub ours_sql : List String
  pub theirs_id : ℕ
  pub theirs_indexes : List ℤ
  pub theirs_sql : List String
  pub conflicts : List (ConflictKind × ConflictScope × String)

pub record ConflictPair : Type 0 where
  pub current_branch : BranchName
  pub other_index : Option ℕ
  pub ours_sql : String
  pub theirs_sql : String
  pub conflicts : List StatementConflict
  pub resolution_key : Option ConflictResolutionKey
  pub is_standalone : Bool

-- `none` is the `ValueError` of a standalone conflict.
unfoldable pub index_for_branch : ConflictPair → BranchName → Option ℕ
index_for_branch pair branch =
    if same_branch branch pair.current_branch then some 0 else pair.other_index

unfoldable pub statement_label : LoggedStatement → String
unfolding show
statement_label s =
    if is_negative s.branch_index
    then concat ((elim s.branch [ ours ↦ "LN" | theirs ↦ "RN" ]) ∷ show (abs s.branch_index) ∷ [])
    else concat ((elim s.branch [ ours ↦ "L" | theirs ↦ "R" ]) ∷ show (abs s.branch_index + 1) ∷ [])

unfoldable pub transaction_label : LoggedTransaction → String
unfolding show
transaction_label t =
    concat ((elim t.branch [ ours ↦ "L" | theirs ↦ "R" ]) ∷ show (t.branch_index + 1) ∷ [])
