-- ===== src/LogMerge/Grouping.antt =====
-- src/merge/log_merge.py: grouping loses, reorders and mixes no statements.
use sqlite_reconcile.Prelude.{
  ℕ, ◌+◌, ◌≡◌, refl, sym, ap, ◌∙◌, inl, inr, false, List, [], ◌∷◌, ◌++◌, flat_map, Bool-cases, ◌==◌,
  nat_eq, string_eq, ==_iff, list_eq,
}
use mathlib.Core.Path.{subst}
use mathlib.Core.List.{flat_map}
use sqlite_reconcile.Models.{LoggedStatement, LoggedTransaction}
use sqlite_reconcile.LogMerge.{
  push_statement, group_by_id, logged_transaction, transactions_from, group_logged_transactions,
}

abbrev concat_groups : List (List LoggedStatement) → List LoggedStatement
concat_groups [] = []
concat_groups (group ∷ groups) = group ++ concat_groups groups

concat_groups-push_statement :
    (s : LoggedStatement) (groups : List (List LoggedStatement))
    → concat_groups (push_statement s groups) ≡ s ∷ concat_groups groups
concat_groups-push_statement s [] = refl
concat_groups-push_statement s ([] ∷ groups) = refl
concat_groups-push_statement s ((t ∷ group) ∷ groups) =
    elim (Bool-cases (s.transaction_id == t.transaction_id)) [
      | inl h ↦ rw h refl
      | inr h ↦ rw h refl
    ]

concat_groups-group_by_id : (ss : List LoggedStatement) → concat_groups (group_by_id ss) ≡ ss
unfolding group_by_id
concat_groups-group_by_id [] = refl
concat_groups-group_by_id (s ∷ ss) =
    concat_groups-push_statement s (group_by_id ss)
    ∙ ap (λ us. s ∷ us) (concat_groups-group_by_id ss)

statements-transactions_from :
    (groups : List (List LoggedStatement)) (i : ℕ)
    → flat_map (λ t. t.statements) (transactions_from i groups) ≡ concat_groups groups
unfolding transactions_from logged_transaction flat_map
statements-transactions_from [] i = refl
statements-transactions_from ([] ∷ groups) i = statements-transactions_from groups (i + 1)
statements-transactions_from ((s ∷ group) ∷ groups) i =
    ap (λ us. s ∷ group ++ us) (statements-transactions_from groups (i + 1))

-- Every statement has the id.
abbrev pub HasId : ℕ → List LoggedStatement → Type 0
HasId id [] = Unit
HasId id (s ∷ ss) = s.transaction_id ≡ id × HasId id ss

-- A transaction's statements all have its id, and the next transaction has another one.
abbrev pub IsApart : ℕ → List (List LoggedStatement) → Type 0
IsApart id [] = Unit
IsApart id ([] ∷ groups) = Unit
IsApart id ((s ∷ group) ∷ groups) = (id == s.transaction_id) ≡ false

-- The groups are not empty, each has one id, and neighbours have different ids.
abbrev pub AreRuns : List (List LoggedStatement) → Type 0
AreRuns [] = Unit
AreRuns ([] ∷ groups) = ⊥
AreRuns ((s ∷ group) ∷ groups) =
    HasId s.transaction_id group × IsApart s.transaction_id groups × AreRuns groups

push_statement-AreRuns :
    (s : LoggedStatement) (groups : List (List LoggedStatement))
    → AreRuns groups
    → AreRuns (push_statement s groups)
push_statement-AreRuns s [] h = (tt, tt, tt)
push_statement-AreRuns s ([] ∷ groups) h = elim h [ ]
push_statement-AreRuns s ((t ∷ group) ∷ groups) h =
    elim (Bool-cases (s.transaction_id == t.transaction_id)) [
      | inl e ↦
          let same : t.transaction_id ≡ s.transaction_id =
            sym ((==_iff s.transaction_id t.transaction_id).0 e) in
          rw e (
            (same, subst (λ id. HasId id group) same h.0),
            subst (λ id. IsApart id groups) same h.1,
            h.2,
          )
      | inr e ↦ rw e (tt, e, h)
    ]

pub group_by_id-AreRuns : (ss : List LoggedStatement) → AreRuns (group_by_id ss)
unfolding group_by_id
group_by_id-AreRuns [] = tt
group_by_id-AreRuns (s ∷ ss) = push_statement-AreRuns s (group_by_id ss) (group_by_id-AreRuns ss)

-- The index and the id of each transaction, and the runs, as positions in the list of runs.
abbrev pub IsNumbered : ℕ → List (List LoggedStatement) → List LoggedTransaction → Type 0
IsNumbered i [] [] = Unit
IsNumbered i (group ∷ groups) (t ∷ ts) =
    t.branch_index ≡ i
    × t.statements ≡ group
    × HasId t.transaction_id group
    × IsNumbered (i + 1) groups ts
IsNumbered i _ _ = ⊥

transactions_from-IsNumbered :
    (groups : List (List LoggedStatement)) (i : ℕ)
    → AreRuns groups
    → IsNumbered i groups (transactions_from i groups)
unfolding transactions_from logged_transaction
transactions_from-IsNumbered [] i h = tt
transactions_from-IsNumbered ([] ∷ groups) i h = elim h [ ]
transactions_from-IsNumbered ((s ∷ group) ∷ groups) i h =
    (refl, refl, (refl, h.0), transactions_from-IsNumbered groups (i + 1) h.2)

-- The statements of the grouped transactions, one transaction after the other, are the statements
-- of the log.
pub group_logged_transactions-statements :
    (ss : List LoggedStatement) → flat_map (λ t. t.statements) (group_logged_transactions ss) ≡ ss
unfolding group_logged_transactions
group_logged_transactions-statements ss =
    statements-transactions_from (group_by_id ss) 0 ∙ concat_groups-group_by_id ss

-- The runs of statements with one id are not empty, no two neighbouring runs have the same id,
-- and the transactions stand for the runs in their order: each has the statements and the id of
-- its run, and its position as its index.
pub group_logged_transactions-IsNumbered :
    (ss : List LoggedStatement)
    → AreRuns (group_by_id ss) × IsNumbered 0 (group_by_id ss) (group_logged_transactions ss)
unfolding group_logged_transactions
group_logged_transactions-IsNumbered ss = (
  group_by_id-AreRuns ss,
  transactions_from-IsNumbered (group_by_id ss) 0 (group_by_id-AreRuns ss),
)
