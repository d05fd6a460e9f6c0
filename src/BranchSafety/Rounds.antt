-- ===== src/BranchSafety/Rounds.antt =====
-- Where the user drops what does not replay, the check of a branch keeps what replays.
use sqlite_reconcile.Prelude.{
  ℕ, suc, ◌≡◌, refl, ap, ◌∙◌, Bool, Option, none, some, List, [], ◌∷◌, string_eq, nat_eq, list_eq,
}
use sqlite_reconcile.Effects.{M, pure, continue_with, ◌>>=◌, Result, ok, raised}
use sqlite_reconcile.Models.{conflict_kind_eq, BranchName, LoggedTransaction, ConflictPair}
use sqlite_reconcile.Database.{Database}
use sqlite_reconcile.Replay.{ReplayContext}
use sqlite_reconcile.BranchSafety.{
  Issue, kept_first, branch_transaction_replay_issue, accept_warning, has_warning, dropped_or_again,
  settle_issue, resolve_branch_transaction, resolve_branch_replay_safety, Resolution, replayed,
  dropped, Prompt,
}
use sqlite_reconcile.Mergetool.State.{transaction_with_statements, standalone_head_conflict}

module _ (db : Database) (context : ReplayContext) where
  abbrev keep_if : Issue → LoggedTransaction → List LoggedTransaction → List LoggedTransaction
  keep_if none t rest = t ∷ rest
  keep_if (some issue) t rest = rest

  -- The transactions that replay, each behind those before it.
  unfoldable pub replaying : List LoggedTransaction → M db.State (List LoggedTransaction)
  unfolding branch_transaction_replay_issue
  replaying [] = pure []
  replaying (t ∷ transactions) = do
    issue ← branch_transaction_replay_issue db context t
    rest ← replaying transactions
    pure (keep_if issue t rest)

module _ (db : Database) (context : ReplayContext) (prompt : Prompt db context) where
  -- Every answer drops the transaction, and leaves the database as it is.
  abbrev pub DropsAll : Type 0
  DropsAll =
      (pair : ConflictPair) (t : LoggedTransaction) (allow_accept : Bool) (x : db.State)
      → prompt.ask pair t allow_accept x ≡ (x, ok [])

  abbrev resolution_of : LoggedTransaction → Issue → Resolution
  resolution_of current none = replayed current
  resolution_of current (some issue) = dropped

  settle_issue-dropped :
      (branch : BranchName) (current : LoggedTransaction) (issue : Issue)
      (again : LoggedTransaction → M db.State Resolution) (x : db.State)
      → DropsAll
      → settle_issue db context prompt branch current issue again x
        ≡ (x, ok (resolution_of current issue))
  settle_issue-dropped branch current none again x drops = refl
  settle_issue-dropped branch current (some issue) again x drops = continue_ask (
      drops (standalone_head_conflict issue.conflict branch) current (has_warning db context issue)
        x)
    where
      continue_ask :
          prompt.ask
              (standalone_head_conflict issue.conflict branch)
              current
              (has_warning db context issue)
              x
            ≡ (x, ok [])
          → settle_issue db context prompt branch current (some issue) again x ≡ (x, ok dropped)
      continue_ask e =
          ap
            (λ out. continue_with out (λ statements.
              dropped_or_again db context statements (λ replacement. again (
                transaction_with_statements current
                  (accept_warning db context prompt issue replacement)))))
            e

  kept_first-resolution_of :
      (first : LoggedTransaction) (issue : Issue) (ts : List LoggedTransaction)
      → kept_first (resolution_of first issue) (some ts) ≡ some (keep_if db context issue first ts)
  kept_first-resolution_of first none ts = refl
  kept_first-resolution_of first (some issue) ts = refl

  -- The rest of the list, behind a transaction with this issue.
  joined :
      (first : LoggedTransaction) (issue : Issue) (out : db.State × Result (List LoggedTransaction))
      → continue_with
          (continue_with {B = Option (List LoggedTransaction)} out (λ ts. pure (some ts)))
          (λ found. pure {S = db.State} (kept_first (resolution_of first issue) found))
        ≡ continue_with
            (continue_with {B = List LoggedTransaction} out
              (λ ts. pure (keep_if db context issue first ts)))
            (λ ts. pure {S = db.State} (some ts))
  joined first issue (y, ok ts) =
      ap (λ kept. (y, ok kept)) (kept_first-resolution_of first issue ts)
  joined first issue (y, raised e) = refl

  -- Where the user drops each transaction that is asked about, and the question leaves the
  -- database alone, the check of a branch does the same as one pass over its transactions that
  -- replays each behind those before it and keeps exactly those that replay: it returns the same
  -- transactions, in the same state of the database, with the same exceptions, and one round for
  -- each is enough.
  pub resolve_branch_replay_safety-dropped :
      (branch : BranchName) (fuel : ℕ) (transactions : List LoggedTransaction) (x : db.State)
      → DropsAll
      → resolve_branch_replay_safety db context prompt branch (suc fuel) transactions x
        ≡ (replaying db context transactions >>= λ ts. pure (some ts)) x
  unfolding resolve_branch_replay_safety resolve_branch_transaction replaying
  resolve_branch_replay_safety-dropped branch fuel [] x drops = refl
  resolve_branch_replay_safety-dropped branch fuel (first ∷ transactions) x drops =
      step (branch_transaction_replay_issue db context first x)
        (λ y. resolve_branch_replay_safety-dropped branch fuel transactions y drops)
    where
      step :
          (out : db.State × Result Issue)
          → ((y : db.State)
              → resolve_branch_replay_safety db context prompt branch (suc fuel) transactions y
                ≡ (replaying db context transactions >>= λ ts. pure (some ts)) y)
          → continue_with
              (continue_with out (λ issue.
                settle_issue db context prompt branch first issue
                  (resolve_branch_transaction db context prompt branch fuel)))
              (λ resolution.
                resolve_branch_replay_safety db context prompt branch (suc fuel) transactions
                >>= λ rest. pure (kept_first resolution rest))
            ≡ continue_with
                (continue_with out (λ issue. replaying db context transactions >>= λ rest.
                  pure (keep_if db context issue first rest)))
                (λ ts. pure (some ts))
      step (y, ok issue) later =
          ap
            (λ settled. continue_with settled (λ resolution.
              resolve_branch_replay_safety db context prompt branch (suc fuel) transactions
              >>= λ rest. pure (kept_first resolution rest)))
            (settle_issue-dropped branch first issue
              (resolve_branch_transaction db context prompt branch fuel) y drops)
          ∙ ap
              (λ out.
                continue_with out (λ rest. pure (kept_first (resolution_of first issue) rest)))
              (later y)
          ∙ joined first issue (replaying db context transactions y)
      step (y, raised e) later = refl
