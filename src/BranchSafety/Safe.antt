-- ===== src/BranchSafety/Safe.antt =====
-- What the branch check returns has no statement left that is blocked.
use sqlite_reconcile.Mergetool.Quiet.{AllSafe}
use sqlite_reconcile.Prelude.{
  ℕ, zero, suc, String, ◌≡◌, refl, ap, ◌∙◌, Bool, Option, none, some, List, [], ◌∷◌, string_eq,
  nat_eq, list_eq,
}
use sqlite_reconcile.Effects.{M, pure, handle_with, Result, sqlite_error, uncaught, ok, raised}
use sqlite_reconcile.Effects.Contained.{continue_with-result}
use sqlite_reconcile.Models.{conflict_kind_eq, BranchName, LoggedStatement, LoggedTransaction}
use sqlite_reconcile.LogMerge.{unresolved_replay_block_reason}
use sqlite_reconcile.Database.{rollback_savepoint, fresh_savepoint, Database}
use sqlite_reconcile.Replay.{ReplayContext}
use sqlite_reconcile.BranchSafety.{
  statement_replay_warning, Issue, kept_first, blocked_or_run, warned_or_run, rolled_back,
  rolled_back_on_issue, statement_issue, issue_or_next, statements_issue,
  branch_transaction_replay_issue, accept_warning, has_warning, dropped_or_again, settle_issue,
  resolve_branch_transaction, resolve_branch_replay_safety, BranchReplayIssue, Resolution, replayed,
  dropped, out_of_fuel, Prompt,
}
use sqlite_reconcile.Mergetool.State.{
  transaction_with_statements, standalone_head_conflict, first_unsafe_statement,
  unresolved_replay_safety_conflict,
}

module _ (db : Database) (context : ReplayContext) where
  blocked-none :
      (branch : BranchName) (s : LoggedStatement) (reason : Option String) (x : db.State)
      → (blocked_or_run db context branch s reason x).1 ≡ ok none
      → reason ≡ none
  blocked-none branch s none x h = refl
  blocked-none branch s (some reason) x h = cc

  warned-none :
      (branch : BranchName) (s : LoggedStatement) (warning : Option String) (x : db.State)
      → (warned_or_run db context branch s warning x).1 ≡ ok none
      → unresolved_replay_block_reason s ≡ none
  warned-none branch s none x h = blocked-none branch s _ x h
  warned-none branch s (some warning) x h = cc

  rolled_back-some :
      (name : String) (issue : BranchReplayIssue) (x : db.State)
      → ¬ ((rolled_back db context name issue x).1 ≡ ok none)
  rolled_back-some name issue x h =
      let (u, told, rest) = continue_with-result {B = Issue} (rollback_savepoint db name x) _ h in
      cc

  handled-none :
      (out : db.State × Result Issue) (name : String) (told : Bool → String → BranchReplayIssue)
      → (handle_with out (λ i m. rolled_back db context name (told i m))).1 ≡ ok none
      → out.1 ≡ ok none
  handled-none (x, ok issue) name told h = h
  handled-none (x, raised (sqlite_error i m)) name told h =
      absurd (rolled_back-some name (told i m) x h)
  handled-none (x, raised (uncaught error)) name told h = cc

  rolled_back_on_issue-none :
      (name : String) (issue : Issue) (x : db.State)
      → (rolled_back_on_issue db context name issue x).1 ≡ ok none
      → issue ≡ none
  rolled_back_on_issue-none name none x h = refl
  rolled_back_on_issue-none name (some issue) x h = absurd (rolled_back-some name issue x h)

  statement_issue-none :
      (branch : BranchName) (name : String) (s : LoggedStatement) (x : db.State)
      → (statement_issue db context branch name s x).1 ≡ ok none
      → unresolved_replay_block_reason s ≡ none
  unfolding statement_issue
  statement_issue-none branch name s x h =
      let run = warned_or_run db context branch s (statement_replay_warning s) x in
      let (issue, told, rest) = continue_with-result {B = Issue} run _ (handled-none _ _ _ h) in
      warned-none branch s (statement_replay_warning s) x
        (told ∙ ap (λ i. ok i) (rolled_back_on_issue-none name issue _ rest))

  passed :
      (issue : Issue) (next : M db.State Issue) (x : db.State)
      → (issue_or_next db context issue next x).1 ≡ ok none
      → (issue ≡ none) × ((next x).1 ≡ ok none)
  passed none next x h = (refl, h)
  passed (some issue) next x h = cc

  statements_issue-none :
      (statements : List LoggedStatement) (branch scope : BranchName) (name : String) (x : db.State)
      → (statements_issue db context branch name statements x).1 ≡ ok none
      → first_unsafe_statement scope statements ≡ none
  unfolding statements_issue first_unsafe_statement
  statements_issue-none [] branch scope name x h = refl
  statements_issue-none (s ∷ statements) branch scope name x h =
      let run = statement_issue db context branch name s x in
      let (issue, told, rest) = continue_with-result {B = Issue} run _ h in
      let (clear, later) = passed issue _ _ rest in
      rw
        (first_unsafe_statement, statement_issue-none branch name s x (told ∙ ap (λ i. ok i) clear))
        (statements_issue-none statements branch scope name _ later)

  branch_transaction_replay_issue-none :
      (t : LoggedTransaction) (x : db.State)
      → (branch_transaction_replay_issue db context t x).1 ≡ ok none
      → unresolved_replay_safety_conflict t ≡ none
  unfolding branch_transaction_replay_issue unresolved_replay_safety_conflict
  branch_transaction_replay_issue-none t x h =
      let (name, drawn, opened) =
        continue_with-result (fresh_savepoint db "sqlite_merge_branch_" x) _ h in
      let x' = (fresh_savepoint db "sqlite_merge_branch_" x).0 in
      let (u, saved, rest) = continue_with-result (db.savepoint name x') _ opened in
      let x'' = (db.savepoint name x').0 in
      let (issue, told, end) =
        continue_with-result (statements_issue db context t.branch name t.statements x'') _ rest in
      let (clear, finished) = passed issue _ _ end in
      statements_issue-none t.statements t.branch t.branch name x'' (told ∙ ap (λ i. ok i) clear)

  settled-safe :
      (prompt : Prompt db context) (branch : BranchName) (current : LoggedTransaction)
      (issue : Issue) (again : LoggedTransaction → M db.State Resolution) (x : db.State)
      {t : LoggedTransaction}
      → (issue ≡ none → unresolved_replay_safety_conflict current ≡ none)
      → ((next : LoggedTransaction) (y : db.State)
          → (again next y).1 ≡ ok (replayed t)
          → unresolved_replay_safety_conflict t ≡ none)
      → (settle_issue db context prompt branch current issue again x).1 ≡ ok (replayed t)
      → unresolved_replay_safety_conflict t ≡ none
  settled-safe prompt branch current none again x {t} safe later h =
      let same : current ≡ t = cc in rw (← same) (safe refl)
  settled-safe prompt branch current (some issue) again x {t} safe later h =
      let (statements, asked, rest) =
        continue_with-result
          (prompt.ask (standalone_head_conflict issue.conflict branch) current
            (has_warning db context issue) x)
          _ h in
      answered statements _ rest
    where
      answered :
          (statements : List LoggedStatement) (y : db.State)
          → (dropped_or_again db context statements
              (λ replacement. again (
                transaction_with_statements current
                  (accept_warning db context prompt issue replacement)))
              y).1
            ≡ ok (replayed t)
          → unresolved_replay_safety_conflict t ≡ none
      answered [] y g = cc
      answered (s ∷ statements) y g = later _ y g

  resolve_branch_transaction-safe :
      (prompt : Prompt db context) (branch : BranchName) (fuel : ℕ) (current t : LoggedTransaction)
      (x : db.State)
      → (resolve_branch_transaction db context prompt branch fuel current x).1 ≡ ok (replayed t)
      → unresolved_replay_safety_conflict t ≡ none
  unfolding resolve_branch_transaction
  resolve_branch_transaction-safe prompt branch zero current t x h = cc
  resolve_branch_transaction-safe prompt branch (suc fuel) current t x h =
      let (issue, told, rest) =
        continue_with-result (branch_transaction_replay_issue db context current x) _ h in
      settled-safe prompt branch current issue
        (resolve_branch_transaction db context prompt branch fuel) _
        (λ e. branch_transaction_replay_issue-none current x (told ∙ ap (λ i. ok i) e))
        (λ next y g. resolve_branch_transaction-safe prompt branch fuel next t y g) rest

  -- Where the check of a branch returns transactions, they are safe for the merge: no statement
  -- of theirs has a reason left that blocks its replay, whatever the user answered and SQLite
  -- did.
  pub resolve_branch_replay_safety-AllSafe :
      (prompt : Prompt db context) (branch : BranchName) (fuel : ℕ)
      (transactions ts : List LoggedTransaction) (x : db.State)
      → (resolve_branch_replay_safety db context prompt branch fuel transactions x).1 ≡ ok (some ts)
      → AllSafe ts
  unfolding resolve_branch_replay_safety
  resolve_branch_replay_safety-AllSafe prompt branch fuel [] [] x h = tt
  resolve_branch_replay_safety-AllSafe prompt branch fuel [] (t ∷ ts) x h = cc
  resolve_branch_replay_safety-AllSafe prompt branch fuel (first ∷ transactions) ts x h =
      let first_run = resolve_branch_transaction db context prompt branch fuel first x in
      let (resolution, resolved, rest) = continue_with-result first_run _ h in
      let rest_run =
        resolve_branch_replay_safety db context prompt branch fuel transactions first_run.0 in
      let (found, listed, end) = continue_with-result rest_run _ rest in
      joined ts resolution found rest_run.0
        (λ t e.
          resolve_branch_transaction-safe prompt branch fuel first t x
            (resolved ∙ ap (λ r. ok r) e))
        (λ us e.
          resolve_branch_replay_safety-AllSafe prompt branch fuel transactions us first_run.0
            (listed ∙ ap (λ r. ok r) e))
        end
    where
      joined :
          (ts : List LoggedTransaction) (resolution : Resolution)
          (found : Option (List LoggedTransaction)) (y : db.State)
          → ((t : LoggedTransaction)
              → resolution ≡ replayed t
              → unresolved_replay_safety_conflict t ≡ none)
          → ((us : List LoggedTransaction) → found ≡ some us → AllSafe us)
          → (pure {S = db.State} (kept_first resolution found) y).1 ≡ ok (some ts)
          → AllSafe ts
      joined ts out_of_fuel found y one rest e = cc
      joined ts dropped found y one rest e = rest ts cc
      joined ts (replayed t) none y one rest e = cc
      joined [] (replayed t) (some us) y one rest e = cc
      joined (u ∷ ts) (replayed t) (some us) y one rest e =
          let same : t ≡ u = cc in
          let others : us ≡ ts = cc in (rw (← same) (one t refl), rw (← others) (rest us refl))
