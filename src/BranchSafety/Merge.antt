-- ===== src/BranchSafety/Merge.antt =====
-- src/merge/terminal_mergetool.py: `_resolve_merge_transactions`, the check of both branches and
-- the merge of what it leaves.
use sqlite_reconcile.Mergetool.Loop.{MergeEnd, raised, out_of_fuel, resolve_merge_transactions}
use sqlite_reconcile.Effects.{M, pure, ◌>>=◌, ◌>>◌, Result, ok, raised as failed}
use sqlite_reconcile.Schema.{ConflictCheckContext}
use sqlite_reconcile.Prelude.{ℕ, Option, none, some, List, string_eq, nat_eq, list_eq}
use sqlite_reconcile.Models.{conflict_kind_eq, LoggedTransaction, ours, theirs}
use sqlite_reconcile.Database.{Database}
use sqlite_reconcile.Replay.{ReplayContext}
use sqlite_reconcile.BranchSafety.{resolve_branch_replay_safety, out_of_fuel, Prompt}
use sqlite_reconcile.Mergetool.State.{Environment}

abbrev pub Checked : Type 0
Checked = List LoggedTransaction × List LoggedTransaction

abbrev pub both_checked :
    Option (List LoggedTransaction) → Option (List LoggedTransaction) → Option Checked
both_checked none t = none
both_checked (some o) none = none
both_checked (some o) (some t) = some (o, t)

module _ (db : Database) (replay : ReplayContext) (prompt : Prompt db replay)
    (load_working_base_copy : M db.State (Unit {0})) where
  -- Each branch starts from a fresh copy of the base.
  unfoldable pub check_branches :
      ℕ → List LoggedTransaction → List LoggedTransaction → M db.State (Option Checked)
  unfolding resolve_branch_replay_safety
  check_branches fuel o t = do
    load_working_base_copy
    ours_checked ← resolve_branch_replay_safety db replay prompt ours fuel o
    load_working_base_copy
    theirs_checked ← resolve_branch_replay_safety db replay prompt theirs fuel t
    pure (both_checked ours_checked theirs_checked)

  module _ (x : Environment) (context : ConflictCheckContext) where
    open x use {scanner}

    abbrev pub merge_checked :
        ℕ → Result (Option Checked) → scanner.State → MergeEnd (scanner.State)
    merge_checked fuel (ok (some (o, t))) world =
        resolve_merge_transactions x context fuel o t world
    merge_checked fuel (ok none) world = out_of_fuel
    merge_checked fuel (failed e) world = raised

    -- The check of both branches, then the loop over what they left.
    unfoldable pub check_and_merge :
        ℕ
        → List LoggedTransaction
        → List LoggedTransaction
        → db.State
        → scanner.State
        → MergeEnd (scanner.State)
    unfolding check_branches resolve_merge_transactions
    check_and_merge fuel o t s world = merge_checked fuel (check_branches fuel o t s).1 world
