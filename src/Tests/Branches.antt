-- ===== src/Tests/Branches.antt =====
-- The check of a branch whose first transaction fails until the user gives another statement for it.
use mathlib.Core.List.{flat_map}
use sqlite_reconcile.Mergetool.Quiet.{AllSafe}
use sqlite_reconcile.BranchSafety.Rounds.{replaying, resolve_branch_replay_safety-dropped}
use sqlite_reconcile.BranchSafety.Settled.{Outcome, Closed, branch_transaction_replay_issue-Outcome}
use sqlite_reconcile.Prelude.{◌≡◌, refl, false, some, [], ◌∷◌, flat_map, string_eq, nat_eq, list_eq}
use sqlite_reconcile.Effects.{M, pure, ◌>>=◌, ok}
use sqlite_reconcile.Models.{conflict_kind_eq, LoggedTransaction, ours}
use sqlite_reconcile.BranchSafety.{
  branch_transaction_replay_issue, resolve_branch_replay_safety, Prompt,
}
use sqlite_reconcile.Mergetool.State.{transaction_with_statements}
use sqlite_reconcile.BranchSafety.Safe.{resolve_branch_replay_safety-AllSafe}
use sqlite_reconcile.Tests.Data.{update_a, statement, our_head}
use sqlite_reconcile.Tests.Replays.{
  store, store_laws, replay_context, failing, began, plain_all, Store,
}

abbrev prompt : Prompt store replay_context
prompt = record {
  ask = λ conflict t allow_accept s. (s, ok (statement ours 1 update_a ∷ []));
  is_same_object = λ s t. false;
}

abbrev repaired : LoggedTransaction
repaired = transaction_with_statements failing (statement ours 1 update_a ∷ [])

resolved_test :
    (resolve_branch_replay_safety store replay_context prompt ours 2
      (failing ∷ our_head ∷ [])
      began).1
    ≡ ok (some (repaired ∷ our_head ∷ []))
unfolding resolve_branch_replay_safety
resolved_test = refl

resolve_branch_replay_safety-AllSafe_example : AllSafe (repaired ∷ our_head ∷ [])
resolve_branch_replay_safety-AllSafe_example =
    resolve_branch_replay_safety-AllSafe store replay_context prompt ours 2
      (failing ∷ our_head ∷ []) (repaired ∷ our_head ∷ []) began resolved_test

-- The user drops what does not replay.
abbrev dropping : Prompt store replay_context
dropping = record { ask = λ conflict t allow_accept s. (s, ok []); is_same_object = λ s t. false }

kept_test :
    replaying store replay_context (failing ∷ our_head ∷ []) began
    ≡ (record began { ran = "before" ∷ "sql" ∷ [] }, ok (our_head ∷ []))
unfolding replaying
kept_test = refl

resolve_branch_replay_safety-dropped_example :
    resolve_branch_replay_safety store replay_context dropping ours 1
      (failing ∷ our_head ∷ [])
      began
    ≡ (replaying store replay_context (failing ∷ our_head ∷ []) >>= λ ts. pure (some ts)) began
resolve_branch_replay_safety-dropped_example =
    resolve_branch_replay_safety-dropped store replay_context dropping ours 0
      (failing ∷ our_head ∷ []) began (λ pair t allow_accept x. refl)

abbrev load_copy : M Store (Unit {0})
load_copy s = (record { ran = []; saves = [] }, ok tt)

branch_transaction_replay_issue-Outcome_example :
    Outcome store store_laws replay_context [] (Closed store store_laws replay_context) (
      branch_transaction_replay_issue store replay_context failing
        (record { ran = []; saves = [] }))
branch_transaction_replay_issue-Outcome_example =
    branch_transaction_replay_issue-Outcome store store_laws replay_context failing
      (record { ran = []; saves = [] }) (plain_all _, (plain_all _, tt)) refl
