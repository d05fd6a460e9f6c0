-- ===== src/Mergetool/Loop.antt =====
-- src/merge/terminal_mergetool.py: the main loop of `_resolve_merge_transactions`.
use sqlite_reconcile.Prelude.{
  ℕ, zero, suc, ◌+◌, ◌||◌, List, [], if◌then◌else◌, length, nonempty, nat_eq, string_eq, list_eq,
}
use sqlite_reconcile.Schema.{ConflictCheckContext}
use sqlite_reconcile.Models.{ours, theirs, LoggedTransaction}
use sqlite_reconcile.Remaining.Index.{from_transactions}
use sqlite_reconcile.Mergetool.State.{Environment, Queues}
use sqlite_reconcile.Mergetool.Resolution.{Round, again, finished, crashed}
use sqlite_reconcile.Mergetool.Turn.{check_accept_current}

-- Why a run of the loop stopped.
pub data MergeEnd (A : Type 0) : Type 0 where
  resolved : Queues → A → MergeEnd A
  raised : MergeEnd A
  out_of_fuel : MergeEnd A

module _ (x : Environment) (context : ConflictCheckContext) where
  open x use {scanner}

  unfoldable pub second_turn : ℕ → Round x context → Round x context
  unfolding check_accept_current
  second_turn fuel (again s) = again s
  second_turn fuel (finished q world) = check_accept_current x context fuel theirs q world
  second_turn fuel crashed = crashed

  -- `for branch in ("ours", "theirs")`: the second turn starts where the first one ended.
  unfoldable pub both_turns : ℕ → Queues → scanner.State → Round x context
  unfolding check_accept_current second_turn
  both_turns fuel q world = second_turn fuel (check_accept_current x context fuel ours q world)

  -- `while remaining_ours or remaining_theirs`, with `fuel` for the rounds of each turn.
  unfoldable pub merge_loop : ℕ → ℕ → Queues → scanner.State → MergeEnd (scanner.State)
  unfolding both_turns
  merge_loop fuel zero q world =
      if nonempty q.remaining_ours || nonempty q.remaining_theirs
      then out_of_fuel
      else resolved q world
  merge_loop fuel (suc rounds) q world =
      let next : MergeEnd (scanner.State) = (elim (both_turns fuel q world) [
        | again s ↦ out_of_fuel
        | finished q' world' ↦ merge_loop fuel rounds q' world'
        | crashed ↦ raised
      ]) in
      if nonempty q.remaining_ours || nonempty q.remaining_theirs then next else resolved q world

  abbrev pub initial_queues : List LoggedTransaction → List LoggedTransaction → Queues
  initial_queues o t = record {
    remaining_ours = o;
    remaining_theirs = t;
    ours_index = from_transactions context o;
    theirs_index = from_transactions context t;
    merged = [];
  }

  -- One round for each transaction of the two logs.
  unfoldable pub resolve_merge_transactions :
      ℕ → List LoggedTransaction → List LoggedTransaction → scanner.State → MergeEnd (scanner.State)
  unfolding merge_loop from_transactions
  resolve_merge_transactions fuel o t world =
      merge_loop fuel (length o + length t) (initial_queues o t) world
