-- ===== src/Mergetool/Turn.antt =====
-- src/merge/terminal_mergetool.py: a turn of one branch.
use sqlite_reconcile.Prelude.{
  ℕ, zero, suc, Option, none, some, List, [], ◌∷◌, ◌++◌, if◌then◌else◌, nat_eq, string_eq, list_eq,
}
use sqlite_reconcile.Schema.{ConflictCheckContext}
use sqlite_reconcile.Models.{
  BranchName, opposite, ConflictPair, LoggedTransaction, StatementConflict,
}
use sqlite_reconcile.Models.Keys.{key_eq}
use sqlite_reconcile.Remaining.Index.{remove_transaction}
use sqlite_reconcile.Mergetool.State.{
  Environment, Queues, queue_of, index_of, with_queue, is_current_standalone_replay,
  standalone_head_conflict, unresolved_replay_safety_conflict,
}
use sqlite_reconcile.Mergetool.Scanning.{ConflictScan, open_scan, scan_next, close_scan}
use sqlite_reconcile.Mergetool.Resolution.{
  TurnState, Round, again, finished, crashed, resolve_standalone, resolve_pair,
}

module _ (x : Environment) (context : ConflictCheckContext) where
  open x use {scanner, apply_accepted_transaction, prompt_standalone, prompt_pair}

  -- The conflict of this round: the one that an acceptance left, or the next one of the scan.
  unfoldable pub round_conflict :
      ConflictScan x context
      → List LoggedTransaction
      → TurnState x context
      → scanner.State × ConflictScan x context × Option ConflictPair
  unfolding scan_next
  round_conflict scan remaining_other s = elim s.followup [
    | some conflict ↦ (s.world, scan, some conflict)
    | none ↦ scan_next x context s.world scan remaining_other
  ]

  unfoldable pub after_apply :
      BranchName
      → LoggedTransaction
      → List LoggedTransaction
      → TurnState x context
      → Option StatementConflict
      → Round x context
  unfolding resolve_standalone standalone_head_conflict remove_transaction
  after_apply branch current rest s (some error) =
      resolve_standalone x context branch (standalone_head_conflict error branch) current s
  after_apply branch current rest s none =
      finished
        (with_queue branch rest (remove_transaction context (index_of branch s.queues) current)
          (record (s.queues) { merged = s.queues.merged ++ current ∷ [] }))
        s.world

  -- No conflict is left: the head is applied, and taken off its queue if that works.
  unfoldable pub accept_head :
      BranchName
      → LoggedTransaction
      → List LoggedTransaction
      → TurnState x context
      → Round x context
  unfolding after_apply
  accept_head branch current rest s =
      let (world', replay_error) = apply_accepted_transaction s.world current in
      after_apply branch current rest (record s { world = world' }) replay_error

  -- The scan is closed behind a standalone resolution, whichever way that went.
  unfoldable pub close_after : ConflictScan x context → Round x context → Round x context
  unfolding close_scan
  close_after scan (again s) =
      again (record s { world = close_scan x context s.world (some scan); scan = none })
  close_after scan (finished q world) = finished q (close_scan x context world (some scan))
  close_after scan crashed = crashed

  -- What a round does with the conflict that it found, or with none.
  unfoldable pub scan_found :
      BranchName
      → LoggedTransaction
      → List LoggedTransaction
      → ConflictScan x context
      → TurnState x context
      → Option ConflictPair
      → Round x context
  unfolding is_current_standalone_replay resolve_standalone close_scan close_after resolve_pair
      accept_head
  scan_found branch current rest scan s none =
      accept_head branch current rest
        (record s { world = close_scan x context s.world (some scan); scan = none })
  scan_found branch current rest scan s (some c) =
      if is_current_standalone_replay c branch
      then close_after scan (resolve_standalone x context branch c current s)
      else resolve_pair x context branch c scan s

  -- A round with a scan at hand.
  unfoldable pub scan_round :
      BranchName
      → LoggedTransaction
      → List LoggedTransaction
      → ConflictScan x context
      → TurnState x context
      → Round x context
  unfolding round_conflict scan_found
  scan_round branch current rest scan s =
      let (world', scan', conflict) = round_conflict scan (queue_of (opposite branch) s.queues) s in
      scan_found branch current rest scan'
        (record s { world = world'; scan = some scan'; followup = none }) conflict

  -- A round whose head has statements that are safe to replay.
  unfoldable pub safe_round :
      BranchName
      → LoggedTransaction
      → List LoggedTransaction
      → TurnState x context
      → Option (ConflictScan x context)
      → Round x context
  unfolding open_scan scan_round
  safe_round branch current rest s (some scan) = scan_round branch current rest scan s
  safe_round branch current rest s none =
      scan_round branch current rest
        (open_scan x context s.world current branch (index_of (opposite branch) s.queues)
          s.accepted_pair_keys)
        s

  unfoldable pub head_round :
      BranchName
      → LoggedTransaction
      → List LoggedTransaction
      → TurnState x context
      → Option StatementConflict
      → Round x context
  unfolding resolve_standalone standalone_head_conflict close_scan safe_round
  head_round branch current rest s (some safety) =
      resolve_standalone x context branch (standalone_head_conflict safety branch) current
        (record s { world = close_scan x context s.world s.scan; scan = none })
  head_round branch current rest s none = safe_round branch current rest s s.scan

  unfoldable pub queue_round :
      BranchName → List LoggedTransaction → TurnState x context → Round x context
  unfolding unresolved_replay_safety_conflict head_round
  queue_round branch [] s = finished s.queues s.world
  queue_round branch (current ∷ rest) s =
      head_round branch current rest s (unresolved_replay_safety_conflict current)

  -- One round of `while current_queue`.
  unfoldable pub turn_round : BranchName → TurnState x context → Round x context
  unfolding queue_round
  turn_round branch s = queue_round branch (queue_of branch s.queues) s

  -- `_check_accept_current` on fuel: the user may go on editing for ever.
  unfoldable pub turn_loop : ℕ → BranchName → TurnState x context → Round x context
  unfolding turn_round
  turn_loop zero branch s = again s
  turn_loop (suc fuel) branch s = elim (turn_round branch s) [
    | again s' ↦ turn_loop fuel branch s'
    | finished q world ↦ finished q world
    | crashed ↦ crashed
  ]

  unfoldable pub check_accept_current : ℕ → BranchName → Queues → scanner.State → Round x context
  unfolding turn_loop
  check_accept_current fuel branch q world =
      turn_loop fuel branch (record {
        queues = q;
        world = world;
        scan = none;
        accepted_pair_keys = [];
        followup = none;
      })
