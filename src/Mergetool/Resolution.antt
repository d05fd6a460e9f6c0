-- ===== src/Mergetool/Resolution.antt =====
-- src/merge/terminal_mergetool.py: what the user's decisions do to a turn.
use mathlib.Core.Option
use sqlite_reconcile.Prelude.{
  ℕ, Bool, true, false, Option, none, some, List, if◌then◌else◌, get_elem?, nonempty, nat_eq,
  string_eq, set_add, list_eq,
}
use sqlite_reconcile.Schema.{ConflictCheckContext}
use sqlite_reconcile.Models.{
  BranchName, ours, theirs, opposite, ConflictPair, LoggedTransaction, ConflictResolutionKey,
  index_for_branch, LoggedStatement,
}
use sqlite_reconcile.Models.Keys.{key_eq}
use sqlite_reconcile.Mergetool.State.{
  Environment, PairResolution, accept, replace, Queues, queue_of, index_of,
  replace_or_delete_transaction, transaction_with_statements, is_reviewable_pair_conflict,
  PairSideOutcome, unchanged, edited, deleted, pair_side_outcome,
}
use sqlite_reconcile.Mergetool.Scanning.{ConflictScan, scan_accept, scan_enable, close_scan}

module _ (x : Environment) (context : ConflictCheckContext) where
  open x use {scanner, apply_accepted_transaction, prompt_standalone, prompt_pair}

  -- The state of a turn; `world` is the working database with the open savepoints.
  pub record TurnState : Type 0 where
    pub queues : Queues
    pub world : scanner.State
    pub scan : Option (ConflictScan x context)
    pub accepted_pair_keys : List ConflictResolutionKey
    pub followup : Option ConflictPair

  -- After one round the turn goes on, returns, or has raised.
  pub data Round : Type 0 where
    again : TurnState → Round
    finished : Queues → scanner.State → Round
    crashed : Round

  -- A removed head ends the turn; the flag says whether statements are left.
  unfoldable pub settle_standalone : Bool → scanner.State → TurnState → Option Queues → Round
  settle_standalone kept world s none = crashed
  settle_standalone true world s (some q) = again (record s { queues = q; world = world })
  settle_standalone false world s (some q) = finished q world

  abbrev pub replacement_of : LoggedTransaction → List LoggedStatement → Option LoggedTransaction
  replacement_of target statements =
      if nonempty statements then some (transaction_with_statements target statements) else none

  -- `_resolve_standalone_replay` and what the turn does with its outcome.
  unfoldable pub resolve_standalone :
      BranchName → ConflictPair → LoggedTransaction → TurnState → Round
  unfolding replace_or_delete_transaction transaction_with_statements settle_standalone
  resolve_standalone branch conflict target s =
      let (world', statements) = prompt_standalone s.world conflict target in
      settle_standalone (nonempty statements) world' s
        (replace_or_delete_transaction context branch 0 (replacement_of target statements) s.queues)

  -- One side of `_resolve_remaining_pair_conflict`: nothing, or the change at the pair's index.
  unfoldable pub replace_side :
      BranchName → Bool → Option ℕ → Option LoggedTransaction → Option Queues → Option Queues
  unfolding replace_or_delete_transaction
  replace_side branch changed i replacement none = none
  replace_side branch false i replacement (some q) = some q
  replace_side branch true none replacement (some q) = none
  replace_side branch true (some i) replacement (some q) =
      replace_or_delete_transaction context branch i replacement q

  -- The two replacements, ours first.
  unfoldable pub replace_pair :
      ConflictPair
      → Bool
      → Option LoggedTransaction
      → Bool
      → Option LoggedTransaction
      → Queues
      → Option Queues
  unfolding replace_side index_for_branch
  replace_pair conflict changed_ours o changed_theirs t q =
      replace_side theirs changed_theirs (index_for_branch conflict theirs) t
        (replace_side ours changed_ours (index_for_branch conflict ours) o (some q))

  unfoldable pub after_enable : TurnState → Option (scanner.State × ConflictScan x context) → Round
  after_enable s none = crashed
  after_enable s (some (world', scan')) = again (record s { world = world'; scan = some scan' })

  -- What the turn does after a resolved pair, by the outcomes for both sides.
  unfoldable pub after_pair :
      BranchName → ConflictScan x context → PairSideOutcome → PairSideOutcome → TurnState → Round
  unfolding close_scan scan_enable after_enable
  after_pair branch scan deleted other s =
      finished s.queues (close_scan x context s.world (some scan))
  after_pair branch scan edited other s =
      again (record s { world = close_scan x context s.world (some scan); scan = none })
  after_pair branch scan unchanged edited s =
      after_enable s (scan_enable x context s.world scan (index_of (opposite branch) s.queues))
  after_pair branch scan unchanged unchanged s = again s
  after_pair branch scan unchanged deleted s = again s

  abbrev pub side_of : BranchName → PairSideOutcome → PairSideOutcome → PairSideOutcome
  side_of ours o t = o
  side_of theirs o t = t

  -- `accepted_pair_keys.add(conflict.resolution_key)`, if there is one
  abbrev pub add_key :
      Option ConflictResolutionKey → List ConflictResolutionKey → List ConflictResolutionKey
  add_key none keys = keys
  add_key (some key) keys = set_add keys key

  unfoldable pub after_accept :
      ConflictPair
      → TurnState
      → Option (scanner.State × ConflictScan x context × Option ConflictPair)
      → Round
  after_accept conflict s none = crashed
  after_accept conflict s (some (world', scan', followup')) = again (record s {
    world = world';
    scan = some scan';
    accepted_pair_keys = add_key conflict.resolution_key s.accepted_pair_keys;
    followup = followup';
  })

  unfoldable pub after_replace :
      BranchName
      → ConflictScan x context
      → PairSideOutcome
      → PairSideOutcome
      → scanner.State
      → TurnState
      → Option Queues
      → Round
  unfolding after_pair
  after_replace branch scan o t world s none = crashed
  after_replace branch scan o t world s (some q) =
      after_pair branch scan (side_of branch o t) (side_of (opposite branch) o t)
        (record s { queues = q; world = world })

  -- What the user decided for a pair, and how the turn goes on.
  unfoldable pub resolve_choice :
      BranchName
      → ConflictPair
      → ConflictScan x context
      → TurnState
      → scanner.State
      → PairResolution
      → Round
  unfolding replace_pair after_replace after_accept pair_side_outcome scan_accept
  resolve_choice branch conflict scan s world accept =
      after_accept conflict s
        (scan_accept x context world scan conflict (queue_of (opposite branch) s.queues))
  resolve_choice branch conflict scan s world (replace changed_ours o changed_theirs t) =
      after_replace branch scan (pair_side_outcome changed_ours o)
        (pair_side_outcome changed_theirs t) world s
        (replace_pair conflict changed_ours o changed_theirs t s.queues)

  -- `queue[conflict.index_for_branch(branch)]`; `none` is a `ValueError` or an `IndexError`.
  unfoldable pub pair_transaction : ConflictPair → BranchName → Queues → Option LoggedTransaction
  unfolding index_for_branch
  pair_transaction conflict branch q =
      Option.bind (index_for_branch conflict branch) (get_elem? (queue_of branch q))

  -- The branch of a turn that met a pair conflict: the prompt, and what follows from the answer.
  unfoldable pub prompt_for :
      BranchName
      → ConflictPair
      → ConflictScan x context
      → TurnState
      → Option LoggedTransaction
      → Option LoggedTransaction
      → Round
  unfolding resolve_choice is_reviewable_pair_conflict
  prompt_for branch conflict scan s (some o) (some t) =
      let (world, resolution) =
        prompt_pair s.world conflict o t (is_reviewable_pair_conflict conflict) in
      resolve_choice branch conflict scan s world resolution
  prompt_for branch conflict scan s none t = crashed
  prompt_for branch conflict scan s (some o) none = crashed

  unfoldable pub resolve_pair :
      BranchName → ConflictPair → ConflictScan x context → TurnState → Round
  unfolding pair_transaction prompt_for
  resolve_pair branch conflict scan s =
      prompt_for branch conflict scan s (pair_transaction conflict ours s.queues)
        (pair_transaction conflict theirs s.queues)
