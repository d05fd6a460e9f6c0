-- ===== src/Mergetool/Keeps.antt =====
-- What every change of the queues keeps, every round and every turn keep.
use sqlite_reconcile.Prelude.{
  ℕ, zero, suc, ◌≡◌, refl, inl, inr, Bool, true, false, Option, none, some, List, [], ◌∷◌, ◌++◌,
  Bool-cases, nonempty, nat_eq, string_eq, list_eq,
}
use sqlite_reconcile.Schema.{ConflictCheckContext}
use sqlite_reconcile.Models.{
  BranchName, ours, theirs, opposite, ConflictPair, LoggedTransaction, index_for_branch,
  StatementConflict,
}
use sqlite_reconcile.Remaining.Index.{remove_transaction}
use sqlite_reconcile.Mergetool.State.{
  Environment, PairResolution, accept, replace, Queues, queue_of, index_of, with_queue,
  replace_or_delete_transaction, is_reviewable_pair_conflict, is_current_standalone_replay,
  PairSideOutcome, unchanged, edited, deleted,
}
use mathlib.Core.Path.{subst}
use sqlite_reconcile.Mergetool.Scanning.{ConflictScan}
use sqlite_reconcile.Mergetool.Resolution.{
  TurnState, Round, again, finished, crashed, settle_standalone, replacement_of, resolve_standalone,
  replace_side, replace_pair, after_enable, after_pair, after_accept, after_replace, resolve_choice,
  prompt_for, resolve_pair,
}
use sqlite_reconcile.Mergetool.Turn.{
  round_conflict, after_apply, accept_head, close_after, scan_found, scan_round, safe_round,
  head_round, queue_round, turn_loop,
}
use sqlite_reconcile.Mergetool.Loop.{MergeEnd, resolved, raised, out_of_fuel}

-- The queues when a head has been applied.
abbrev pub pop_head :
    ConflictCheckContext → BranchName → LoggedTransaction → List LoggedTransaction → Queues → Queues
pop_head context branch current rest q =
    with_queue branch rest (remove_transaction context (index_of branch q) current)
      (record q { merged = q.merged ++ current ∷ [] })

-- A predicate that the two ways of changing the queues keep.
pub record IsKept (context : ConflictCheckContext) (P : Queues → Type 0) : Type 0 where
  pub on_replace :
      (branch : BranchName) (i : ℕ) (replacement : Option LoggedTransaction) (q : Queues)
      {q' : Queues}
      → replace_or_delete_transaction context branch i replacement q ≡ some q'
      → P q
      → P q'
  pub on_pop :
      (branch : BranchName) (current : LoggedTransaction) (rest : List LoggedTransaction)
      (q : Queues)
      → queue_of branch q ≡ current ∷ rest
      → P q
      → P (pop_head context branch current rest q)

module _ (x : Environment) (context : ConflictCheckContext) (P : Queues → Type 0) where
  open x use {scanner}

  -- The queues that a round leaves, whichever way it ends.
  abbrev pub Holds : Round x context → Type 0
  Holds (again s) = P s.queues
  Holds (finished q world) = P q
  Holds crashed = Unit

  -- A run that is resolved leaves two empty queues, and the predicate holds.
  abbrev pub Ends : MergeEnd (scanner.State) → Type 0
  Ends (resolved q world) =
      P q × nonempty q.remaining_ours ≡ false × nonempty q.remaining_theirs ≡ false
  Ends raised = Unit
  Ends out_of_fuel = Unit

module _ (x : Environment) (context : ConflictCheckContext) (P : Queues → Type 0)
    (kept : IsKept context P) where
  open x use {scanner, prompt_standalone, prompt_pair, apply_accepted_transaction}

  settle_standalone-Holds :
      (kept_some : Bool) (world : scanner.State) (s : TurnState x context) (o : Option Queues)
      → ((q : Queues) → o ≡ some q → P q)
      → Holds x context P (settle_standalone x context kept_some world s o)
  unfolding settle_standalone
  settle_standalone-Holds b world s none h = tt
  settle_standalone-Holds true world s (some q) h = h q refl
  settle_standalone-Holds false world s (some q) h = h q refl

  resolve_standalone-Holds :
      (branch : BranchName) (c : ConflictPair) (t : LoggedTransaction) (s : TurnState x context)
      → P s.queues
      → Holds x context P (resolve_standalone x context branch c t s)
  unfolding resolve_standalone
  resolve_standalone-Holds branch c t s p =
      let (world, statements) = prompt_standalone s.world c t in
      settle_standalone-Holds (nonempty statements) world s _
        (λ q e. kept.on_replace branch 0 (replacement_of x context t statements) s.queues e p)

  replace_side-keeps :
      (branch : BranchName) (changed : Bool) (i : Option ℕ) (r : Option LoggedTransaction)
      (o : Option Queues) {q' : Queues}
      → ((q : Queues) → o ≡ some q → P q)
      → replace_side x context branch changed i r o ≡ some q'
      → P q'
  unfolding replace_side
  replace_side-keeps branch changed i r none h e = cc
  replace_side-keeps branch false i r (some q) {q'} h e = h q' e
  replace_side-keeps branch true none r (some q) h e = cc
  replace_side-keeps branch true (some i) r (some q) h e = kept.on_replace branch i r q e (h q refl)

  replace_pair-keeps :
      (c : ConflictPair) (changed_ours : Bool) (o : Option LoggedTransaction)
      (changed_theirs : Bool) (t : Option LoggedTransaction) (q : Queues) {q' : Queues}
      → P q
      → replace_pair x context c changed_ours o changed_theirs t q ≡ some q'
      → P q'
  unfolding replace_pair
  replace_pair-keeps c changed_ours o changed_theirs t q p e =
      replace_side-keeps theirs changed_theirs (index_for_branch c theirs) t _
        (λ q₁ e₁.
          replace_side-keeps ours changed_ours (index_for_branch c ours) o (some q)
            (λ q₀ e₀. held q₀ e₀) e₁)
        e
    where
      held : (q₀ : Queues) → some q ≡ some q₀ → P q₀
      held q₀ e₀ = let same : q ≡ q₀ = cc in subst P same p

  after_enable-Holds :
      (s : TurnState x context) (o : Option (scanner.State × ConflictScan x context))
      → P s.queues
      → Holds x context P (after_enable x context s o)
  unfolding after_enable
  after_enable-Holds s none p = tt
  after_enable-Holds s (some (world, scan)) p = p

  after_pair-Holds :
      (branch : BranchName) (scan : ConflictScan x context) (a b : PairSideOutcome)
      (s : TurnState x context)
      → P s.queues
      → Holds x context P (after_pair x context branch scan a b s)
  unfolding after_pair
  after_pair-Holds branch scan deleted b s p = p
  after_pair-Holds branch scan edited b s p = p
  after_pair-Holds branch scan unchanged edited s p = after_enable-Holds s _ p
  after_pair-Holds branch scan unchanged unchanged s p = p
  after_pair-Holds branch scan unchanged deleted s p = p

  after_accept-Holds :
      (c : ConflictPair) (s : TurnState x context)
      (o : Option (scanner.State × ConflictScan x context × Option ConflictPair))
      → P s.queues
      → Holds x context P (after_accept x context c s o)
  unfolding after_accept
  after_accept-Holds c s none p = tt
  after_accept-Holds c s (some (world, scan, followup)) p = p

  after_replace-Holds :
      (branch : BranchName) (scan : ConflictScan x context) (a b : PairSideOutcome)
      (world : scanner.State) (s : TurnState x context) (o : Option Queues)
      → ((q : Queues) → o ≡ some q → P q)
      → Holds x context P (after_replace x context branch scan a b world s o)
  unfolding after_replace
  after_replace-Holds branch scan a b world s none h = tt
  after_replace-Holds branch scan a b world s (some q) h =
      after_pair-Holds branch scan _ _ (record s { queues = q; world = world }) (h q refl)

  resolve_choice-Holds :
      (branch : BranchName) (c : ConflictPair) (scan : ConflictScan x context)
      (s : TurnState x context) (world : scanner.State) (resolution : PairResolution)
      → P s.queues
      → Holds x context P (resolve_choice x context branch c scan s world resolution)
  unfolding resolve_choice
  resolve_choice-Holds branch c scan s world accept p = after_accept-Holds c s _ p
  resolve_choice-Holds branch c scan s world (replace changed_ours o changed_theirs t) p =
      after_replace-Holds branch scan _ _ world s _
        (λ q e. replace_pair-keeps c changed_ours o changed_theirs t s.queues p e)

  prompt_for-Holds :
      (branch : BranchName) (c : ConflictPair) (scan : ConflictScan x context)
      (s : TurnState x context) (o t : Option LoggedTransaction)
      → P s.queues
      → Holds x context P (prompt_for x context branch c scan s o t)
  unfolding prompt_for
  prompt_for-Holds branch c scan s (some o) (some t) p =
      let (world, resolution) = prompt_pair s.world c o t (is_reviewable_pair_conflict c) in
      resolve_choice-Holds branch c scan s world resolution p
  prompt_for-Holds branch c scan s none t p = tt
  prompt_for-Holds branch c scan s (some o) none p = tt

  module _ (branch : BranchName) (current : LoggedTransaction) (rest : List LoggedTransaction) where
    after_apply-Holds :
        (s : TurnState x context) (o : Option StatementConflict)
        → queue_of branch s.queues ≡ current ∷ rest
        → P s.queues
        → Holds x context P (after_apply x context branch current rest s o)
    unfolding after_apply
    after_apply-Holds s (some error) e p = resolve_standalone-Holds branch _ current s p
    after_apply-Holds s none e p = kept.on_pop branch current rest s.queues e p

    accept_head-Holds :
        (s : TurnState x context)
        → queue_of branch s.queues ≡ current ∷ rest
        → P s.queues
        → Holds x context P (accept_head x context branch current rest s)
    unfolding accept_head
    accept_head-Holds s e p =
        let (world, replay_error) = apply_accepted_transaction s.world current in
        after_apply-Holds (record s { world = world }) replay_error e p

    close_after-Holds :
        (scan : ConflictScan x context) (r : Round x context)
        → Holds x context P r
        → Holds x context P (close_after x context scan r)
    unfolding close_after
    close_after-Holds scan (again s) p = p
    close_after-Holds scan (finished q world) p = p
    close_after-Holds scan crashed p = tt

    scan_found-Holds :
        (scan : ConflictScan x context) (s : TurnState x context) (o : Option ConflictPair)
        → queue_of branch s.queues ≡ current ∷ rest
        → P s.queues
        → Holds x context P (scan_found x context branch current rest scan s o)
    unfolding scan_found resolve_pair
    scan_found-Holds scan s none e p = accept_head-Holds (record s { world = _; scan = none }) e p
    scan_found-Holds scan s (some c) e p =
        elim (Bool-cases (is_current_standalone_replay c branch)) [
          | inl h ↦ rw h (close_after-Holds scan _ (resolve_standalone-Holds branch c current s p))
          | inr h ↦ rw h (prompt_for-Holds branch c scan s _ _ p)
        ]

    scan_round-Holds :
        (scan : ConflictScan x context) (s : TurnState x context)
        → queue_of branch s.queues ≡ current ∷ rest
        → P s.queues
        → Holds x context P (scan_round x context branch current rest scan s)
    unfolding scan_round
    scan_round-Holds scan s e p =
        let (world, scan', conflict) =
          round_conflict x context scan (queue_of (opposite branch) s.queues) s in
        scan_found-Holds scan' (record s { world = world; scan = some scan'; followup = none })
          conflict e p

    safe_round-Holds :
        (s : TurnState x context) (o : Option (ConflictScan x context))
        → queue_of branch s.queues ≡ current ∷ rest
        → P s.queues
        → Holds x context P (safe_round x context branch current rest s o)
    unfolding safe_round
    safe_round-Holds s (some scan) e p = scan_round-Holds scan s e p
    safe_round-Holds s none e p = scan_round-Holds _ s e p

    head_round-Holds :
        (s : TurnState x context) (o : Option StatementConflict)
        → queue_of branch s.queues ≡ current ∷ rest
        → P s.queues
        → Holds x context P (head_round x context branch current rest s o)
    unfolding head_round
    head_round-Holds s (some safety) e p =
        resolve_standalone-Holds branch _ current (record s { world = _; scan = none }) p
    head_round-Holds s none e p = safe_round-Holds s s.scan e p

  queue_round-Holds :
      (branch : BranchName) (queue : List LoggedTransaction) (s : TurnState x context)
      → queue_of branch s.queues ≡ queue
      → P s.queues
      → Holds x context P (queue_round x context branch queue s)
  unfolding queue_round
  queue_round-Holds branch [] s e p = p
  queue_round-Holds branch (current ∷ rest) s e p = head_round-Holds branch current rest s _ e p

  -- The rounds of a turn keep what its changes of the queues keep.
  pub turn_loop-Holds :
      (fuel : ℕ) (branch : BranchName) (s : TurnState x context)
      → P s.queues
      → Holds x context P (turn_loop x context fuel branch s)
  unfolding turn_loop
  turn_loop-Holds zero branch s p = p
  turn_loop-Holds (suc fuel) branch s p =
      next (λ s' h. turn_loop-Holds fuel branch s' h) _
        (queue_round-Holds branch (queue_of branch s.queues) s refl p)
    where
      next :
          ((s' : TurnState x context)
            → P s'.queues
            → Holds x context P (turn_loop x context fuel branch s'))
          → (r : Round x context) → Holds x context P r
          → Holds x context P (elim r [
            | again s' ↦ turn_loop x context fuel branch s'
            | finished q world ↦ finished q world
            | crashed ↦ crashed
          ])
      next rest (again s') h = rest s' h
      next rest (finished q world) h = h
      next rest crashed h = tt
