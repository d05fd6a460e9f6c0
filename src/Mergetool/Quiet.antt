-- ===== src/Mergetool/Quiet.antt =====
-- A merge in which nothing conflicts: it ends, and merges the two logs in turns.
use sqlite_reconcile.Mergetool.Keeps.{pop_head}
use sqlite_reconcile.Prelude.{◌≡◌, Option, none, List, [], ◌∷◌, string_eq, nat_eq, list_eq}
use sqlite_reconcile.Models.{conflict_kind_eq, BranchName, LoggedTransaction, ConflictPair}
use sqlite_reconcile.Schema.{ConflictCheckContext}
use sqlite_reconcile.Scan.Quiet.{Each, Fits, Independent, IsQuiet}
use sqlite_reconcile.Mergetool.State.{unresolved_replay_safety_conflict, Environment, Queues}
use sqlite_reconcile.Mergetool.Scanning.{ConflictScan}
use sqlite_reconcile.Mergetool.Resolution.{Round, finished}
use sqlite_reconcile.Mergetool.Loop.{MergeEnd, resolved}

-- The two logs in turns, ours first.
pub interleave : List LoggedTransaction → List LoggedTransaction → List LoggedTransaction
interleave [] ts = ts
interleave (o ∷ os) [] = o ∷ os
interleave (o ∷ os) (t ∷ ts) = o ∷ t ∷ interleave os ts

-- Every transaction has only statements that may be replayed as they stand.
abbrev pub AllSafe : List LoggedTransaction → Type 0
AllSafe [] = Unit
AllSafe (t ∷ ts) = unresolved_replay_safety_conflict t ≡ none × AllSafe ts

-- The scanner finds nothing of its own, every own transaction replays, and the world stays good.
pub record IsSmooth (x : Environment) (Good : x.scanner.State → Type 0)
    (Own : LoggedTransaction → Type 0) : Type 0 where
  pub scanner_quiet : IsQuiet x.scanner Good Own
  pub apply_accepts :
      (world : x.scanner.State) (t : LoggedTransaction)
      → Good world
      → Own t
      → ((x.apply_accepted_transaction world t).1 ≡ none)
        × Good (x.apply_accepted_transaction world t).0
  pub close_good : (world : x.scanner.State) → Good world → Good (x.scanner.close world)

-- No transaction of ours depends on one of theirs, as far as the static analysis sees.
abbrev pub AllIndependent :
    ConflictCheckContext → List LoggedTransaction → List LoggedTransaction → Type 0
AllIndependent context o t = Each (λ a. Each (λ b. Independent context a b) t) o

module _ (x : Environment) (context : ConflictCheckContext) where
  -- The run is resolved, and has merged these transactions.
  abbrev pub Merges : List LoggedTransaction → MergeEnd (x.scanner.State) → Type 0
  Merges ts e = (q : Queues) × (world : x.scanner.State) × e ≡ resolved q world × q.merged ≡ ts

module _ (x : Environment) (context : ConflictCheckContext) (Good : x.scanner.State → Type 0)
    (Own : LoggedTransaction → Type 0) (smooth : IsSmooth x Good Own) where
  open x use {scanner}

  -- The queues after a turn in which nothing conflicts.
  abbrev pop_next : BranchName → List LoggedTransaction → Queues → Queues
  pop_next branch [] q = q
  pop_next branch (current ∷ rest) q = pop_head context branch current rest q

  abbrev AllFit : BranchName → LoggedTransaction → List LoggedTransaction → Type 0
  AllFit branch current others = Each (Fits scanner context Good Own branch current) others

  -- The scan reports nothing, and the world is good behind it.
  abbrev Silent : scanner.State × ConflictScan x context × Option ConflictPair → Type 0
  Silent r = (r.2 ≡ none) × Good r.0

  -- The round ends the turn with these queues, and the world is good.
  abbrev pub EndsTurn : Queues → Round x context → Type 0
  EndsTurn q r = (world : scanner.State) × (r ≡ finished q world) × Good world

  -- What a turn of a branch with this queue needs of the queue of the other one.
  abbrev Ready : BranchName → List LoggedTransaction → List LoggedTransaction → Type 0
  Ready branch [] others = Unit
  Ready branch (current ∷ rest) others =
      (unresolved_replay_safety_conflict current ≡ none)
      × Own current
      × AllFit branch current others

  -- What is left behind a turn of ours.
  abbrev rest_of : List LoggedTransaction → List LoggedTransaction
  rest_of [] = []
  rest_of (current ∷ rest) = rest

  -- Two logs that may be merged as they stand.
  abbrev pub Mergeable : List LoggedTransaction → List LoggedTransaction → Type 0
  Mergeable o t = AllSafe o × AllSafe t × Each Own o × Each Own t × AllIndependent context o t
