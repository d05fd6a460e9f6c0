-- ===== src/Mergetool/Runs.antt =====
-- What every change of the queues keeps, whole turns and the main loop keep.
use sqlite_reconcile.Prelude.{
  ℕ, zero, suc, inl, inr, ◌||◌, arith, if◌then◌else◌, Bool-cases, nonempty, nat_eq, string_eq,
  list_eq,
}
use sqlite_reconcile.Schema.{ConflictCheckContext}
use sqlite_reconcile.Models.{BranchName, ours, theirs}
use sqlite_reconcile.Mergetool.State.{Environment, Queues}
use sqlite_reconcile.Mergetool.Resolution.{Round, again, finished, crashed}
use sqlite_reconcile.Mergetool.Turn.{check_accept_current}
use sqlite_reconcile.Mergetool.Loop.{
  second_turn, MergeEnd, resolved, raised, out_of_fuel, both_turns, merge_loop,
}
use sqlite_reconcile.Mergetool.Keeps.{IsKept, Holds, Ends, turn_loop-Holds}

module _ (x : Environment) (context : ConflictCheckContext) (P : Queues → Type 0)
    (kept : IsKept context P) where
  open x use {scanner, prompt_standalone, prompt_pair, apply_accepted_transaction}

  -- A whole turn keeps what its changes of the queues keep.
  check_accept_current-Holds :
      (fuel : ℕ) (branch : BranchName) (q : Queues) (world : scanner.State)
      → P q
      → Holds x context P (check_accept_current x context fuel branch q world)
  unfolding check_accept_current
  check_accept_current-Holds fuel branch q world p =
      turn_loop-Holds x context P kept fuel branch _ p

  pub both_turns-Holds :
      (fuel : ℕ) (q : Queues) (world : scanner.State)
      → P q
      → Holds x context P (both_turns x context fuel q world)
  unfolding both_turns second_turn
  both_turns-Holds fuel q world p = next _ (check_accept_current-Holds fuel ours q world p)
    where
      next :
          (r : Round x context)
          → Holds x context P r
          → Holds x context P (second_turn x context fuel r)
      next (again s) h = h
      next (finished q' world') h = check_accept_current-Holds fuel theirs q' world' h
      next crashed h = tt

  Ends-if :
      (q : Queues) (world : scanner.State) (e : MergeEnd (scanner.State))
      → P q
      → Ends x context P e
      → Ends x context P
          (if nonempty q.remaining_ours || nonempty q.remaining_theirs then e else resolved q world)
  Ends-if q world e p h =
      elim (Bool-cases (nonempty q.remaining_ours || nonempty q.remaining_theirs)) [
        | inl busy ↦ rw busy h
        | inr idle ↦ rw idle (p, ground arith, ground arith)
      ]

  pub merge_loop-Ends :
      (fuel rounds : ℕ) (q : Queues) (world : scanner.State)
      → P q
      → Ends x context P (merge_loop x context fuel rounds q world)
  unfolding merge_loop
  merge_loop-Ends fuel zero q world p = Ends-if q world out_of_fuel p tt
  merge_loop-Ends fuel (suc rounds) q world p = Ends-if q world _ p (
      next (λ q' world' h. merge_loop-Ends fuel rounds q' world' h) _
        (both_turns-Holds fuel q world p))
    where
      next :
          ((q' : Queues) (world' : scanner.State)
            → P q'
            → Ends x context P (merge_loop x context fuel rounds q' world'))
          → (r : Round x context) → Holds x context P r
          → Ends x context P (elim r [
            | again s ↦ out_of_fuel
            | finished q' world' ↦ merge_loop x context fuel rounds q' world'
            | crashed ↦ raised
          ])
      next rest (again s) h = tt
      next rest (finished q' world') h = rest q' world' h
      next rest crashed h = tt
