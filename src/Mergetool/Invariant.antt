-- ===== src/Mergetool/Invariant.antt =====
-- What the merge keeps: the indexes stand for the queues, and nothing is merged that was not queued.
use sqlite_reconcile.Prelude.{
  ℕ, ◌+◌, ◌≤◌, ◌≡◌, ap, inl, inr, Option, none, some, List, [], ◌∷◌, ◌++◌, arith, Option-cases,
  length, get_elem?, delete_at, set, length-append, length-set, length-delete_at, nat_eq, string_eq,
  list_eq,
}
use mathlib.Core.Path.{subst}
use sqlite_reconcile.Schema.{ConflictCheckContext}
use sqlite_reconcile.Models.{BranchName, ours, theirs, LoggedTransaction}
use sqlite_reconcile.Remaining.Index.{RemainingMetadataIndex, add_transaction, remove_transaction}
use sqlite_reconcile.Remaining.Standing.{StandsFor, remove_transaction-StandsFor}
use sqlite_reconcile.Remaining.Queue.{
  StandsFor-delete_at, StandsFor-set, from_transactions-StandsFor,
}
use sqlite_reconcile.Mergetool.State.{
  Environment, Queues, queue_of, index_of, with_queue, replace_or_delete_transaction,
}
use sqlite_reconcile.Mergetool.Loop.{both_turns, initial_queues, resolve_merge_transactions}
use sqlite_reconcile.Mergetool.Keeps.{IsKept, Holds, Ends, pop_head}
use sqlite_reconcile.Mergetool.Runs.{both_turns-Holds, merge_loop-Ends}

module _ (context : ConflictCheckContext) where
  -- The index of each branch stands for the branch's queue.
  abbrev pub InStep : Queues → Type 0
  InStep q = (branch : BranchName) → StandsFor context (index_of branch q) (queue_of branch q)

  with_queue-InStep :
      (branch : BranchName) (queue : List LoggedTransaction) (index : RemainingMetadataIndex)
      (q : Queues)
      → StandsFor context index queue
      → InStep q
      → InStep (with_queue branch queue index q)
  with_queue-InStep ours queue index q r p ours = r
  with_queue-InStep ours queue index q r p theirs = p theirs
  with_queue-InStep theirs queue index q r p ours = p ours
  with_queue-InStep theirs queue index q r p theirs = r

  -- What a replacement that does not raise has done.
  abbrev pub Replaced :
      BranchName → ℕ → LoggedTransaction → Option LoggedTransaction → Queues → Queues
  Replaced branch i old none q =
      with_queue branch (delete_at (queue_of branch q) i)
        (remove_transaction context (index_of branch q) old) q
  Replaced branch i old (some new) q =
      with_queue branch (set (queue_of branch q) i new)
        (add_transaction context (remove_transaction context (index_of branch q) old) new) q

  replace_or_delete_transaction-Replaced :
      (branch : BranchName) (i : ℕ) (replacement : Option LoggedTransaction) (q : Queues)
      {q' : Queues}
      → replace_or_delete_transaction context branch i replacement q ≡ some q'
      → (old : LoggedTransaction) × get_elem? (queue_of branch q) i ≡ some old
        × Replaced branch i old replacement q ≡ q'
  unfolding replace_or_delete_transaction
  replace_or_delete_transaction-Replaced branch i replacement q {q'} e =
      elim (Option-cases (get_elem? (queue_of branch q) i)) [
        | inl absent ↦ let e' = rw (absent, replace_or_delete_transaction) at e in cc
        | inr (old, found) ↦
            (old, found, at_found old replacement (rw (found, replace_or_delete_transaction) at e))
      ]
    where
      at_found :
          (old : LoggedTransaction) (replacement : Option LoggedTransaction)
          → elim (some old) [
            | none ↦ none
            | some old ↦
                let index = remove_transaction context (index_of branch q) old in
                elim replacement [
                  | none ↦ some (with_queue branch (delete_at (queue_of branch q) i) index q)
                  | some new ↦ some (
                      with_queue branch
                        (set (queue_of branch q) i new)
                        (add_transaction context index new)
                        q)
                ]
          ]
            ≡ some q'
          → Replaced branch i old replacement q ≡ q'
      at_found old none e = cc
      at_found old (some new) e = cc

  Replaced-InStep :
      (branch : BranchName) (i : ℕ) (replacement : Option LoggedTransaction) (q : Queues)
      (old : LoggedTransaction)
      → get_elem? (queue_of branch q) i ≡ some old
      → InStep q
      → InStep (Replaced branch i old replacement q)
  Replaced-InStep branch i none q old found p =
      with_queue-InStep branch _ _ q (StandsFor-delete_at context (p branch) i old found) p
  Replaced-InStep branch i (some new) q old found p =
      with_queue-InStep branch _ _ q (StandsFor-set context i old new (p branch) found) p

  merge-InStep :
      (q : Queues) (merged : List LoggedTransaction)
      → InStep q
      → InStep (record q { merged = merged })
  merge-InStep q merged p ours = p ours
  merge-InStep q merged p theirs = p theirs

  pop-InStep :
      (branch : BranchName) (current : LoggedTransaction) (rest : List LoggedTransaction)
      (q : Queues)
      → queue_of branch q ≡ current ∷ rest
      → InStep q
      → InStep (pop_head context branch current rest q)
  pop-InStep branch current rest q e p =
      with_queue-InStep branch _ _ _
        (remove_transaction-StandsFor context (index_of branch q) rest current
          (subst (StandsFor context (index_of branch q)) e (p branch)))
        (merge-InStep q (q.merged ++ current ∷ []) p)

  InStep-IsKept : IsKept context InStep
  InStep-IsKept = record {
    on_replace = λ branch i replacement q e p.
        let (old, found, same) = replace_or_delete_transaction-Replaced branch i replacement q e in
        subst InStep same (Replaced-InStep branch i replacement q old found p);
    on_pop = pop-InStep;
  }

  -- The transactions that are queued or merged.
  abbrev pub transactions_in : Queues → ℕ
  transactions_in q = length q.remaining_ours + length q.remaining_theirs + length q.merged

  -- No more than `n` transactions are queued or merged.
  abbrev pub AtMost : ℕ → Queues → Type 0
  AtMost n q = transactions_in q ≤ n

  transactions_in-with_queue :
      (branch : BranchName) (queue : List LoggedTransaction) (index : RemainingMetadataIndex)
      (q : Queues)
      → transactions_in (with_queue branch queue index q) + length (queue_of branch q)
        ≡ transactions_in q + length queue
  transactions_in-with_queue ours queue index q = omega arith
  transactions_in-with_queue theirs queue index q = omega arith

  transactions_in-Replaced :
      (branch : BranchName) (i : ℕ) (replacement : Option LoggedTransaction) (q : Queues)
      (old : LoggedTransaction)
      → get_elem? (queue_of branch q) i ≡ some old
      → transactions_in (Replaced branch i old replacement q) ≤ transactions_in q
  transactions_in-Replaced branch i none q old found = omega (
    arith,
    transactions_in-with_queue branch (delete_at (queue_of branch q) i)
        (remove_transaction context (index_of branch q) old) q,
    length-delete_at (queue_of branch q) i found,
  )
  transactions_in-Replaced branch i (some new) q old found = omega (
    arith,
    transactions_in-with_queue branch (set (queue_of branch q) i new)
        (add_transaction context (remove_transaction context (index_of branch q) old) new) q,
    length-set (queue_of branch q) i new,
  )

  transactions_in-pop_head :
      (branch : BranchName) (current : LoggedTransaction) (rest : List LoggedTransaction)
      (q : Queues)
      → queue_of branch q ≡ current ∷ rest
      → transactions_in (pop_head context branch current rest q) ≡ transactions_in q
  transactions_in-pop_head ours current rest q e =
      omega (arith, ap length e, length-append q.merged (current ∷ []))
  transactions_in-pop_head theirs current rest q e =
      omega (arith, ap length e, length-append q.merged (current ∷ []))

  AtMost-IsKept : (n : ℕ) → IsKept context (AtMost n)
  AtMost-IsKept n = record {
    on_replace = λ branch i replacement q e p.
        let (old, found, same) = replace_or_delete_transaction-Replaced branch i replacement q e in
        subst (AtMost n) same (
          let fewer = transactions_in-Replaced branch i replacement q old found in
          omega (arith, fewer, p));
    on_pop = λ branch current rest q e p.
        omega (arith, p, transactions_in-pop_head branch current rest q e);
  }

module _ (x : Environment) (context : ConflictCheckContext) where
  open x use {scanner}

  pub initial_queues-InStep :
      (o t : List LoggedTransaction) → InStep context (initial_queues x context o t)
  initial_queues-InStep o t ours = from_transactions-StandsFor context o
  initial_queues-InStep o t theirs = from_transactions-StandsFor context t

  -- If the index of each branch stands for its queue, then one turn for each branch, whatever the
  -- user edits, deletes and accepts in it, leaves two indexes that stand for the two queues,
  -- unless it raises.
  pub both_turns-InStep :
      (fuel : ℕ) (q : Queues) (world : scanner.State)
      → InStep context q
      → Holds x context (InStep context) (both_turns x context fuel q world)
  both_turns-InStep = both_turns-Holds x context (InStep context) (InStep-IsKept context)

  -- A merge that ends as resolved leaves both queues empty and indexes that stand for them, and
  -- has merged no more transactions than the two logs hold together.
  pub resolve_merge_transactions-Ends :
      (fuel : ℕ) (o t : List LoggedTransaction) (world : scanner.State)
      → Ends x context
          (λ q. InStep context q × AtMost context (length o + length t) q)
          (resolve_merge_transactions x context fuel o t world)
  unfolding resolve_merge_transactions
  resolve_merge_transactions-Ends fuel o t world =
      merge_loop-Ends x context (λ q. InStep context q × AtMost context (length o + length t) q)
        (record {
          on_replace = λ branch i replacement q e p. (
            (InStep-IsKept context).on_replace branch i replacement q e p.0,
            (AtMost-IsKept context (length o + length t)).on_replace branch i replacement q e p.1,
          );
          on_pop = λ branch current rest q e p. (
            (InStep-IsKept context).on_pop branch current rest q e p.0,
            (AtMost-IsKept context (length o + length t)).on_pop branch current rest q e p.1,
          );
        })
        fuel (length o + length t) (initial_queues x context o t) world
        (initial_queues-InStep o t, omega arith)
