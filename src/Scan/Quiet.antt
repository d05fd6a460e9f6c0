-- ===== src/Scan/Quiet.antt =====
-- A scan of transactions that are statically independent goes past every opposite transaction.
use sqlite_reconcile.StaticAnalysis.Keys.{transaction_implicit_insert_key_conflicts}
use sqlite_reconcile.StaticAnalysis.Overlaps.{
  transaction_write_write_overlap, transaction_write_read_overlap,
}
use sqlite_reconcile.StaticAnalysis.Matching.{
  static_conflicts, static_analysis_matching, kind_enabled, checks_from,
}
use sqlite_reconcile.Schema.{ConflictCheckContext}
use sqlite_reconcile.Scan.{
  ExecutionScanner, Scanner, ScanConflict, advance, as_ours, as_theirs, static_result, visit,
  visit_all, next_conflict,
}
use sqlite_reconcile.Prelude.{
  ◌+◌, String, ◌≡◌, refl, ap, inl, inr, Bool, true, false, ◌&&◌, Option, none, List, [], ◌∷◌, ◌++◌,
  arith, if◌then◌else◌, Bool-cases, length, drop, string_eq, nat_eq, list_eq,
}
use sqlite_reconcile.Models.{
  conflict_kind_eq, ConflictCheckResult, add_conflicts, has_conflict, BranchName, ConflictKind,
  LoggedTransaction, StatementConflict, ours, theirs, write_write, write_read, implicit_insert_key,
}

-- The static analysis has nothing to say of the two, whatever kinds it is asked for.
pub record Independent (context : ConflictCheckContext) (o t : LoggedTransaction) : Type 0 where
  pub no_hidden_key : transaction_implicit_insert_key_conflicts context o.metadata t.metadata ≡ []
  pub no_write_write : transaction_write_write_overlap o.metadata t.metadata ≡ false
  pub no_read_of_ours : transaction_write_read_overlap o.metadata t.metadata ≡ false
  pub no_read_of_theirs : transaction_write_read_overlap t.metadata o.metadata ≡ false

and_false : (b : Bool) → (b && false) ≡ false
and_false true = refl
and_false false = refl

no_conflicts :
    (a c : Bool)
    → ◌≡◌ {A = List StatementConflict} ((if a then [] else []) ++ (if c then [] else [])) []
no_conflicts true true = refl
no_conflicts true false = refl
no_conflicts false true = refl
no_conflicts false false = refl

static_conflicts-Independent :
    (context : ConflictCheckContext) (o t : LoggedTransaction) (kinds : Option (List ConflictKind))
    (branch : Option BranchName) (ours_label theirs_label : Option String)
    → Independent context o t
    → static_conflicts context o.metadata t.metadata kinds branch ours_label theirs_label ≡ []
unfolding static_conflicts
static_conflicts-Independent context o t kinds branch ours_label theirs_label h =
    rw
      (
        h.no_hidden_key,
        h.no_write_write,
        h.no_read_of_ours,
        h.no_read_of_theirs,
        and_false (kind_enabled kinds write_write),
        and_false (checks_from branch ours),
        and_false (checks_from branch theirs),
      )
      (no_conflicts (kind_enabled kinds implicit_insert_key) (kind_enabled kinds write_read))

pub static_analysis_matching-Independent :
    (context : ConflictCheckContext) (o t : LoggedTransaction) (kinds : Option (List ConflictKind))
    (branch : Option BranchName) (ours_label theirs_label : Option String)
    → Independent context o t
    → has_conflict (
        static_analysis_matching context o.metadata t.metadata kinds branch ours_label theirs_label)
      ≡ false
unfolding static_analysis_matching add_conflicts
static_analysis_matching-Independent context o t kinds branch ours_label theirs_label h =
    rw (static_conflicts-Independent context o t kinds branch ours_label theirs_label h) refl

-- An execution scanner that finds nothing of its own: in a good state it starts without a conflict,
-- and of two own transactions without a static conflict it reports none. A static conflict it may
-- report.
pub record IsQuiet (x : ExecutionScanner) (Good : x.State → Type 0)
    (Own : LoggedTransaction → Type 0) : Type 0 where
  pub quiet_start :
      (s : x.State) → Good s → (has_conflict (x.start s).1 ≡ false) × Good (x.start s).0
  pub quiet_check :
      (s : x.State) (o t : LoggedTransaction) (static : ConflictCheckResult)
      → Good s
      → Own o
      → Own t
      → has_conflict static ≡ false
      → (has_conflict (x.check_next s o t static).1 ≡ false) × Good (x.check_next s o t static).0

-- What holds of each transaction.
abbrev pub Each : (LoggedTransaction → Type 0) → List LoggedTransaction → Type 0
Each P [] = Unit
Each P (t ∷ ts) = P t × Each P ts

pub Each-map :
    (P Q : LoggedTransaction → Type 0) (ts : List LoggedTransaction)
    → ((t : LoggedTransaction) → P t → Q t)
    → Each P ts
    → Each Q ts
Each-map P Q [] f h = tt
Each-map P Q (t ∷ ts) f h = (f t h.0, Each-map P Q ts f h.1)

module _ (x : ExecutionScanner) (context : ConflictCheckContext) (Good : x.State → Type 0)
    (Own : LoggedTransaction → Type 0) where
  -- The current transaction and an opposite one are own and independent.
  abbrev pub Fits : BranchName → LoggedTransaction → LoggedTransaction → Type 0
  Fits ours current other = Own current × Own other × Independent context current other
  Fits theirs current other = Own other × Own current × Independent context other current

  -- Nothing is reported, and the scan stands behind these transactions, in a good state.
  abbrev pub GoesPast :
      Scanner x context → List LoggedTransaction → Scanner x context × Option ScanConflict → Type 0
  GoesPast s ts r =
      (r.1 ≡ none) × (r.0.next_other_index ≡ s.next_other_index + length ts) × Good r.0.state

  module _ (quiet : IsQuiet x Good Own) where
    check-quiet :
        (s : Scanner x context) (other : LoggedTransaction) (branch : BranchName)
        → s.current_branch ≡ branch
        → Good s.state
        → Fits branch s.current_transaction other
        → let checked =
            x.check_next s.state
              (as_ours x context s other)
              (as_theirs x context s other)
              (static_result x context s other) in
          (has_conflict checked.1 ≡ false) × Good checked.0
    check-quiet s other ours e good (own, own', independent) = rw e (
        quiet.quiet_check s.state s.current_transaction other _ good own own' (
          static_analysis_matching-Independent context s.current_transaction other _ _ _ _
            independent))
    check-quiet s other theirs e good (own, own', independent) = rw e (
        quiet.quiet_check s.state other s.current_transaction _ good own own' (
          static_analysis_matching-Independent context other s.current_transaction _ _ _ _
            independent))

    -- The scan behind an opposite transaction.
    abbrev past : Scanner x context → LoggedTransaction → Scanner x context
    past s other = record s {
      state =
          (x.check_next s.state (as_ours x context s other) (as_theirs x context s other)
            (static_result x context s other)).0;
      next_other_index = s.next_other_index + 1;
    }

    visit-advance :
        (s : Scanner x context) (other : LoggedTransaction)
        → has_conflict
            (x.check_next s.state
              (as_ours x context s other)
              (as_theirs x context s other)
              (static_result x context s other)).1
          ≡ false
        → visit x context s other ≡ (past s other, advance)
    unfolding visit
    visit-advance s other silent = rw silent refl

    visit_all-GoesPast :
        (branch : BranchName) (ts : List LoggedTransaction) (s : Scanner x context)
        → s.current_branch ≡ branch
        → Good s.state
        → Each (Fits branch s.current_transaction) ts
        → GoesPast s ts (visit_all x context s ts)
    unfolding visit_all
    visit_all-GoesPast branch [] s e good fits = (refl, omega arith, good)
    visit_all-GoesPast branch (t ∷ ts) s e good fits =
        let (silent, good') = check-quiet s t branch e good fits.0 in
        let (quiet', passed, good'') = visit_all-GoesPast branch ts (past s t) e good' fits.1 in
        let gone = visit-advance s t silent in
        rw (visit_all, ap (λ r. r.1) gone, ap (λ r. r.0) gone)
          (quiet', omega (arith, passed), good'')

    -- A scan of a transaction that is statically independent of the opposite ones, with an
    -- execution scanner that finds no conflict of its own in its states, returns no conflict, and
    -- its position is then behind each opposite transaction that was ahead of it.
    pub next_conflict-GoesPast :
        (branch : BranchName) (s : Scanner x context) (remaining_other : List LoggedTransaction)
        → s.current_branch ≡ branch
        → Good s.state
        → Each (Fits branch s.current_transaction) (drop s.next_other_index remaining_other)
        → GoesPast s
            (drop s.next_other_index remaining_other)
            (next_conflict x context s remaining_other)
    unfolding next_conflict
    next_conflict-GoesPast branch s ts e good fits = elim (Bool-cases s.started) [
      | inl h ↦ rw h (visit_all-GoesPast branch _ (record s { started = true }) e good fits)
      | inr h ↦
          let (silent, good') = quiet.quiet_start s.state good in
          rw (h, silent)
            (visit_all-GoesPast branch _ (record s { started = true; state = (x.start s.state).0 })
              e good' fits)
    ]
