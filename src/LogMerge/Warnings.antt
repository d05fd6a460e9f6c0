-- ===== src/LogMerge/Warnings.antt =====
-- src/merge/log_merge.py: which statements that are unsafe for replay may be replayed all the same.
use sqlite_reconcile.Prelude.{
  String, ◌≡◌, refl, sym, ap, ◌∙◌, ◌≢◌, inl, inr, true, false, Option, none, some, arith,
  Bool-cases, nat_eq, string_eq, ==_refl, contains, set_add, contains-set_add, list_eq,
}
use sqlite_reconcile.LogMerge.{
  replay_warning_reason, pending_replay_warning, unresolved_replay_block_reason,
  accept_replay_warning,
}
use sqlite_reconcile.Models.{LoggedStatement}

is_pending :
    (s : LoggedStatement) (warning : String)
    → pending_replay_warning s ≡ some warning
    → replay_warning_reason s ≡ some warning × contains s.accepted_replay_warnings warning ≡ false
unfolding pending_replay_warning
is_pending s warning h = by_reason (replay_warning_reason s) refl
  where
    by_reason :
        (o : Option String)
        → replay_warning_reason s ≡ o
        → replay_warning_reason s ≡ some warning
          × contains s.accepted_replay_warnings warning ≡ false
    by_reason none e = let h' = rw (pending_replay_warning, e) at h in cc
    by_reason (some w) e =
        let h' = rw (pending_replay_warning, e) at h in
        elim (Bool-cases (contains s.accepted_replay_warnings w)) [
          | inl c ↦ let h'' = rw c at h' in cc
          | inr c ↦
              let h'' = rw c at h' in
              let same : w ≡ warning = cc in
              (e ∙ ap some same, ap (contains s.accepted_replay_warnings) (sym same) ∙ c)
        ]

unsafe :
    (s : LoggedStatement) (warning : String)
    → replay_warning_reason s ≡ some warning
    → s.is_replay_safe ≡ false
unfolding replay_warning_reason
unsafe s warning h = elim (Bool-cases s.is_replay_safe) [
  | inl e ↦ let h' = rw (replay_warning_reason, e) at h in cc
  | inr e ↦ e
]

accepted_lem :
    (s : LoggedStatement) (warning : String)
    → replay_warning_reason s ≡ some warning
    → contains s.accepted_replay_warnings warning ≡ true
    → pending_replay_warning s ≡ none × unresolved_replay_block_reason s ≡ none
unfolding pending_replay_warning unresolved_replay_block_reason
accepted_lem s warning h c = (
  rw (pending_replay_warning, h, c) refl,
  rw (unresolved_replay_block_reason, h, unsafe s warning h, c) refl,
)

blocked_lem :
    (s : LoggedStatement) (warning : String)
    → replay_warning_reason s ≡ some warning
    → contains s.accepted_replay_warnings warning ≡ false
    → unresolved_replay_block_reason s ≢ none
unfolding unresolved_replay_block_reason
blocked_lem s warning h c e =
    let e' = rw (unresolved_replay_block_reason, h, unsafe s warning h, c) at e in cc

if_fresh :
    (s : LoggedStatement) (warning : String)
    → contains s.accepted_replay_warnings warning ≡ false
    → accept_replay_warning s warning
      ≡ record s { accepted_replay_warnings = set_add s.accepted_replay_warnings warning }
unfolding accept_replay_warning
if_fresh s warning h = rw (accept_replay_warning, h) refl

-- Accepting a pending warning of a statement, which blocks its replay until then, leaves the
-- statement without a pending warning and without a reason that blocks it.
pub accept_replay_warning-unresolved :
    (s : LoggedStatement) (warning : String)
    → pending_replay_warning s ≡ some warning
    → pending_replay_warning (accept_replay_warning s warning) ≡ none
      × unresolved_replay_block_reason (accept_replay_warning s warning) ≡ none
      × unresolved_replay_block_reason s ≢ none
unfolding pending_replay_warning replay_warning_reason unresolved_replay_block_reason
    accept_replay_warning
accept_replay_warning-unresolved s warning h =
    let (reason, fresh) = is_pending s warning h in
    let accepted : contains (set_add s.accepted_replay_warnings warning) warning ≡ true =
      contains-set_add s.accepted_replay_warnings warning warning
      ∙ ground (arith, ==_refl warning) in
    let s' : LoggedStatement = record s {
      accepted_replay_warnings = set_add s.accepted_replay_warnings warning;
    } in
    let (p, q) = accepted_lem s' warning reason accepted in
    let same : accept_replay_warning s warning ≡ s' = if_fresh s warning fresh in
    (
      ap pending_replay_warning same ∙ p,
      ap unresolved_replay_block_reason same ∙ q,
      blocked_lem s warning reason fresh,
    )
