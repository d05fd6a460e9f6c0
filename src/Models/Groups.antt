-- ===== src/Models/Groups.antt =====
-- src/merge/models.py: how a result groups conflicts under their kinds.
use sqlite_reconcile.Prelude.{
  ◌≡◌, refl, sym, ap, ◌∙◌, inl, inr, Bool, true, false, List, [], ◌∷◌, ◌++◌, if◌then◌else◌,
  Bool-cases, filter_by, string_eq, nat_eq, ◌==◌, ==_iff, list_eq, lookup_or, lookup_or-insert,
  append_to,
}
use mathlib.Core.List.{append-nil, append_assoc}
use sqlite_reconcile.Models.{
  ConflictKind, StatementConflict, ConflictCheckResult, add_conflicts, of_kind, conflict_kind_eq,
}

of_kind-append_to :
    (result : ConflictCheckResult) (c : StatementConflict) (k : ConflictKind)
    → of_kind (append_to result c.kind c) k
      ≡ of_kind result k ++ (if c.kind == k then c ∷ [] else [])
unfolding of_kind
of_kind-append_to result c k = elim (Bool-cases (c.kind == k)) [
  | inl h ↦
      lookup_or-insert result c.kind (lookup_or result c.kind [] ++ c ∷ []) k []
      ∙ rw h (ap (λ kind. lookup_or result kind [] ++ c ∷ []) ((==_iff c.kind k).0 h))
  | inr h ↦
      lookup_or-insert result c.kind (lookup_or result c.kind [] ++ c ∷ []) k []
      ∙ rw h (sym (append-nil (lookup_or result k [])))
]

-- Adding conflicts to a result puts behind the conflicts of each kind exactly the added ones of
-- that kind, in their order.
pub of_kind-add_conflicts :
    (cs : List StatementConflict) (result : ConflictCheckResult) (k : ConflictKind)
    → of_kind (add_conflicts result cs) k ≡ of_kind result k ++ filter_by (λ c. c.kind == k) cs
unfolding add_conflicts
of_kind-add_conflicts [] result k = sym (append-nil (of_kind result k))
of_kind-add_conflicts (c ∷ cs) result k =
    of_kind-add_conflicts cs (append_to result c.kind c) k
    ∙ ap (λ ds. ds ++ filter_by (λ d. d.kind == k) cs) (of_kind-append_to result c k)
    ∙ append_assoc (of_kind result k) (if c.kind == k then c ∷ [] else [])
        (filter_by (λ d. d.kind == k) cs)
    ∙ ap (λ ds. of_kind result k ++ ds) (joined (c.kind == k))
  where
    joined :
        (b : Bool)
        → (if b then c ∷ [] else []) ++ filter_by (λ d. d.kind == k) cs
          ≡ (if b then c ∷ filter_by (λ d. d.kind == k) cs else filter_by (λ d. d.kind == k) cs)
    joined true = refl
    joined false = refl
