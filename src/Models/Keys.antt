-- ===== src/Models/Keys.antt =====
-- Equality of the keys by which accepted pairs are recognised: part by part, as on Python's tuples.
use sqlite_reconcile.Prelude.{
  ℕ, String, ◌≡◌, ◌↔◌, Bool, true, false, ◌&&◌, arith, nat_beq, ◌==◌, nat_eq, string_eq,
  list_beq_iff, list_eq, Eq, ℤ, pos, negsuc,
}
use sqlite_reconcile.Models.{
  ConflictKind, conflict_kind_eq, ConflictScope, pair_scope, ours_scope, theirs_scope, both_scope,
  ConflictResolutionKey,
}

abbrev pub int_beq : ℤ → ℤ → Bool
int_beq (pos m) (pos n) = nat_beq m n
int_beq (negsuc m) (negsuc n) = nat_beq m n
int_beq _ _ = false

pub int_beq_iff : (a b : ℤ) → (int_beq a b ≡ true) ↔ (a ≡ b)
int_beq_iff (pos m) (pos n) = ground arith
int_beq_iff (pos m) (negsuc n) = ground arith
int_beq_iff (negsuc m) (pos n) = ground arith
int_beq_iff (negsuc m) (negsuc n) = ground arith

instance abbrev pub int_eq : Eq ℤ
int_eq = record { beq = int_beq; beq_iff = int_beq_iff }

abbrev scope_rank : ConflictScope → ℕ
scope_rank pair_scope = 0
scope_rank ours_scope = 1
scope_rank theirs_scope = 2
scope_rank both_scope = 3

abbrev pub scope_beq : ConflictScope → ConflictScope → Bool
scope_beq a b = nat_beq (scope_rank a) (scope_rank b)

pub scope_beq_iff : (a b : ConflictScope) → (scope_beq a b ≡ true) ↔ (a ≡ b)
scope_beq_iff a b = ground arith

instance abbrev pub scope_eq : Eq ConflictScope
scope_eq = record { beq = scope_beq; beq_iff = scope_beq_iff }

abbrev pub ConflictSummary : Type 0
ConflictSummary = ConflictKind × ConflictScope × String

abbrev pub summary_beq : ConflictSummary → ConflictSummary → Bool
summary_beq a b = a.0 == b.0 && (a.1 == b.1 && a.2 == b.2)

pub summary_beq_iff : (a b : ConflictSummary) → (summary_beq a b ≡ true) ↔ (a ≡ b)
summary_beq_iff (k, s, m) (k', s', m') =
    ground (arith, conflict_kind_eq.beq_iff k k', scope_beq_iff s s', string_eq.beq_iff m m')

instance abbrev pub summary_eq : Eq ConflictSummary
summary_eq = record { beq = summary_beq; beq_iff = summary_beq_iff }

abbrev pub key_beq : ConflictResolutionKey → ConflictResolutionKey → Bool
key_beq a b =
    a.ours_id == b.ours_id
    && (a.ours_indexes == b.ours_indexes
        && (a.ours_sql == b.ours_sql
            && (a.theirs_id == b.theirs_id
                && (a.theirs_indexes == b.theirs_indexes
                    && (a.theirs_sql == b.theirs_sql && a.conflicts == b.conflicts)))))

pub key_beq_iff : (a b : ConflictResolutionKey) → (key_beq a b ≡ true) ↔ (a ≡ b)
key_beq_iff a b = ground (
  arith,
  list_beq_iff a.ours_indexes b.ours_indexes,
  list_beq_iff a.ours_sql b.ours_sql,
  list_beq_iff a.theirs_indexes b.theirs_indexes,
  list_beq_iff a.theirs_sql b.theirs_sql,
  list_beq_iff a.conflicts b.conflicts,
)

instance abbrev pub key_eq : Eq ConflictResolutionKey
key_eq = record { beq = key_beq; beq_iff = key_beq_iff }
