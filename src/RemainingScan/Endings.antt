-- ===== src/RemainingScan/Endings.antt =====
-- How the body of a check ends, and what the rollback under an exception makes of it.
use sqlite_reconcile.Prelude.{
  String, ◌≡◌, refl, ap, ◌∙◌, ◌⊎◌, inl, inr, Bool, true, false, List, ◌∷◌, if◌then◌else◌, string_eq,
  nat_eq, list_eq,
}
use sqlite_reconcile.Effects.{
  M, pure, continue_with, undo_with, Error, Result, sqlite_error, ok, raised,
}
use sqlite_reconcile.Effects.Contained.{clean_up_with-ok, continue_with-ok, continue_with-raised}
use sqlite_reconcile.Effects.Keeps.{Kept}
use sqlite_reconcile.Models.{conflict_kind_eq, ConflictCheckResult, has_conflict}
use sqlite_reconcile.Database.{rollback_savepoint, Database}
use sqlite_reconcile.Database.Laws.{SavepointLaws}
use sqlite_reconcile.Database.Savepoints.{rollback_savepoint_lem}
use sqlite_reconcile.Replay.{ReplayContext}
use sqlite_reconcile.RemainingScan.Scanner.{taken_back, released}

module _ (db : Database) (laws : SavepointLaws db) (context : ReplayContext) where
  open laws use {Content, content, saved}

  abbrev pub Answer : Type 0
  Answer = db.State × Result ConflictCheckResult

  -- What a check leaves of the data `before` and the savepoints `outer` that it met: the savepoints
  -- in any case, and the data unless it found nothing.
  pub record Settled (before : Content) (outer : List (String × Content)) (out : Answer)
      : Type 0 where
    pub savepoints_left : saved out.0 ≡ outer
    pub data_left :
        (content out.0 ≡ before)
        ⊎ ((r : ConflictCheckResult) × (out.1 ≡ ok r) × (has_conflict r ≡ false))

  module _ (name : String) (before : Content) (outer : List (String × Content)) where
    abbrev pub Open : db.State → Type 0
    Open s = saved s ≡ (name, before) ∷ outer

    -- How the body of a check ends: taken back, with both states advanced, or with its savepoint
    -- still open under what it raised.
    pub data BodyEnding (out : Answer) : Type 0 where
      undone :
          (r : ConflictCheckResult)
          → out.1 ≡ ok r
          → content out.0 ≡ before
          → saved out.0 ≡ outer
          → BodyEnding out
      passed :
          (r : ConflictCheckResult)
          → out.1 ≡ ok r
          → has_conflict r ≡ false
          → saved out.0 ≡ outer
          → BodyEnding out
      failed : (e : Error) → out.1 ≡ raised e → Open out.0 → BodyEnding out

    pub then-BodyEnding :
        {A : Type 0} (s : db.State) (out : db.State × Result A)
        (f : A → M db.State ConflictCheckResult)
        → Open s
        → Kept saved s out
        → ((a : A) (s' : db.State) → Open s' → BodyEnding (f a s'))
        → BodyEnding (continue_with out f)
    then-BodyEnding s (s', ok a) f o h k = k a s' (h.same ∙ o)
    then-BodyEnding s (s', raised e) f o h k = failed e refl (h.same ∙ o)

    pub if-BodyEnding :
        (b : Bool) (m n : M db.State ConflictCheckResult) (s : db.State)
        → (b ≡ true → BodyEnding (m s))
        → (b ≡ false → BodyEnding (n s))
        → BodyEnding ((if b then m else n) s)
    if-BodyEnding true m n s h k = h refl
    if-BodyEnding false m n s h k = k refl

    pub taken_back-BodyEnding :
        (r : ConflictCheckResult) (s : db.State)
        → Open s
        → BodyEnding (taken_back db context name r s)
    taken_back-BodyEnding r s o =
        let back = rollback_savepoint_lem db laws name before outer s o in
        let joined =
          continue_with-ok {B = ConflictCheckResult} (rollback_savepoint db name s) (λ _. pure r) tt
            back.1 in
        rw joined (undone r refl (ap (λ x. x.0) back.0) (ap (λ x. x.1) back.0))

    pub released-BodyEnding :
        (r : ConflictCheckResult) (s : db.State)
        → has_conflict r ≡ false
        → Open s
        → BodyEnding (released db context name r s)
    released-BodyEnding r s quiet o = elim (laws.release_closes name before outer s o).1 [
      | inl closed ↦
          (let joined =
              continue_with-ok {B = ConflictCheckResult} (db.release name s) (λ _. pure r) tt
                closed.1 in
            rw joined (passed r refl quiet closed.0))
      | inr (same, i, m, fails) ↦
          (let joined =
              continue_with-raised {B = ConflictCheckResult} (db.release name s) (λ _. pure r)
                (sqlite_error i m) fails in
            rw joined (failed (sqlite_error i m) refl (same ∙ o)))
    ]

    pub settle :
        (out : Answer)
        → BodyEnding out
        → Settled before outer (undo_with out (rollback_savepoint db name))
    settle (s, ok r') (undone r e c v) = record { savepoints_left = v; data_left = inl c }
    settle (s, ok r') (passed r e q v) = record { savepoints_left = v; data_left = inr (r, e, q) }
    settle (s, ok r') (failed x e v) = cc
    settle (s, raised x) (undone r e c v) = cc
    settle (s, raised x) (passed r e q v) = cc
    settle (s, raised x) (failed y e v) =
        let back = rollback_savepoint_lem db laws name before outer s v in
        let joined =
          clean_up_with-ok {A = ConflictCheckResult} (raised x) (rollback_savepoint db name s)
            back.1 in
        rw joined (record {
          savepoints_left = ap (λ z. z.1) back.0;
          data_left = inl (ap (λ z. z.0) back.0);
        })
