-- ===== src/Database/Savepoints.antt =====
-- Work between `SAVEPOINT` and `rollback_savepoint` (src/merge/utils.py): what is taken back.
use sqlite_reconcile.Prelude.{String, ◌≡◌, ◌∙◌, List, ◌∷◌, string_eq, nat_eq, list_eq}
use sqlite_reconcile.Effects.{M, ◌>>◌, clean_up_with, try_finally, ok}
use sqlite_reconcile.Effects.Contained.{clean_up_with-ok, continue_with-ok, Contained}
use sqlite_reconcile.Effects.Keeps.{Keeps, clean_up_with-view}
use sqlite_reconcile.Database.{rollback_savepoint, Database}
use sqlite_reconcile.Database.Laws.{SavepointLaws}

module _ (db : Database) (laws : SavepointLaws db) where
  open laws use {Content, content, saved}

  abbrev pub Snapshot : Type 0
  Snapshot = Content × List (String × Content)

  -- Data and open savepoints.
  abbrev pub snapshot : db.State → Snapshot
  snapshot s = (content s, saved s)

  -- `rollback_savepoint` on the innermost savepoint.
  pub rollback_savepoint_lem :
      (name : String) (before : Content) (outer : List (String × Content)) (s : db.State)
      → saved s ≡ (name, before) ∷ outer
      → (snapshot (rollback_savepoint db name s).0 ≡ (before, outer))
        × ((rollback_savepoint db name s).1 ≡ ok tt)
  unfolding rollback_savepoint
  rollback_savepoint_lem name before outer s h =
      let back = laws.rollback_restores name before outer s h in
      let back_state = (db.rollback_to name s).0 in
      let closed = laws.release_closes name before outer back_state back.1 in
      let gone = laws.release_unchanged name before outer back_state back.1 back.0 in
      let joined : rollback_savepoint db name s
          ≡ ((db.release name back_state).0, (db.rollback_to name s).1) =
        clean_up_with-ok (db.rollback_to name s).1 (db.release name back_state) gone.1 in
      rw joined (cc, back.2)

  -- What a body does between a savepoint and the rollback to it is taken back: the data and the
  -- open savepoints are as before.
  pub rollback-body :
      {A : Type 0} (name : String) (s : db.State) (body : M db.State A)
      → Contained saved body
      → (snapshot (rollback_savepoint db name (body (db.savepoint name s).0).0).0 ≡ snapshot s)
        × ((rollback_savepoint db name (body (db.savepoint name s).0).0).1 ≡ ok tt)
  rollback-body name s body kept =
      let opened = laws.savepoint_opens name s in
      rollback_savepoint_lem name (content s) (saved s) (body (db.savepoint name s).0).0
        ((kept (db.savepoint name s).0).0 ∙ opened.1)

  -- `cursor.execute(f"SAVEPOINT {name}")`, then `try: body / finally: rollback_savepoint`.
  pub discarded-Contained :
      {A : Type 0} (name : String) (body : M db.State A)
      → Contained saved body
      → Contained snapshot (db.savepoint name >> try_finally body (rollback_savepoint db name))
  discarded-Contained name body kept s =
      let opened = laws.savepoint_opens name s in
      let back = rollback-body name s body kept in
      let s' = (db.savepoint name s).0 in
      let undone = rollback_savepoint db name (body s').0 in
      let joined : (db.savepoint name >> try_finally body (rollback_savepoint db name)) s
          ≡ (undone.0, (body s').1) =
        continue_with-ok (db.savepoint name s) (λ _. try_finally body (rollback_savepoint db name))
          tt opened.2
        ∙ clean_up_with-ok (body s').1 undone back.1 in
      rw joined (back.0, (kept s').1)

  pub discarded-Keeps :
      {A : Type 0} (name : String) (body : M db.State A)
      → Keeps saved body
      → Keeps snapshot (db.savepoint name >> try_finally body (rollback_savepoint db name))
  discarded-Keeps name body kept s =
      let opened = laws.savepoint_opens name s in
      let s' = (db.savepoint name s).0 in
      let undone = rollback_savepoint db name (body s').0 in
      let back =
        rollback_savepoint_lem name (content s) (saved s) (body s').0 ((kept s').same ∙ opened.1) in
      let joined : (db.savepoint name >> try_finally body (rollback_savepoint db name)) s
          ≡ clean_up_with (body s').1 undone =
        continue_with-ok (db.savepoint name s) (λ _. try_finally body (rollback_savepoint db name))
          tt opened.2 in
      rw joined (record { same = clean_up_with-view snapshot (body s').1 undone ∙ back.0 })
