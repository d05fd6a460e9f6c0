-- ===== src/Database/Laws.antt =====
-- What the replay relies on of SQLite's savepoints, as SQLite documents them.
use sqlite_reconcile.Prelude.{String, ◌≡◌, ◌⊎◌, Bool, List, [], ◌∷◌, string_eq, nat_eq, list_eq}
use sqlite_reconcile.Effects.{sqlite_error, ok, raised}
use sqlite_reconcile.Effects.Contained.{Contained, ContainedOk}
use sqlite_reconcile.Database.{LogRow, Database}

-- `data` is what the connection's databases hold, `saved` the open savepoints, the innermost first,
-- each with what the databases held when it was opened. `IsPlain` tells the statements that leave
-- the savepoints open, also where they fail: no transaction command, and nothing that rolls the
-- transaction back, be it OR ROLLBACK, ON CONFLICT ROLLBACK of a table, RAISE(ROLLBACK) of a trigger
-- or an error on which SQLite does so by itself.
pub record SavepointLaws (db : Database) : Type 1 where
  pub Content : Type 0
  pub content : db.State → Content
  pub saved : db.State → List (String × Content)
  pub IsPlain : String → Type 0
  pub execute-saved : (sql : String) → IsPlain sql → Contained saved (db.execute sql)
  pub run-saved : (sql : String) → Contained saved (db.run sql)
  pub fetchone-Contained :
      (query : String)
      → Contained {V = Content × List (String × Content)}
          (λ s. (content s, saved s))
          (db.fetchone query)
  pub column_count-Contained :
      (query : String)
      → Contained {V = Content × List (String × Content)}
          (λ s. (content s, saved s))
          (db.column_count query)
  pub first_value-Contained :
      (query : String)
      → Contained {V = Content × List (String × Content)}
          (λ s. (content s, saved s))
          (db.first_value query)
  pub fetchall-Contained :
      (query : String)
      → Contained {V = Content × List (String × Content)}
          (λ s. (content s, saved s))
          (db.fetchall query)
  pub uuid4_hex-ContainedOk :
      ContainedOk {V = Content × List (String × Content)} (λ s. (content s, saved s)) db.uuid4_hex
  pub insert_transaction_row-saved : Contained saved db.insert_transaction_row
  pub insert_log_row-saved : (row : LogRow) → Contained saved (db.insert_log_row row)
  -- opening a savepoint changes no data
  pub savepoint_opens :
      (name : String) (s : db.State)
      → (content (db.savepoint name s).0 ≡ content s)
        × (saved (db.savepoint name s).0 ≡ (name, content s) ∷ saved s)
        × ((db.savepoint name s).1 ≡ ok tt)
  -- rolling back to the innermost savepoint restores its data and leaves it open
  pub rollback_restores :
      (name : String) (before : Content) (outer : List (String × Content)) (s : db.State)
      → saved s ≡ (name, before) ∷ outer
      → (content (db.rollback_to name s).0 ≡ before)
        × (saved (db.rollback_to name s).0 ≡ (name, before) ∷ outer)
        × ((db.rollback_to name s).1 ≡ ok tt)
  -- releasing the innermost savepoint closes it, or fails at a deferred check and changes nothing
  pub release_closes :
      (name : String) (before : Content) (outer : List (String × Content)) (s : db.State)
      → saved s ≡ (name, before) ∷ outer
      → (content (db.release name s).0 ≡ content s)
        × (((saved (db.release name s).0 ≡ outer) × ((db.release name s).1 ≡ ok tt))
            ⊎ ((saved (db.release name s).0 ≡ saved s)
                × (integrity : Bool) × (message : String) × ((db.release name s).1
                    ≡ raised (sqlite_error integrity message))))
  -- with no change since the savepoint there is nothing to check
  pub release_unchanged :
      (name : String) (before : Content) (outer : List (String × Content)) (s : db.State)
      → saved s ≡ (name, before) ∷ outer
      → content s ≡ before
      → (saved (db.release name s).0 ≡ outer) × ((db.release name s).1 ≡ ok tt)
  -- where no savepoint is open nothing is pending, and a commit changes nothing
  pub commit_idle :
      (s : db.State)
      → saved s ≡ []
      → (content (db.commit s).0 ≡ content s)
        × (saved (db.commit s).0 ≡ [])
        × ((db.commit s).1 ≡ ok tt)
