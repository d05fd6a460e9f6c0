-- ===== src/Database.antt =====
-- The SQLite connection on which the merge replays (src/merge/utils.py, src/merge/control_db.py): an
-- interface, since SQLite is not part of the repository. One connection carries the main database,
-- the attached control copy and the temporary probe tables, so a savepoint covers all of them.
pub mod Laws
pub mod Savepoints
use sqlite_reconcile.Prelude.{
  ℕ, String, Option, none, some, List, [], ◌∷◌, arith, string_eq, nat_eq, list_eq, Eq, concat,
  replace_text,
}
use sqlite_reconcile.Effects.{M, pure, ◌>>=◌, ◌>>◌, try_finally}

-- A row of the replayed log.
pub record LogRow : Type 0 where
  pub transaction_id : ℕ
  pub original_sql_text : String
  pub to_replay_sql_text : String
  pub is_replay_safe : ℕ
  pub replay_block_reason : Option String

pub record Database : Type 1 where
  pub State : Type 0
  -- `cursor.execute(sql)` of a logged statement, or of its control copy
  pub execute : String → M State (Unit {0})
  -- `cursor.execute(sql)` of the program's own statements on temporary tables
  pub run : String → M State (Unit {0})
  -- `cursor.execute(query).fetchone()`; a row is the text of its tuple
  pub fetchone : String → M State (Option String)
  -- `len(cursor.execute(query).description)`
  pub column_count : String → M State ℕ
  -- `con.execute(query).fetchone()[0]`, if there is a row, and `fetchall()`
  pub first_value : String → M State (Option String)
  pub fetchall : String → M State (List String)
  -- `con.commit()`
  pub commit : M State (Unit {0})
  -- `SAVEPOINT name`, `ROLLBACK TO name`, `RELEASE name`
  pub savepoint : String → M State (Unit {0})
  pub rollback_to : String → M State (Unit {0})
  pub release : String → M State (Unit {0})
  -- `uuid.uuid4().hex`
  pub uuid4_hex : M State String
  -- `INSERT INTO _sqlite_log_tx DEFAULT VALUES` with its `lastrowid`, and the insertion of a log row
  pub insert_transaction_row : M State ℕ
  pub insert_log_row : LogRow → M State (Unit {0})

-- utils.py
unfoldable pub quote_identifier : String → String
unfolding replace_text
quote_identifier identifier = concat ("\"" ∷ replace_text "\"" "\"\"" identifier ∷ "\"" ∷ [])

module _ (db : Database) where
  open db use {State, rollback_to, release, uuid4_hex}

  unfoldable pub rollback_savepoint : String → M State (Unit {0})
  rollback_savepoint name = try_finally (rollback_to name) (release name)

  -- `quote_identifier(f"{prefix}{uuid.uuid4().hex}")`
  abbrev pub fresh_savepoint : String → M State String
  fresh_savepoint prefix = do hex ← uuid4_hex; pure (quote_identifier (concat (prefix ∷ hex ∷ [])))

-- control_db.py
unfoldable pub clean_control_schema_references : String → Option String → String
unfolding replace_text
clean_control_schema_references message none = message
clean_control_schema_references message (some schema) =
    replace_text (concat ("`" ∷ schema ∷ "`." ∷ [])) "main." (
      replace_text (concat ("[" ∷ schema ∷ "]." ∷ [])) "main." (
        replace_text (concat ("\"" ∷ schema ∷ "\"." ∷ [])) "main."
          (replace_text (concat (schema ∷ "." ∷ [])) "main." message)))
