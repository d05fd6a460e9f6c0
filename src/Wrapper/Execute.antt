-- ===== src/Wrapper/Execute.antt =====
-- src/sqlite_wrapper/wrapper.py: `_execute_on`, which every public execute call goes through.
use sqlite_reconcile.Prelude.{
  String, Bool, true, false, List, ◌++◌, nonempty, not, ◌&&◌, ◌||◌, Option, none, some, [], ◌∷◌,
  if◌then◌else◌, nat_eq, string_eq, list_eq, concat,
}
use Prim.Native.Char.{Char}
use sqlite_reconcile.ConflictSyntax.Characters.{CharTables, chars, text_of, is_char}
use text.Mathlib.Text.{starts_with}
use sqlite_reconcile.Wrapper.{
  LogEntry, SqliteWrapper, begin, discard, flush, savepoint, release_savepoint,
  rollback_to_savepoint, mark_transaction_error, entry_with_execution_error, record_effectful_entry,
}

-- What SQLite answers: with the connection's `in_transaction` after the statement, and for an
-- error with its text and whether `total_changes` moved.
pub data Outcome : Type 0 where
  executed : Bool → Outcome
  failed : String → Bool → Bool → Outcome

pub data Reply : Type 0 where
  done : Reply
  raised : String → Reply

-- One call: the stripped text, the answers of `_should_log` and `_has_parameters`, and the entry that the replay
-- preparation makes.
pub record Request : Type 0 where
  pub sql : String
  pub should_log : Bool
  pub has_parameters : Bool
  pub prepared : LogEntry

-- The last word of `sql.split()`: `word` is the one at hand, `last` the one before.
abbrev pub last_word : CharTables → List Char → List Char → List Char → List Char
last_word tables word last [] = if nonempty word then word else last
last_word tables word last (c ∷ rest) = elim (tables.is_space c) [
  | true ↦ last_word tables [] (if nonempty word then word else last) rest
  | false ↦ last_word tables (word ++ c ∷ []) last rest
]

-- A quotation mark, an apostrophe, a backquote or a semicolon.
abbrev pub is_quote : Char → Bool
is_quote c = is_char 34 c || is_char 39 c || is_char 96 c || is_char 59 c

abbrev pub lstrip_quotes : List Char → List Char
lstrip_quotes [] = []
lstrip_quotes (c ∷ rest) =
    let stripped = lstrip_quotes rest in if is_quote c then stripped else c ∷ rest

abbrev pub rstrip_quotes : List Char → List Char
rstrip_quotes [] = []
rstrip_quotes (c ∷ rest) =
    let stripped = rstrip_quotes rest in
    if is_quote c && not (nonempty stripped) then [] else c ∷ stripped

-- `sql.split()[-1].strip(...)` of `_savepoint` and `_rollback_to_savepoint`.
unfoldable pub savepoint_name : CharTables → String → String
savepoint_name tables sql =
    text_of (rstrip_quotes (lstrip_quotes (last_word tables [] [] (chars sql))))

pub data Verb : Type 0 where
  begin_verb commit_verb rollback_to_verb rollback_verb savepoint_verb release_verb other_verb :
      Verb

-- The ladder of `startswith` tests.
unfoldable pub verb_of : String → Verb
verb_of upper_sql =
    if starts_with upper_sql "BEGIN"
    then begin_verb
    else if starts_with upper_sql "COMMIT"
    then commit_verb
    else if starts_with upper_sql "ROLLBACK TO" || starts_with upper_sql "ROLLBACK TO SAVEPOINT"
    then rollback_to_verb
    else if starts_with upper_sql "ROLLBACK"
    then rollback_verb
    else if starts_with upper_sql "SAVEPOINT"
    then savepoint_verb
    else if starts_with upper_sql "RELEASE"
    then release_verb
    else other_verb

abbrev pub parameterized_dml_error : String
parameterized_dml_error = concat (
    "sqlite-reconcile wrapper does not support bound parameters for logged DML; "
    ∷ "execute a literal SQL statement instead" ∷ [])

-- `_entry_for_execute`; `none` is the `ProgrammingError`.
unfoldable pub entry_for_execute : Request → Option (Option LogEntry)
entry_for_execute r =
    if not r.should_log
    then some none
    else if r.has_parameters
    then none
    else some (some r.prepared)

-- `_execute_sql_for_entry`
unfoldable pub execute_sql_for_entry : Option LogEntry → String → String
execute_sql_for_entry none sql = sql
execute_sql_for_entry (some e) sql = if e.is_replay_safe then e.to_replay_sql_text else sql

-- The branches behind a statement that SQLite executed.
unfoldable pub after_success :
    (String → String) → Verb → String → Option LogEntry → Bool → SqliteWrapper → SqliteWrapper
unfolding begin flush rollback_to_savepoint discard savepoint release_savepoint
    record_effectful_entry
after_success upper begin_verb name entry in_transaction w = begin w
after_success upper commit_verb name entry in_transaction w = flush w
after_success upper rollback_to_verb name entry in_transaction w =
    rollback_to_savepoint upper name w
after_success upper rollback_verb name entry in_transaction w = discard w
after_success upper savepoint_verb name entry in_transaction w = savepoint name w
after_success upper release_verb name entry in_transaction w = release_savepoint in_transaction w
after_success upper other_verb name entry in_transaction w = record_effectful_entry entry w

-- The `except sqlite3.Error` branch.
unfoldable pub after_failure :
    Option LogEntry → String → Bool → Bool → SqliteWrapper → SqliteWrapper
unfolding discard mark_transaction_error record_effectful_entry entry_with_execution_error
after_failure entry error in_transaction changed w =
    if w.in_transaction && not in_transaction
    then discard w
    else mark_transaction_error error (elim entry [
      | none ↦ w
      | some e ↦
          if changed
          then record_effectful_entry (some (entry_with_execution_error e error)) w
          else w
    ])

unfoldable pub execute_on :
    CharTables
    → (String → String)
    → (String → Outcome)
    → Request
    → SqliteWrapper
    → SqliteWrapper × Reply
unfolding entry_for_execute execute_sql_for_entry after_success after_failure verb_of savepoint_name
execute_on tables upper execute r w = elim (entry_for_execute r) [
  | none ↦ (w, raised parameterized_dml_error)
  | some entry ↦ elim (execute (execute_sql_for_entry entry r.sql)) [
    | executed in_transaction ↦ (
      after_success upper (verb_of (upper r.sql)) (savepoint_name tables r.sql) entry in_transaction
          w,
      done,
    )
    | failed error in_transaction changed ↦
        (after_failure entry error in_transaction changed w, raised error)
  ]
]
