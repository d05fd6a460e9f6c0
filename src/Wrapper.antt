-- ===== src/Wrapper.antt =====
-- src/sqlite_wrapper/wrapper.py: the connection wrapper that logs committed statements.
-- The log tables are kept beside the wrapper's own fields. SQLite is not modelled: its answer to
-- one statement is an `Outcome`.
pub mod Execute
pub mod Spec
pub mod Frames
pub mod Refinement
use sqlite_reconcile.Prelude.{
  ℕ, ◌+◌, String, Bool, true, false, not, ◌&&◌, Option, none, some, List, [], ◌∷◌, ◌++◌, map, arith,
  if◌then◌else◌, length, take, nonempty, ◌==◌, nat_eq, string_eq, list_eq, Eq, concat,
}

pub record LogEntry : Type 0 where
  pub original_sql_text : String
  pub to_replay_sql_text : String
  pub is_replay_safe : Bool
  pub replay_block_reason : Option String

pub record SqliteWrapper : Type 0 where
  pub in_transaction : Bool
  pub buffer : List LogEntry
  pub savepoints : List (String × ℕ)
  pub transaction_error_reason : Option String
  -- the rows of the log table, each with its transaction's id, and the last id given
  pub log : List (ℕ × LogEntry)
  pub last_transaction_id : ℕ

-- `_begin` and `_discard` leave the log tables alone.
unfoldable pub begin : SqliteWrapper → SqliteWrapper
begin w = record w {
  in_transaction = true;
  buffer = [];
  savepoints = [];
  transaction_error_reason = none;
}

unfoldable pub discard : SqliteWrapper → SqliteWrapper
discard w = record w {
  in_transaction = false;
  buffer = [];
  savepoints = [];
  transaction_error_reason = none;
}

-- `_write`: one transaction row, whose id is the next one, and a log row for each statement.
unfoldable pub write : SqliteWrapper → List LogEntry → SqliteWrapper
write w statements = record w {
  log = w.log ++ map (λ e. (w.last_transaction_id + 1, e)) statements;
  last_transaction_id = w.last_transaction_id + 1;
}

-- `x or y` on an optional text: the empty text counts as absent.
abbrev pub or_text : Option String → String → String
or_text none y = y
or_text (some x) y = if x == "" then y else x

unfoldable pub block_entry : String → LogEntry → LogEntry
block_entry reason e = record e {
  is_replay_safe = false;
  replay_block_reason = some (or_text e.replay_block_reason reason);
}

-- The entries as `_flush` writes them: blocked if an error was remembered.
unfoldable pub flushed_entries : Option String → List LogEntry → List LogEntry
unfolding block_entry
flushed_entries none entries = entries
flushed_entries (some reason) entries =
    if reason == "" then entries else map (block_entry reason) entries

unfoldable pub flush : SqliteWrapper → SqliteWrapper
unfolding flushed_entries write discard
flush w =
    if nonempty w.buffer
    then discard (write w (flushed_entries w.transaction_error_reason w.buffer))
    else discard w

-- `_savepoint`, given the name that the statement ends in.
unfoldable pub savepoint : String → SqliteWrapper → SqliteWrapper
unfolding begin
savepoint name w =
    let started = if w.in_transaction then w else begin w in
    record started { savepoints = started.savepoints ++ (name, length started.buffer) ∷ [] }

-- `self._savepoints.pop()`
abbrev pub drop_last {ℓ} : {A : Type ℓ} → List A → List A
drop_last [] = []
drop_last (x ∷ []) = []
drop_last (x ∷ y ∷ xs) = x ∷ drop_last (y ∷ xs)

-- `_release_savepoint`; the flag is the connection's `in_transaction` after the statement.
unfoldable pub release_savepoint : Bool → SqliteWrapper → SqliteWrapper
unfolding flush
release_savepoint connection_in_transaction w =
    let released = record w { savepoints = drop_last w.savepoints } in
    if w.in_transaction && not connection_in_transaction then flush released else released

-- The loop of `_rollback_to_savepoint` from the last savepoint down: the savepoints up to the one
-- found, and its buffer length.
unfoldable pub find_savepoint :
    (String → String) → String → List (String × ℕ) → Option (List (String × ℕ) × ℕ)
find_savepoint upper name [] = none
find_savepoint upper name ((sp_name, buf_idx) ∷ savepoints) =
    elim (find_savepoint upper name savepoints) [
      | some (kept, found_idx) ↦ some ((sp_name, buf_idx) ∷ kept, found_idx)
      | none ↦ if upper sp_name == upper name then some ((sp_name, buf_idx) ∷ [], buf_idx) else none
    ]

unfoldable pub rollback_to_savepoint : (String → String) → String → SqliteWrapper → SqliteWrapper
unfolding find_savepoint
rollback_to_savepoint upper name w = elim (find_savepoint upper name w.savepoints) [
  | none ↦ w
  | some (kept, buf_idx) ↦ record w { buffer = take buf_idx w.buffer; savepoints = kept }
]

abbrev pub execution_error_reason : String → String
execution_error_reason error = concat ("statement raised an execution error: " ∷ error ∷ [])

unfoldable pub mark_transaction_error : String → SqliteWrapper → SqliteWrapper
mark_transaction_error error w =
    if w.in_transaction
    then record w {
      transaction_error_reason =
          some (or_text w.transaction_error_reason (execution_error_reason error));
    }
    else w

unfoldable pub entry_with_execution_error : LogEntry → String → LogEntry
entry_with_execution_error e error = record e {
  is_replay_safe = false;
  replay_block_reason = elim e.replay_block_reason [
    | none ↦ some (execution_error_reason error)
    | some reason ↦
        if reason == ""
        then some (execution_error_reason error)
        else some (concat (reason ∷ "; " ∷ execution_error_reason error ∷ []))
  ];
}

unfoldable pub record_effectful_entry : Option LogEntry → SqliteWrapper → SqliteWrapper
unfolding write
record_effectful_entry none w = w
record_effectful_entry (some e) w =
    if w.in_transaction then record w { buffer = w.buffer ++ e ∷ [] } else write w (e ∷ [])

abbrev pub fresh_wrapper : SqliteWrapper
fresh_wrapper = record {
  in_transaction = false;
  buffer = [];
  savepoints = [];
  transaction_error_reason = none;
  log = [];
  last_transaction_id = 0;
}
