-- ===== src/Effects.antt =====
-- Calls with state that may raise, as in src/merge/accepted_replay.py and
-- src/merge/remaining_execution.py: the state comes back after a raise too, since what SQLite has
-- written stays written until a savepoint takes it back.
pub mod Contained
pub mod Keeps
use sqlite_reconcile.Prelude.{String, Bool, [], arith, string_eq, nat_eq, list_eq, Eq}

-- An `IndexError`, and sqlglot's `ParseError`: no handler here is for them.
pub data Uncaught : Type 0 where
  index_error parse_error : Uncaught

-- `sqlite3.Error` with whether it is an `IntegrityError` and its text; any other exception.
pub data Error : Type 0 where
  sqlite_error : Bool → String → Error
  uncaught : Uncaught → Error

pub data Result (A : Type 0) : Type 0 where
  ok : A → Result A
  raised : Error → Result A

abbrev pub M : Type 0 → Type 0 → Type 0
M S A = S → S × Result A

module _ {S A : Type 0} where
  abbrev pub pure : A → M S A
  pure a s = (s, ok a)

  abbrev pub raise : Error → M S A
  raise e s = (s, raised e)

  -- What has been computed without the state, or its exception.
  abbrev pub of_result : Result A → M S A
  of_result r s = (s, r)

module _ {S A B : Type 0} where
  abbrev pub continue_with : S × Result A → (A → M S B) → S × Result B
  continue_with (s, ok a) f = f a s
  continue_with (s, raised e) f = (s, raised e)

infixl 5 ◌>>=◌ ◌>>◌
abbrev pub ◌>>=◌ : {S A B : Type 0} → M S A → (A → M S B) → M S B
◌>>=◌ m f s = continue_with (m s) f

abbrev pub ◌>>◌ : {S B : Type 0} → M S (Unit {0}) → M S B → M S B
m >> k = m >>= λ _. k

module _ {S A : Type 0} where
  abbrev pub handle_with : S × Result A → (Bool → String → M S A) → S × Result A
  handle_with (s, ok a) handler = (s, ok a)
  handle_with (s, raised (sqlite_error integrity message)) handler = handler integrity message s
  handle_with (s, raised (uncaught e)) handler = (s, raised (uncaught e))

  -- `try: m / except sqlite3.Error as exc: handler(exc)`
  abbrev pub except_sqlite : M S A → (Bool → String → M S A) → M S A
  except_sqlite m handler s = handle_with (m s) handler

  -- What is raised in the cleanup replaces what was raised before.
  abbrev pub clean_up_with : Result A → S × Result (Unit {0}) → S × Result A
  clean_up_with r (s, ok _) = (s, r)
  clean_up_with r (s, raised e) = (s, raised e)

  -- `try: m / finally: cleanup`
  abbrev pub try_finally : M S A → M S (Unit {0}) → M S A
  try_finally m cleanup s = clean_up_with (m s).1 (cleanup (m s).0)

  abbrev pub undo_with : S × Result A → M S (Unit {0}) → S × Result A
  undo_with (s, ok a) cleanup = (s, ok a)
  undo_with (s, raised e) cleanup = clean_up_with (raised e) (cleanup s)

  -- `try: m / except Exception: cleanup; raise`
  abbrev pub undo_on_raise : M S A → M S (Unit {0}) → M S A
  undo_on_raise m cleanup s = undo_with (m s) cleanup
