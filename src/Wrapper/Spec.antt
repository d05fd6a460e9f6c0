-- ===== src/Wrapper/Spec.antt =====
-- What the wrapper's buffer stands for: an open transaction with its savepoints, as SQLite nests
-- them. It is stated without positions in a buffer.
use sqlite_reconcile.Prelude.{
  String, true, Option, none, some, List, [], ◌∷◌, ◌++◌, if◌then◌else◌, ◌==◌, nat_eq, string_eq,
  list_eq,
}
use sqlite_reconcile.Wrapper.{
  LogEntry, SqliteWrapper, savepoint, release_savepoint, rollback_to_savepoint,
  record_effectful_entry,
}

-- The savepoints from the outermost on, each with the statements behind it.
abbrev pub Frames : Type 0
Frames = List (String × List LogEntry)

-- The statements in front of the first savepoint, and the savepoints.
pub record Transaction : Type 0 where
  pub before : List LogEntry
  pub frames : Frames

-- The statements behind the savepoints.
abbrev pub entries_of : Frames → List LogEntry
entries_of [] = []
entries_of ((name, entries) ∷ frames) = entries ++ entries_of frames

-- All statements that a COMMIT would keep.
abbrev pub surviving : Transaction → List LogEntry
surviving t = t.before ++ entries_of t.frames

-- A statement goes behind the innermost savepoint.
abbrev pub add_behind : LogEntry → Frames → Frames
add_behind e [] = []
add_behind e ((name, entries) ∷ []) = (name, entries ++ e ∷ []) ∷ []
add_behind e (f ∷ g ∷ frames) = f ∷ add_behind e (g ∷ frames)

abbrev pub add_entry : LogEntry → Transaction → Transaction
add_entry e t = elim t.frames [
  | [] ↦ record t { before = t.before ++ e ∷ [] }
  | f ∷ frames ↦ record t { frames = add_behind e (f ∷ frames) }
]

abbrev pub open_savepoint : String → Transaction → Transaction
open_savepoint name t = record t { frames = t.frames ++ (name, []) ∷ [] }

-- The innermost savepoint goes, and its statements go to the one around it.
abbrev pub release_frames : Frames → Frames
release_frames [] = []
release_frames (f ∷ []) = []
release_frames ((name, entries) ∷ (inner, more) ∷ []) = (name, entries ++ more) ∷ []
release_frames (f ∷ g ∷ h ∷ frames) = f ∷ release_frames (g ∷ h ∷ frames)

abbrev pub release_innermost : Transaction → Transaction
release_innermost t = elim t.frames [
  | [] ↦ t
  | f ∷ frames ↦ elim frames [
    | [] ↦ record { before = t.before ++ f.1; frames = [] }
    | g ∷ more ↦ record t { frames = release_frames t.frames }
  ]
]

-- The innermost savepoint of a name stays, without statements; the savepoints in it go.
abbrev pub rollback_frames : (String → String) → String → Frames → Option Frames
rollback_frames upper name [] = none
rollback_frames upper name ((inner, entries) ∷ frames) = elim (rollback_frames upper name frames) [
  | some kept ↦ some ((inner, entries) ∷ kept)
  | none ↦ if upper inner == upper name then some ((inner, []) ∷ []) else none
]

abbrev pub rollback_to : (String → String) → String → Transaction → Transaction
rollback_to upper name t = elim (rollback_frames upper name t.frames) [
  | none ↦ t
  | some kept ↦ record t { frames = kept }
]

-- What happens inside an open transaction.
pub data Step : Type 0 where
  log_statement : LogEntry → Step
  set_savepoint roll_back_to : String → Step
  release_last : Step

abbrev pub spec_steps : (String → String) → List Step → Transaction → Transaction
spec_steps upper [] t = t
spec_steps upper (log_statement e ∷ steps) t = spec_steps upper steps (add_entry e t)
spec_steps upper (set_savepoint name ∷ steps) t = spec_steps upper steps (open_savepoint name t)
spec_steps upper (roll_back_to name ∷ steps) t = spec_steps upper steps (rollback_to upper name t)
spec_steps upper (release_last ∷ steps) t = spec_steps upper steps (release_innermost t)

-- The same steps on the wrapper; SQLite stays in the transaction after each RELEASE.
unfoldable pub wrapper_steps : (String → String) → List Step → SqliteWrapper → SqliteWrapper
unfolding record_effectful_entry savepoint rollback_to_savepoint release_savepoint
wrapper_steps upper [] w = w
wrapper_steps upper (log_statement e ∷ steps) w =
    wrapper_steps upper steps (record_effectful_entry (some e) w)
wrapper_steps upper (set_savepoint name ∷ steps) w = wrapper_steps upper steps (savepoint name w)
wrapper_steps upper (roll_back_to name ∷ steps) w =
    wrapper_steps upper steps (rollback_to_savepoint upper name w)
wrapper_steps upper (release_last ∷ steps) w = wrapper_steps upper steps (release_savepoint true w)
