-- ===== src/ConflictSyntax/Scanner.antt =====
-- src/sqlite_conflict_resolution.py, `_top_level_keyword_indexes`: the walk over SQL text that finds
-- where words begin outside comments, quotes and brackets of any kind.
use Prim.Native.Char.{Char}
use sqlite_reconcile.Prelude.{
  ℕ, suc, ◌+◌, ◌-◌, Bool, true, false, not, ◌&&◌, ◌||◌, Option, List, [], ◌∷◌, ◌++◌, nat_beq,
  if◌then◌else◌, string_eq, nat_eq, list_eq,
}
use sqlite_reconcile.ConflictSyntax.Characters.{
  is_char, is_next, head_of, identifier_char, CharTables,
}

-- What the walk is in: code, the rest of a word, a comment, a bracketed name, or a text between two
-- quotes of the given code.
pub data Mode : Type 0 where
  plain in_word line_comment block_comment bracketed : Mode
  quoted : ℕ → Mode

-- `skips` marks the second of two characters that are taken at once; `after_identifier` is what
-- the walk asks of the character before.
pub record ScanState : Type 0 where
  pub depth : ℕ
  pub mode : Mode
  pub skips : Bool
  pub after_identifier : Bool

abbrev pub initial : ScanState
initial = record { depth = 0; mode = plain; skips = false; after_identifier = false }

module _ (tables : CharTables) where
  open tables use {is_alpha}

  abbrev pub starts_word : ScanState → Char → Bool
  starts_word st c =
      nat_beq st.depth 0 && ((is_alpha c || is_char b'_' c) && not st.after_identifier)

  -- The mode after a character of code, and whether its neighbour is taken with it.
  abbrev pub code_mode : ScanState → Char → Option Char → Mode × Bool
  code_mode st c next =
      if is_char b'-' c && is_next b'-' next
      then (line_comment, true)
      else if is_char b'/' c && is_next b'*' next
      then (block_comment, true)
      else if is_char b'\'' c
      then (quoted b'\'', false)
      else if is_char b'"' c
      then (quoted b'"', false)
      else if is_char b'`' c
      then (quoted b'`', false)
      else if is_char b'[' c
      then (bracketed, false)
      else if is_char b'(' c || is_char b')' c
      then (plain, false)
      else if starts_word st c
      then (in_word, false)
      else (plain, false)

  abbrev pub code_depth : ScanState → Char → Mode → ℕ
  code_depth st c plain =
      if is_char b'(' c then st.depth + 1 else if is_char b')' c then st.depth - 1 else st.depth
  code_depth st c _ = st.depth

  abbrev pub is_word : Mode → Bool
  is_word in_word = true
  is_word _ = false

  -- The state after the character, and whether its index is yielded.
  abbrev pub code_step : ScanState → Char → Option Char → ScanState × Bool
  code_step st c next =
      let (mode, skips) = code_mode st c next in
      (
        record {
          depth = code_depth st c mode;
          mode = mode;
          skips = skips;
          after_identifier = identifier_char tables c;
        },
        is_word mode,
      )

  abbrev pub stay : ScanState → Char → Mode → Bool → ScanState × Bool
  stay st c mode skips = (
    record {
      depth = st.depth;
      mode = mode;
      skips = skips;
      after_identifier = identifier_char tables c;
    },
    false,
  )

  abbrev pub mode_step : Mode → ScanState → Char → Option Char → ScanState × Bool
  mode_step line_comment st c next =
      stay st c (if is_char 13 c || is_char 10 c then plain else line_comment) false
  mode_step block_comment st c next =
      if is_char b'*' c && is_next b'/' next
      then stay st c plain true
      else stay st c block_comment false
  mode_step bracketed st c next = stay st c (if is_char b']' c then plain else bracketed) false
  mode_step (quoted q) st c next =
      if is_char q c
      then (if is_next q next then stay st c (quoted q) true else stay st c plain false)
      else stay st c (quoted q) false
  mode_step in_word st c next =
      if identifier_char tables c then stay st c in_word false else code_step st c next
  mode_step plain st c next = code_step st c next

  unfoldable pub step : ScanState → Char → Option Char → ScanState × Bool
  step st c next = if st.skips then stay st c st.mode false else mode_step st.mode st c next

  unfoldable pub indexes_from : ScanState → ℕ → List Char → List ℕ
  indexes_from st index [] = []
  indexes_from st index (c ∷ rest) =
      (if (step st c (head_of rest)).1 then index ∷ [] else [])
      ++ indexes_from (step st c (head_of rest)).0 (suc index) rest

  unfoldable pub top_level_keyword_indexes : List Char → List ℕ
  unfolding indexes_from step
  top_level_keyword_indexes sql = indexes_from initial 0 sql
