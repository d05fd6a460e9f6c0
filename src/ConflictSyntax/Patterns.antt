-- ===== src/ConflictSyntax/Patterns.antt =====
-- src/sqlite_conflict_resolution.py: its regular expressions, and where one matches at the top level.
-- A run of `\s+` takes all the spaces there are: none of what may follow begins with a space.
use Prim.Native.Char.{Char}
use sqlite_reconcile.Prelude.{
  ℕ, String, Option, none, some, List, [], ◌∷◌, ◌++◌, if◌then◌else◌, drop, nonempty, string_eq,
  nat_eq, list_eq,
}
use sqlite_reconcile.ConflictSyntax.Characters.{chars, CharTables}
use sqlite_reconcile.ConflictSyntax.Scanner.{top_level_keyword_indexes}

pub data Pattern : Type 0 where
  -- `(KEYWORD)\s+OR\s+(A|B|...)\s+`
  or_clause : String → List String → Pattern
  -- `(REPLACE)(\s+INTO\s+)`
  replace_into : Pattern
  -- `(UPDATE)\s+`
  update_keyword : Pattern

abbrev pub conflict_algorithms : List String
conflict_algorithms = "ROLLBACK" ∷ "ABORT" ∷ "FAIL" ∷ "IGNORE" ∷ "REPLACE" ∷ []

abbrev pub reviewable_algorithms : List String
reviewable_algorithms = "IGNORE" ∷ "REPLACE" ∷ []

abbrev pub insert_or_pattern : Pattern
insert_or_pattern = or_clause "INSERT" conflict_algorithms

abbrev pub update_or_pattern : Pattern
update_or_pattern = or_clause "UPDATE" conflict_algorithms

abbrev pub insert_or_rollback_pattern : Pattern
insert_or_rollback_pattern = or_clause "INSERT" ("ROLLBACK" ∷ [])

abbrev pub update_or_rollback_pattern : Pattern
update_or_rollback_pattern = or_clause "UPDATE" ("ROLLBACK" ∷ [])

abbrev pub reviewable_insert_or_pattern : Pattern
reviewable_insert_or_pattern = or_clause "INSERT" reviewable_algorithms

abbrev pub reviewable_update_or_pattern : Pattern
reviewable_update_or_pattern = or_clause "UPDATE" reviewable_algorithms

-- The groups of a match, where it starts, and the text behind its end.
pub record Match : Type 0 where
  pub group1 : List Char
  pub group2 : List Char
  pub after : List Char

abbrev pub Parts : Type 0
Parts = List Char × List Char

module _ (tables : CharTables) where
  open tables use {is_space, same_ignoring_case}

  -- The matched characters and the text behind them.
  abbrev pub match_word : List Char → List Char → Option Parts
  match_word [] text = some ([], text)
  match_word (w ∷ ws) [] = none
  match_word (w ∷ ws) (c ∷ text) =
      let rest = match_word ws text in
      if same_ignoring_case w c
      then elim rest [ none ↦ none | some (ms, t) ↦ some (c ∷ ms, t) ]
      else none

  -- `\s*`
  abbrev pub spaces : List Char → Parts
  spaces [] = ([], [])
  spaces (c ∷ text) =
      let (run, rest) = spaces text in if is_space c then (c ∷ run, rest) else ([], c ∷ text)

  -- `\s+`
  abbrev pub match_spaces : List Char → Option Parts
  match_spaces text =
      let (run, rest) = spaces text in if nonempty run then some (run, rest) else none

  infixl 5 ◌then_match◌
  abbrev pub ◌then_match◌ : {A B : Type 0} → Option A → (A → Option B) → Option B
  none then_match f = none
  some a then_match f = f a

  -- `(A|B|...)\s+`: the word and the text behind the spaces.
  abbrev pub match_algorithm : List String → List Char → Option Parts
  match_algorithm [] text = none
  match_algorithm (word ∷ words) text =
      let others = match_algorithm words text in
      let first = match_word (chars word) text then_match λ p.
      match_spaces p.1 then_match λ q. some (p.0, q.1) in
      elim first [ some found ↦ some found | none ↦ others ]

  -- `pattern.match` at the start of the text.
  unfoldable pub match_here : Pattern → List Char → Option Match
  match_here (or_clause keyword algorithms) text = match_word (chars keyword) text then_match λ k.
      match_spaces k.1 then_match λ s. match_word (chars "OR") s.1 then_match λ o.
      match_spaces o.1 then_match λ t. match_algorithm algorithms t.1 then_match λ a.
      some (record { group1 = k.0; group2 = a.0; after = a.1 })
  match_here replace_into text = match_word (chars "REPLACE") text then_match λ k.
      match_spaces k.1 then_match λ s. match_word (chars "INTO") s.1 then_match λ i.
      match_spaces i.1 then_match λ t.
      some (record { group1 = k.0; group2 = s.0 ++ (i.0 ++ t.0); after = t.1 })
  match_here update_keyword text = match_word (chars "UPDATE") text then_match λ k.
      match_spaces k.1 then_match λ s. some (record { group1 = k.0; group2 = []; after = s.1 })

  unfoldable pub first_match : Pattern → List Char → List ℕ → Option (ℕ × Match)
  unfolding match_here
  first_match pattern sql [] = none
  first_match pattern sql (index ∷ indexes) =
      let later = first_match pattern sql indexes in
      elim (match_here pattern (drop index sql)) [ some m ↦ some (index, m) | none ↦ later ]

  unfoldable pub top_level_pattern_match : Pattern → List Char → Option (ℕ × Match)
  unfolding first_match top_level_keyword_indexes
  top_level_pattern_match pattern sql =
      first_match pattern sql (top_level_keyword_indexes tables sql)
