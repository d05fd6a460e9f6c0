-- ===== src/ConflictSyntax/Restore.antt =====
-- UPDATE OR ...: what is stripped before parsing is put back as it was.
use mathlib.Core.Path.{subst}
use Prim.Native.Char.{Char}
use mathlib.Core.List.{append_assoc}
use sqlite_reconcile.Prelude.{
  ℕ, String, ◌≡◌, refl, sym, ap, ◌∙◌, true, Option, some, List, [], ◌∷◌, ◌++◌, string_eq, nat_eq,
  list_eq,
}
use sqlite_reconcile.ConflictSyntax.{update_target}
use sqlite_reconcile.ConflictSyntax.Characters.{chars, text_of, head_of, CharTables}
use sqlite_reconcile.ConflictSyntax.Scanner.{initial, step, indexes_from, top_level_keyword_indexes}
use sqlite_reconcile.ConflictSyntax.Patterns.{
  update_or_pattern, match_here, first_match, top_level_pattern_match, Pattern, Match,
  update_keyword,
}
use sqlite_reconcile.ConflictSyntax.Rewrite.{
  resolution_of, remove_top_level_or_clause, restore_update_conflict_resolution,
}
use sqlite_reconcile.ConflictSyntax.Matching.{
  algorithm_name, chars-text_of, text_of-chars, no_leading_space, match_word-append,
  match_spaces-one, capital_start, upper_text-capitals, match_algorithm-name, capital_name,
  nonempty_name, Algorithm, AsciiLaws,
}

module _ (tables : CharTables) (laws : AsciiLaws tables) where
  -- UPDATE OR, an algorithm and the rest of a statement.
  abbrev pub update_or : Algorithm → List Char → List Char
  update_or a rest = chars "UPDATE OR " ++ (chars (algorithm_name a) ++ (" " ∷ rest))

  match_update_or :
      (a : Algorithm) (rest : List Char)
      → no_leading_space tables rest ≡ true
      → match_here tables update_or_pattern (update_or a rest)
        ≡ some (record { group1 = chars "UPDATE"; group2 = chars (algorithm_name a); after = rest })
  unfolding match_here
  match_update_or a rest n =
      let name = chars (algorithm_name a) ++ (" " ∷ rest) in
      rw
        (
          match_word-append tables laws (chars "UPDATE") (" " ∷ (chars "OR" ++ (" " ∷ name))) refl,
          match_spaces-one tables laws (chars "OR" ++ (" " ∷ name))
              (capital_start tables laws (chars "OR") (" " ∷ name) refl refl),
          match_word-append tables laws (chars "OR") (" " ∷ name) refl,
          match_spaces-one tables laws name (
              capital_start tables laws (chars (algorithm_name a)) (" " ∷ rest)
                (capital_name tables laws a) (nonempty_name tables laws a)),
          match_algorithm-name tables laws a rest n,
        )
        refl

  match_update :
      (rest : List Char)
      → no_leading_space tables rest ≡ true
      → match_here tables update_keyword (chars "UPDATE " ++ rest)
        ≡ some (record { group1 = chars "UPDATE"; group2 = []; after = rest })
  unfolding match_here
  match_update rest n =
      rw
        (
          match_word-append tables laws (chars "UPDATE") (" " ∷ rest) refl,
          match_spaces-one tables laws rest n,
        )
        refl

  starts_at_zero : (next : Option Char) → (step tables initial "U" next).1 ≡ true
  unfolding step
  starts_at_zero next = rw (laws.capital_alpha "U" refl) refl

  indexes-start :
      (text : List Char) → (rest : List ℕ) × (indexes_from tables initial 0 ("U" ∷ text) ≡ 0 ∷ rest)
  unfolding indexes_from
  indexes-start text = (
    indexes_from tables (step tables initial "U" (head_of text)).0 1 text,
    rw (starts_at_zero (head_of text)) refl,
  )

  first_match-here :
      (pattern : Pattern) (sql : List Char) (indexes : List ℕ) (m : Match)
      → match_here tables pattern sql ≡ some m
      → first_match tables pattern sql (0 ∷ indexes) ≡ some (0, m)
  unfolding first_match
  first_match-here pattern sql indexes m h = rw (first_match, h) refl

  -- A text that begins with UPDATE has its first top-level word at 0.
  first_index :
      (pattern : Pattern) (text : List Char) (m : Match)
      → match_here tables pattern ("U" ∷ text) ≡ some m
      → top_level_pattern_match tables pattern ("U" ∷ text) ≡ some (0, m)
  unfolding top_level_pattern_match top_level_keyword_indexes
  first_index pattern text m h =
      let (rest, e) = indexes-start text in rw e (first_match-here pattern ("U" ∷ text) rest m h)

  removed_at_zero :
      (pattern : Pattern) (sql : List Char) (m : Match)
      → top_level_pattern_match tables pattern sql ≡ some (0, m)
      → remove_top_level_or_clause tables sql pattern
        ≡ ((m.group1 ++ chars " ") ++ m.after, some (resolution_of tables m))
  unfolding remove_top_level_or_clause
  removed_at_zero pattern sql m h = rw (remove_top_level_or_clause, h) refl

  update_match : Algorithm → List Char → Match
  update_match a rest = record {
    group1 = chars "UPDATE";
    group2 = chars (algorithm_name a);
    after = rest;
  }

  resolution_found :
      (a : Algorithm) (rest : List Char)
      → resolution_of tables (update_match a rest)
        ≡ record { target = update_target; algorithm = algorithm_name a }
  unfolding update_match
  resolution_found a rest =
      rw
        (
          upper_text-capitals tables laws (chars (algorithm_name a)) (capital_name tables laws a),
          text_of-chars (algorithm_name a),
          upper_text-capitals tables laws (chars "UPDATE") refl,
        )
        refl

  removed :
      (a : Algorithm) (rest : List Char)
      → no_leading_space tables rest ≡ true
      → remove_top_level_or_clause tables (update_or a rest) update_or_pattern ≡ (
        chars "UPDATE " ++ rest,
        some (record { target = update_target; algorithm = algorithm_name a }),
      )
  unfolding update_match
  removed a rest n =
      removed_at_zero update_or_pattern (update_or a rest) (update_match a rest)
        (first_index update_or_pattern _ _ (match_update_or a rest n))
      ∙ ap (λ r. (chars "UPDATE " ++ rest, some r)) (resolution_found a rest)

  restored_at_zero :
      (sql : String) (m : Match) (name : String)
      → top_level_pattern_match tables update_keyword (chars sql) ≡ some (0, m)
      → restore_update_conflict_resolution tables sql
          (some (record { target = update_target; algorithm = name }))
        ≡ text_of ((m.group1 ++ (chars " OR " ++ (chars name ++ chars " "))) ++ m.after)
  unfolding restore_update_conflict_resolution
  restored_at_zero sql m name h = rw (restore_update_conflict_resolution, h) refl

  -- What is stripped from UPDATE OR before a statement is parsed is put back as it was: removing
  -- the clause and restoring it from the resolution that was found gives the statement again, for
  -- each of the five algorithms, where the words stand one space apart and in capitals at the
  -- start of the statement and no further space follows, and the tables of characters are those
  -- of ASCII on capitals and the space.
  pub restore-remove :
      (a : Algorithm) (rest : List Char)
      → no_leading_space tables rest ≡ true
      → restore_update_conflict_resolution tables
          (text_of (remove_top_level_or_clause tables (update_or a rest) update_or_pattern).0)
          (remove_top_level_or_clause tables (update_or a rest) update_or_pattern).1
        ≡ text_of (update_or a rest)
  restore-remove a rest n =
      let update_text : Match = record { group1 = chars "UPDATE"; group2 = []; after = rest } in
      rw (removed a rest n) (
        restored_at_zero (text_of (chars "UPDATE " ++ rest)) update_text (algorithm_name a) (
          subst (λ t. top_level_pattern_match tables update_keyword t ≡ some (0, update_text))
            (sym (chars-text_of (chars "UPDATE " ++ rest)))
            (first_index update_keyword _ update_text (match_update rest n)))
        ∙ ap (λ t. text_of (chars "UPDATE OR " ++ t))
            (append_assoc (chars (algorithm_name a)) (" " ∷ []) rest))
