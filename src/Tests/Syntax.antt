-- ===== src/Tests/Syntax.antt =====
-- Conflict-resolution syntax on concrete statements.
use Prim.Native.Char.{Char, code}
use sqlite_reconcile.Prelude.{
  ℕ, ◌-◌, ◌<◌, ◌≡◌, refl, Bool, true, false, ◌&&◌, ◌||◌, some, [], ◌∷◌, arith, leb, nat_beq,
  if◌then◌else◌, length, string_eq, nat_eq, contains, list_eq,
}
use sqlite_reconcile.ConflictSyntax.{update_target}
use sqlite_reconcile.ConflictSyntax.Characters.{chars, text_of, CharTables}
use sqlite_reconcile.ConflictSyntax.Scanner.{initial, indexes_from, top_level_keyword_indexes}
use sqlite_reconcile.ConflictSyntax.Patterns.{update_or_pattern}
use sqlite_reconcile.ConflictSyntax.Rewrite.{
  remove_top_level_or_clause, normalize_sql_for_sqlglot, neutralize_rollback_conflict_resolution,
  strict_conflict_resolution_rewrite, restore_update_conflict_resolution,
}
use sqlite_reconcile.ConflictSyntax.Bounds.{begins_word, top_level_keyword_indexes-bounds}
use sqlite_reconcile.ConflictSyntax.Literals.{behind, indexes_from-literal}
use sqlite_reconcile.ConflictSyntax.Matching.{AsciiLaws, ignore_algorithm}
use sqlite_reconcile.ConflictSyntax.Restore.{restore-remove}

abbrev within : ℕ → ℕ → ℕ → Bool
within low high n = leb low n && leb n high

abbrev ascii_alpha : Char → Bool
ascii_alpha c = within b'a' b'z' (code c) || within b'A' b'Z' (code c)

abbrev fold : ℕ → ℕ
fold n = if within b'a' b'z' n then n - 32 else n

-- The tables on ASCII; no character of the tests changes under `upper`.
abbrev pub ascii : CharTables
ascii = record {
  is_alpha = ascii_alpha;
  is_alnum = λ c. ascii_alpha c || within b'0' b'9' (code c);
  is_space = λ c. nat_beq (code c) 32 || within 9 13 (code c);
  upper = λ c. c ∷ [];
  same_ignoring_case = λ a b. nat_beq (fold (code a)) (fold (code b));
}

indexes_test : top_level_keyword_indexes ascii (chars "A 'B' [C] (D) -- E") ≡ 0 ∷ []
unfolding top_level_keyword_indexes
indexes_test = refl

neutralize_test :
    neutralize_rollback_conflict_resolution ascii "INSERT or  ROLLBACK INTO t VALUES ('x')"
    ≡ "INSERT INTO t VALUES ('x')"
unfolding neutralize_rollback_conflict_resolution
neutralize_test = refl

strict_test :
    strict_conflict_resolution_rewrite ascii "INSERT INTO t VALUES (1) ON CONFLICT DO NOTHING;"
    ≡ some (record { sql = "INSERT INTO t VALUES (1);"; label = "UPSERT" })
unfolding strict_conflict_resolution_rewrite
strict_test = refl

strict_replace_test :
    strict_conflict_resolution_rewrite ascii "REPLACE INTO t VALUES (1)"
    ≡ some (record { sql = "INSERT INTO t VALUES (1)"; label = "REPLACE INTO" })
unfolding strict_conflict_resolution_rewrite
strict_replace_test = refl

normalize_test : normalize_sql_for_sqlglot ascii "UPDATE OR IGNORE t SET x = 1" ≡ record {
  sql = "UPDATE t SET x = 1";
  conflict_resolution = some (record { target = update_target; algorithm = "IGNORE" });
  stripped_upsert = false;
}
unfolding normalize_sql_for_sqlglot
normalize_test = refl

restore_test :
    restore_update_conflict_resolution ascii "UPDATE t SET x = 1"
      (some (record { target = update_target; algorithm = "IGNORE" }))
    ≡ "UPDATE OR IGNORE t SET x = 1"
unfolding restore_update_conflict_resolution
restore_test = refl

found_at_start : contains (top_level_keyword_indexes ascii (chars "UPDATE t")) 0 ≡ true
unfolding top_level_keyword_indexes
found_at_start = refl

top_level_keyword_indexes-bounds_example :
    (0 < length (chars "UPDATE t")) × (begins_word ascii false (chars "UPDATE t") 0 ≡ true)
top_level_keyword_indexes-bounds_example =
    top_level_keyword_indexes-bounds ascii (chars "UPDATE t") 0 found_at_start

indexes_from-literal_example :
    indexes_from ascii initial 0 (chars "'a(b'x")
    ≡ indexes_from ascii (behind ascii initial "'") 5 (chars "x")
indexes_from-literal_example =
    indexes_from-literal ascii initial 0 "'" "'" (chars "a(b") (chars "x") refl refl refl refl refl
      refl

ascii_laws : AsciiLaws ascii
ascii_laws = record {
  capital_alpha = λ c h. ground arith;
  capital_no_space = λ c h. ground arith;
  capital_upper = λ c h. refl;
  capital_self = λ c h. ground arith;
  capital_other = λ c d h k n. ground arith;
  space_is_space = refl;
}

restore-remove_example :
    restore_update_conflict_resolution ascii
      (text_of
        (remove_top_level_or_clause ascii
          (chars "UPDATE OR IGNORE t SET x = 1")
          update_or_pattern).0)
      (remove_top_level_or_clause ascii (chars "UPDATE OR IGNORE t SET x = 1") update_or_pattern).1
    ≡ "UPDATE OR IGNORE t SET x = 1"
restore-remove_example = restore-remove ascii ascii_laws ignore_algorithm (chars "t SET x = 1") refl
