-- ===== src/ConflictSyntax/Rewrite.antt =====
-- src/sqlite_conflict_resolution.py: what is stripped from a statement before it is parsed or
-- replayed, and put back.
use Prim.Native.Char.{Char}
use sqlite_reconcile.Prelude.{
  ℕ, ◌+◌, ◌-◌, String, Bool, true, false, not, ◌&&◌, ◌||◌, Option, none, some, List, [], ◌∷◌, ◌++◌,
  nat_beq, if◌then◌else◌, length, get_elem?, take, drop, nonempty, string_eq, nat_eq, list_eq,
  concat, join,
}
use sqlite_reconcile.ConflictSyntax.{
  ResolutionTarget, SqliteConflictResolution, CompatibleSql, StrictReplayRewrite, insert_target,
  update_target,
}
use sqlite_reconcile.ConflictSyntax.Characters.{
  chars, text_of, same_chars, starts_with_chars, identifier_char, upper_text, lstrip, rstrip,
  identifier_prefix, ends_with_semicolon, CharTables,
}
use sqlite_reconcile.ConflictSyntax.Scanner.{top_level_keyword_indexes}
use sqlite_reconcile.ConflictSyntax.Patterns.{
  insert_or_pattern, update_or_pattern, insert_or_rollback_pattern, update_or_rollback_pattern,
  reviewable_insert_or_pattern, reviewable_update_or_pattern, top_level_pattern_match, Pattern,
  Match, replace_into, update_keyword,
}

abbrev pub Stripped : Type 0
Stripped = List Char × Option SqliteConflictResolution

abbrev pub is_update_target : ResolutionTarget → Bool
is_update_target insert_target = false
is_update_target update_target = true

unfoldable pub resolution_label : SqliteConflictResolution → String
resolution_label r = concat (
    (elim r.target [ insert_target ↦ "INSERT" | update_target ↦ "UPDATE" ])
    ∷ " OR "
    ∷ r.algorithm
    ∷ [])

module _ (tables : CharTables) where
  abbrev pub resolution_of : Match → SqliteConflictResolution
  resolution_of m = record {
    target =
        if same_chars (upper_text tables m.group1) (chars "INSERT")
        then insert_target
        else update_target;
    algorithm = text_of (upper_text tables m.group2);
  }

  unfoldable pub remove_top_level_or_clause : List Char → Pattern → Stripped
  unfolding top_level_pattern_match
  remove_top_level_or_clause sql pattern = elim (top_level_pattern_match tables pattern sql) [
    | none ↦ (sql, none)
    | some (start, m) ↦
        (take start sql ++ ((m.group1 ++ chars " ") ++ m.after), some (resolution_of m))
  ]

  unfoldable pub insert_or_resolution : List Char → Option SqliteConflictResolution
  unfolding top_level_pattern_match
  insert_or_resolution sql = elim (top_level_pattern_match tables insert_or_pattern sql) [
    | none ↦ none
    | some (start, m) ↦
        some (record { target = insert_target; algorithm = text_of (upper_text tables m.group2) })
  ]

  -- `_normalize_top_level_replace_into` writes INSERT OR REPLACE, `_strip_top_level_replace_into`
  -- INSERT.
  abbrev pub rewrite_replace_into : String → List Char → Stripped
  rewrite_replace_into keyword sql = elim (top_level_pattern_match tables replace_into sql) [
    | none ↦ (sql, none)
    | some (start, m) ↦ (
      take start sql ++ ((chars keyword ++ m.group2) ++ m.after),
      some (record { target = insert_target; algorithm = "REPLACE" }),
    )
  ]

  unfoldable pub normalize_top_level_replace_into : List Char → Stripped
  unfolding top_level_pattern_match
  normalize_top_level_replace_into sql = rewrite_replace_into "INSERT OR REPLACE" sql

  unfoldable pub strip_top_level_replace_into : List Char → Stripped
  unfolding top_level_pattern_match
  strip_top_level_replace_into sql = rewrite_replace_into "INSERT" sql

  unfoldable pub starts_with_insert_like_statement : List Char → Bool
  starts_with_insert_like_statement sql =
      let upper = upper_text tables (lstrip tables sql) in
      starts_with_chars upper (chars "INSERT") || starts_with_chars upper (chars "WITH")

  -- `_keyword_at`; every index of the walk begins a word, but the test is made again.
  unfoldable pub keyword_at : List Char → ℕ → List Char → Bool
  keyword_at sql index keyword =
      let end = index + length keyword in
      let before = get_elem? sql (index - 1) in
      let behind = get_elem? sql end in
      same_chars (upper_text tables (take (length keyword) (drop index sql))) keyword
      && ((nat_beq index 0 || elim before [ none ↦ true | some c ↦ not (identifier_char tables c) ])
          && elim behind [ none ↦ true | some c ↦ not (identifier_char tables c) ])

  unfoldable pub next_keyword_after : List Char → ℕ → Option (List Char)
  next_keyword_after sql index =
      let word = identifier_prefix tables (lstrip tables (drop index sql)) in
      if nonempty word then some (upper_text tables word) else none

  abbrev pub is_conflict : Option (List Char) → Bool
  is_conflict none = false
  is_conflict (some word) = same_chars word (chars "CONFLICT")

  unfoldable pub on_conflict_among : List Char → List ℕ → Option ℕ
  unfolding keyword_at next_keyword_after
  on_conflict_among sql [] = none
  on_conflict_among sql (index ∷ indexes) =
      let later = on_conflict_among sql indexes in
      if keyword_at sql index (chars "ON") && is_conflict (next_keyword_after sql (index + 2))
      then some index
      else later

  unfoldable pub find_top_level_on_conflict : List Char → Option ℕ
  unfolding on_conflict_among top_level_keyword_indexes
  find_top_level_on_conflict sql = on_conflict_among sql (top_level_keyword_indexes tables sql)

  abbrev pub stripped_at : List Char → ℕ → List Char
  stripped_at sql index =
      let stripped = rstrip tables (take index sql) in
      if ends_with_semicolon (rstrip tables sql) then stripped ++ chars ";" else stripped

  unfoldable pub strip_top_level_upsert : List Char → Option (List Char)
  unfolding starts_with_insert_like_statement find_top_level_on_conflict
  strip_top_level_upsert sql =
      if starts_with_insert_like_statement sql
      then (elim (find_top_level_on_conflict sql) [
        | none ↦ none
        | some index ↦ some (stripped_at sql index)
      ])
      else none

  -- `without_upsert is not None and without_upsert != normalized`
  abbrev pub changed_by_upsert : List Char → Option (List Char)
  changed_by_upsert sql = elim (strip_top_level_upsert sql) [
    | none ↦ none
    | some rest ↦ (if same_chars rest sql then none else some rest)
  ]

  unfoldable pub normalize_sql_for_sqlglot : String → CompatibleSql
  unfolding remove_top_level_or_clause insert_or_resolution normalize_top_level_replace_into
      strip_top_level_upsert
  normalize_sql_for_sqlglot sql =
      let (update_normalized, update_resolution) =
        remove_top_level_or_clause (chars sql) update_or_pattern in
      let resolution : Option SqliteConflictResolution = elim update_resolution [
        | some r ↦ some r
        | none ↦ insert_or_resolution (chars sql)
      ] in
      let replaced : Stripped = elim resolution [
        | some r ↦ (update_normalized, some r)
        | none ↦ normalize_top_level_replace_into update_normalized
      ] in
      let (normalized, found) = replaced in
      elim (changed_by_upsert normalized) [
        | none ↦ record {
          sql = text_of normalized;
          conflict_resolution = found;
          stripped_upsert = false;
        }
        | some rest ↦ record {
          sql = text_of rest;
          conflict_resolution = found;
          stripped_upsert = true;
        }
      ]

  unfoldable pub parse_compatible_sql : String → String
  unfolding normalize_sql_for_sqlglot
  parse_compatible_sql sql = (normalize_sql_for_sqlglot sql).sql

  unfoldable pub neutralize_rollback_conflict_resolution : String → String
  unfolding remove_top_level_or_clause
  neutralize_rollback_conflict_resolution sql =
      let rewritten = (remove_top_level_or_clause (chars sql) insert_or_rollback_pattern).0 in
      text_of (remove_top_level_or_clause rewritten update_or_rollback_pattern).0

  abbrev pub labels_of : Option SqliteConflictResolution → List String
  labels_of none = []
  labels_of (some r) = resolution_label r ∷ []

  unfoldable pub strict_conflict_resolution_rewrite : String → Option StrictReplayRewrite
  unfolding remove_top_level_or_clause strip_top_level_replace_into strip_top_level_upsert
      resolution_label
  strict_conflict_resolution_rewrite sql =
      let (no_insert_or, insert_or) =
        remove_top_level_or_clause (chars sql) reviewable_insert_or_pattern in
      let (no_update_or, update_or) =
        remove_top_level_or_clause no_insert_or reviewable_update_or_pattern in
      let (no_replace, replace) = strip_top_level_replace_into no_update_or in
      let replace_label : List String = elim replace [ none ↦ [] | some r ↦ "REPLACE INTO" ∷ [] ] in
      let without = changed_by_upsert no_replace in
      let upsert_label : List String = elim without [ none ↦ [] | some rest ↦ "UPSERT" ∷ [] ] in
      let rewritten : List Char = elim without [ none ↦ no_replace | some rest ↦ rest ] in
      let labels =
        labels_of insert_or ++ (labels_of update_or ++ (replace_label ++ upsert_label)) in
      if nonempty labels
      then some (record { sql = text_of rewritten; label = join " / " labels })
      else none

  unfoldable pub restore_update_conflict_resolution :
      String → Option SqliteConflictResolution → String
  unfolding top_level_pattern_match
  restore_update_conflict_resolution sql none = sql
  restore_update_conflict_resolution sql (some r) =
      if is_update_target r.target
      then (elim (top_level_pattern_match tables update_keyword (chars sql)) [
        | none ↦ sql
        | some (start, m) ↦ text_of (
            take start (chars sql)
            ++ ((m.group1 ++ (chars " OR " ++ (chars r.algorithm ++ chars " "))) ++ m.after))
      ])
      else sql
