-- ===== src/ConflictSyntax/Matching.antt =====
-- The regular expressions of src/sqlite_conflict_resolution.py on words in capitals.
-- The conflict algorithms of SQLite, in the order in which the pattern tries them.
use Prim.Native.Char.{Char, code}
use sqlite_reconcile.Prelude.{
  String, ◌≡◌, refl, ap, ◌∙◌, Bool, true, false, not, ◌&&◌, none, some, List, [], ◌∷◌, ◌++◌, arith,
  leb, nonempty, all, string_eq, nat_eq, list_eq,
}
use sqlite_reconcile.ConflictSyntax.Characters.{chars, text_of, is_char, upper_text, CharTables}
use sqlite_reconcile.ConflictSyntax.Patterns.{
  conflict_algorithms, match_word, spaces, match_spaces, match_algorithm,
}

pub data Algorithm : Type 0 where
  rollback_algorithm abort_algorithm fail_algorithm ignore_algorithm replace_algorithm : Algorithm

abbrev pub algorithm_name : Algorithm → String
algorithm_name rollback_algorithm = "ROLLBACK"
algorithm_name abort_algorithm = "ABORT"
algorithm_name fail_algorithm = "FAIL"
algorithm_name ignore_algorithm = "IGNORE"
algorithm_name replace_algorithm = "REPLACE"

abbrev pub is_capital : Char → Bool
is_capital c = leb b'A' (code c) && leb (code c) b'Z'

-- What Python's tables say of the capital letters and the space of ASCII.
pub record AsciiLaws (tables : CharTables) : Type 0 where
  pub capital_alpha : (c : Char) → is_capital c ≡ true → tables.is_alpha c ≡ true
  pub capital_no_space : (c : Char) → is_capital c ≡ true → tables.is_space c ≡ false
  pub capital_upper : (c : Char) → is_capital c ≡ true → tables.upper c ≡ c ∷ []
  pub capital_self : (c : Char) → is_capital c ≡ true → tables.same_ignoring_case c c ≡ true
  pub capital_other :
      (c d : Char)
      → is_capital c ≡ true
      → is_capital d ≡ true
      → is_char (code c) d ≡ false
      → tables.same_ignoring_case c d ≡ false
  pub space_is_space : tables.is_space " " ≡ true

pub chars-text_of : (text : List Char) → chars (text_of text) ≡ text
chars-text_of [] = refl
chars-text_of (c ∷ rest) = ap (λ t. c ∷ t) (chars-text_of rest)

pub text_of-chars : (text : String) → text_of (chars text) ≡ text
text_of-chars String.[] = refl
text_of-chars (String.◌∷◌ c rest) = ap (λ t. String.◌∷◌ c t) (text_of-chars rest)

abbrev pub no_leading_space : CharTables → List Char → Bool
no_leading_space tables [] = true
no_leading_space tables (c ∷ rest) = not (tables.is_space c)

module _ (tables : CharTables) (laws : AsciiLaws tables) where
  pub match_word-append :
      (w text : List Char)
      → all is_capital w ≡ true
      → match_word tables w (w ++ text) ≡ some (w, text)
  match_word-append [] text h = refl
  match_word-append (c ∷ w) text h =
      let first : is_capital c ≡ true = ground arith in
      let more : all is_capital w ≡ true = ground arith in
      rw (laws.capital_self c first, match_word-append w text more) refl

  spaces-none :
      (text : List Char) → no_leading_space tables text ≡ true → spaces tables text ≡ ([], text)
  spaces-none [] h = refl
  spaces-none (c ∷ rest) h =
      let no_space : tables.is_space c ≡ false = ground arith in rw (no_space) refl

  pub match_spaces-one :
      (text : List Char)
      → no_leading_space tables text ≡ true
      → match_spaces tables (" " ∷ text) ≡ some (" " ∷ [], text)
  match_spaces-one text h = rw (laws.space_is_space, spaces-none text h) refl

  pub capital_start :
      (w text : List Char)
      → all is_capital w ≡ true
      → nonempty w ≡ true
      → no_leading_space tables (w ++ text) ≡ true
  capital_start [] text h k = cc
  capital_start (c ∷ w) text h k =
      let first : is_capital c ≡ true = ground arith in rw (laws.capital_no_space c first) refl

  pub upper_text-capitals : (w : List Char) → all is_capital w ≡ true → upper_text tables w ≡ w
  upper_text-capitals [] h = refl
  upper_text-capitals (c ∷ w) h =
      let first : is_capital c ≡ true = ground arith in
      let more : all is_capital w ≡ true = ground arith in
      rw (laws.capital_upper c first, upper_text-capitals w more) refl

  first_other :
      (c d : Char) (w text : List Char)
      → is_capital c ≡ true
      → is_capital d ≡ true
      → is_char (code c) d ≡ false
      → match_word tables (c ∷ w) (d ∷ text) ≡ none
  first_other c d w text h k n = rw (laws.capital_other c d h k n) refl

  algorithm-hit :
      (word : String) (words : List String) (text : List Char)
      → all is_capital (chars word) ≡ true
      → no_leading_space tables text ≡ true
      → match_algorithm tables (word ∷ words) (chars word ++ (" " ∷ text)) ≡ some (chars word, text)
  algorithm-hit word words text h n =
      rw (match_algorithm, match_word-append (chars word) (" " ∷ text) h, match_spaces-one text n)
        refl

  algorithm-miss :
      (word : String) (words : List String) (text : List Char)
      → match_word tables (chars word) text ≡ none
      → match_algorithm tables (word ∷ words) text ≡ match_algorithm tables words text
  algorithm-miss word words text h = rw (match_algorithm, h) refl

  pub match_algorithm-name :
      (a : Algorithm) (text : List Char)
      → no_leading_space tables text ≡ true
      → match_algorithm tables conflict_algorithms (chars (algorithm_name a) ++ (" " ∷ text))
        ≡ some (chars (algorithm_name a), text)
  match_algorithm-name rollback_algorithm text n =
      algorithm-hit "ROLLBACK" ("ABORT" ∷ "FAIL" ∷ "IGNORE" ∷ "REPLACE" ∷ []) text refl n
  match_algorithm-name abort_algorithm text n =
      algorithm-miss "ROLLBACK" ("ABORT" ∷ "FAIL" ∷ "IGNORE" ∷ "REPLACE" ∷ [])
        (chars "ABORT" ++ (" " ∷ text))
        (first_other "R" "A" (chars "OLLBACK") (chars "BORT" ++ (" " ∷ text)) refl refl refl)
      ∙ algorithm-hit "ABORT" ("FAIL" ∷ "IGNORE" ∷ "REPLACE" ∷ []) text refl n
  match_algorithm-name fail_algorithm text n =
      algorithm-miss "ROLLBACK" ("ABORT" ∷ "FAIL" ∷ "IGNORE" ∷ "REPLACE" ∷ [])
        (chars "FAIL" ++ (" " ∷ text))
        (first_other "R" "F" (chars "OLLBACK") (chars "AIL" ++ (" " ∷ text)) refl refl refl)
      ∙ algorithm-miss "ABORT" ("FAIL" ∷ "IGNORE" ∷ "REPLACE" ∷ []) (chars "FAIL" ++ (" " ∷ text))
          (first_other "A" "F" (chars "BORT") (chars "AIL" ++ (" " ∷ text)) refl refl refl)
      ∙ algorithm-hit "FAIL" ("IGNORE" ∷ "REPLACE" ∷ []) text refl n
  match_algorithm-name ignore_algorithm text n =
      algorithm-miss "ROLLBACK" ("ABORT" ∷ "FAIL" ∷ "IGNORE" ∷ "REPLACE" ∷ [])
        (chars "IGNORE" ++ (" " ∷ text))
        (first_other "R" "I" (chars "OLLBACK") (chars "GNORE" ++ (" " ∷ text)) refl refl refl)
      ∙ algorithm-miss "ABORT" ("FAIL" ∷ "IGNORE" ∷ "REPLACE" ∷ []) (chars "IGNORE" ++ (" " ∷ text))
          (first_other "A" "I" (chars "BORT") (chars "GNORE" ++ (" " ∷ text)) refl refl refl)
      ∙ algorithm-miss "FAIL" ("IGNORE" ∷ "REPLACE" ∷ []) (chars "IGNORE" ++ (" " ∷ text))
          (first_other "F" "I" (chars "AIL") (chars "GNORE" ++ (" " ∷ text)) refl refl refl)
      ∙ algorithm-hit "IGNORE" ("REPLACE" ∷ []) text refl n
  match_algorithm-name replace_algorithm text n =
      algorithm-miss "ROLLBACK" ("ABORT" ∷ "FAIL" ∷ "IGNORE" ∷ "REPLACE" ∷ [])
        (chars "REPLACE" ++ (" " ∷ text))
        (rw (laws.capital_self "R" refl, laws.capital_other "O" "E" refl refl refl) refl)
      ∙ algorithm-miss "ABORT" ("FAIL" ∷ "IGNORE" ∷ "REPLACE" ∷ [])
          (chars "REPLACE" ++ (" " ∷ text))
          (first_other "A" "R" (chars "BORT") (chars "EPLACE" ++ (" " ∷ text)) refl refl refl)
      ∙ algorithm-miss "FAIL" ("IGNORE" ∷ "REPLACE" ∷ []) (chars "REPLACE" ++ (" " ∷ text))
          (first_other "F" "R" (chars "AIL") (chars "EPLACE" ++ (" " ∷ text)) refl refl refl)
      ∙ algorithm-miss "IGNORE" ("REPLACE" ∷ []) (chars "REPLACE" ++ (" " ∷ text))
          (first_other "I" "R" (chars "GNORE") (chars "EPLACE" ++ (" " ∷ text)) refl refl refl)
      ∙ algorithm-hit "REPLACE" [] text refl n

  pub capital_name : (a : Algorithm) → all is_capital (chars (algorithm_name a)) ≡ true
  capital_name rollback_algorithm = refl
  capital_name abort_algorithm = refl
  capital_name fail_algorithm = refl
  capital_name ignore_algorithm = refl
  capital_name replace_algorithm = refl

  pub nonempty_name : (a : Algorithm) → nonempty (chars (algorithm_name a)) ≡ true
  nonempty_name rollback_algorithm = refl
  nonempty_name abort_algorithm = refl
  nonempty_name fail_algorithm = refl
  nonempty_name ignore_algorithm = refl
  nonempty_name replace_algorithm = refl
