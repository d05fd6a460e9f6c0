-- ===== src/ConflictSyntax/Characters.antt =====
-- src/sqlite_conflict_resolution.py: the characters of SQL text. Python's Unicode tables are not
-- part of the repository, so what the scanner asks of them is a parameter.
use Prim.Native.Char.{Char, code}
use sqlite_reconcile.Prelude.{
  ℕ, String, Bool, true, false, ◌&&◌, ◌||◌, Option, none, some, List, [], ◌∷◌, ◌++◌, nat_beq,
  if◌then◌else◌, string_eq, nat_eq, list_eq,
}

pub record CharTables : Type 0 where
  -- `str.isalpha`, `str.isalnum` and `str.isspace` of one character
  pub is_alpha : Char → Bool
  pub is_alnum : Char → Bool
  pub is_space : Char → Bool
  -- `str.upper` of one character, which may give several
  pub upper : Char → List Char
  -- equality under `re.IGNORECASE`
  pub same_ignoring_case : Char → Char → Bool

abbrev pub chars : String → List Char
chars String.[] = []
chars (String.◌∷◌ c rest) = c ∷ chars rest

abbrev pub text_of : List Char → String
text_of [] = ""
text_of (c ∷ rest) = String.◌∷◌ c (text_of rest)

abbrev pub is_char : ℕ → Char → Bool
is_char n c = nat_beq (code c) n

abbrev pub is_next : ℕ → Option Char → Bool
is_next n none = false
is_next n (some c) = is_char n c

abbrev pub same_chars : List Char → List Char → Bool
same_chars [] [] = true
same_chars (c ∷ cs) (d ∷ ds) = is_char (code d) c && same_chars cs ds
same_chars _ _ = false

abbrev pub starts_with_chars : List Char → List Char → Bool
starts_with_chars text [] = true
starts_with_chars [] (d ∷ ds) = false
starts_with_chars (c ∷ cs) (d ∷ ds) = is_char (code d) c && starts_with_chars cs ds

abbrev pub head_of : List Char → Option Char
head_of [] = none
head_of (c ∷ rest) = some c

module _ (tables : CharTables) where
  open tables use {is_alnum, is_space, upper}

  -- `_identifier_char`
  abbrev pub identifier_char : Char → Bool
  identifier_char c = is_alnum c || is_char b'_' c

  -- `text.upper()`
  abbrev pub upper_text : List Char → List Char
  upper_text [] = []
  upper_text (c ∷ rest) = upper c ++ upper_text rest

  -- `text.lstrip()`
  abbrev pub lstrip : List Char → List Char
  lstrip [] = []
  lstrip (c ∷ rest) = if is_space c then lstrip rest else c ∷ rest

  -- `text.rstrip()`
  abbrev pub rstrip : List Char → List Char
  rstrip [] = []
  rstrip (c ∷ rest) =
      let tail = rstrip rest in
      elim tail [ [] ↦ (if is_space c then [] else c ∷ []) | d ∷ ds ↦ c ∷ d ∷ ds ]

  -- The characters up to the first that is not an identifier character.
  abbrev pub identifier_prefix : List Char → List Char
  identifier_prefix [] = []
  identifier_prefix (c ∷ rest) = if identifier_char c then c ∷ identifier_prefix rest else []

-- `text.endswith(";")`
abbrev pub ends_with_semicolon : List Char → Bool
ends_with_semicolon [] = false
ends_with_semicolon (c ∷ []) = is_char b';' c
ends_with_semicolon (c ∷ d ∷ rest) = ends_with_semicolon (d ∷ rest)
