-- ===== src/ConflictSyntax/Literals.antt =====
-- The walk over SQL text sees nothing of a string literal.
use Prim.Native.Char.{Char}
use sqlite_reconcile.Prelude.{
  ℕ, suc, ◌+◌, ◌≡◌, refl, ap, ◌∙◌, Bool, true, false, not, ◌&&◌, Option, List, [], ◌∷◌, ◌++◌, arith,
  length, string_eq, nat_eq, list_eq,
}
use sqlite_reconcile.ConflictSyntax.Characters.{
  is_char, is_next, head_of, identifier_char, CharTables,
}
use sqlite_reconcile.ConflictSyntax.Scanner.{
  code_mode, stay, mode_step, step, indexes_from, ScanState, plain, quoted,
}
use sqlite_reconcile.ConflictSyntax.Bounds.{step-read}

module _ (tables : CharTables) where
  -- The walk inside a quoted text, and in code behind a character.
  abbrev pub inside : ScanState → ℕ → Char → ScanState
  inside st q c = record {
    depth = st.depth;
    mode = quoted q;
    skips = false;
    after_identifier = identifier_char tables c;
  }

  abbrev pub behind : ScanState → Char → ScanState
  behind st c = record {
    depth = st.depth;
    mode = plain;
    skips = false;
    after_identifier = identifier_char tables c;
  }

  -- No character of the text is the quote.
  abbrev pub without_quote : ℕ → List Char → Bool
  without_quote q [] = true
  without_quote q (c ∷ rest) = not (is_char q c) && without_quote q rest

  quoted-close :
      (body : List Char) (q : ℕ) (st : ScanState) (i : ℕ) (close : Char) (rest : List Char)
      → st.mode ≡ quoted q
      → st.skips ≡ false
      → without_quote q body ≡ true
      → is_char q close ≡ true
      → is_next q (head_of rest) ≡ false
      → indexes_from tables st i (body ++ close ∷ rest)
        ≡ indexes_from tables (behind st close) (i + length body + 1) rest
  unfolding indexes_from
  quoted-close [] q st i close rest m k b h n =
      let read : step tables st close (head_of rest) ≡ stay tables st close plain false =
        step-read tables st close (head_of rest) k ∙ rw (m, mode_step, h, n) refl in
      rw read (ap (λ j. indexes_from tables (behind st close) j rest) (omega arith))
  quoted-close (c ∷ body) q st i close rest m k b h n =
      let next = head_of (body ++ close ∷ rest) in
      let other : is_char q c ≡ false = ground arith in
      let more : without_quote q body ≡ true = ground arith in
      let read : step tables st c next ≡ stay tables st c (quoted q) false =
        step-read tables st c next k ∙ rw (m, mode_step, other) refl in
      rw read (
        quoted-close body q (inside st q c) (suc i) close rest refl refl more h n
        ∙ ap (λ j. indexes_from tables (behind st close) j rest) (omega arith))

  code_mode-quote :
      (st : ScanState) (c : Char) (next : Option Char)
      → is_char b'\'' c ≡ true
      → code_mode tables st c next ≡ (quoted b'\'', false)
  code_mode-quote st c next h =
      let dash : is_char b'-' c ≡ false = ground arith in
      let slash : is_char b'/' c ≡ false = ground arith in rw (dash, slash, h) refl

  opens :
      (st : ScanState) (c : Char) (next : Option Char)
      → st.mode ≡ plain
      → st.skips ≡ false
      → is_char b'\'' c ≡ true
      → step tables st c next ≡ stay tables st c (quoted b'\'') false
  opens st c next m k h =
      step-read tables st c next k ∙ rw (m, mode_step, code_mode-quote _ c next h) refl

  -- From a place of code the walk goes past a string literal, which stands between single quotes
  -- with none inside and none behind it, without stopping in it: it stops where it does from the
  -- character behind the literal on, at the depth of brackets that it had, whatever the literal
  -- holds.
  pub indexes_from-literal :
      (st : ScanState) (i : ℕ) (open_quote close : Char) (body rest : List Char)
      → st.mode ≡ plain
      → st.skips ≡ false
      → is_char b'\'' open_quote ≡ true
      → without_quote b'\'' body ≡ true
      → is_char b'\'' close ≡ true
      → is_next b'\'' (head_of rest) ≡ false
      → indexes_from tables st i (open_quote ∷ (body ++ close ∷ rest))
        ≡ indexes_from tables (behind st close) (i + length body + 2) rest
  unfolding indexes_from
  indexes_from-literal st i open_quote close body rest m k o b h n =
      rw (opens st open_quote (head_of (body ++ close ∷ rest)) m k o) (
        quoted-close body b'\'' (inside st b'\'' open_quote) (suc i) close rest refl refl b h n
        ∙ ap (λ j. indexes_from tables (behind st close) j rest) (omega arith))
