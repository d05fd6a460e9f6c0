-- ===== src/ConflictSyntax/Bounds.antt =====
-- Where the walk over SQL text stops: only at places inside the text where a word begins.
use Prim.Native.Char.{Char}
use sqlite_reconcile.Prelude.{
  ℕ, zero, suc, ◌+◌, ◌<◌, ◌≡◌, refl, sym, ap, ◌∙◌, inl, inr, Bool, true, false, not, ◌&&◌, ◌||◌,
  Option, List, [], ◌∷◌, arith, nat_beq_iff, Bool-cases, length, string_eq, nat_eq, ◌==◌, contains,
  list_eq,
}
use sqlite_reconcile.ConflictSyntax.Characters.{is_char, head_of, identifier_char, CharTables}
use sqlite_reconcile.ConflictSyntax.Scanner.{
  initial, code_step, stay, mode_step, step, indexes_from, top_level_keyword_indexes, Mode,
  ScanState, plain, in_word, line_comment, block_comment, bracketed, quoted,
}

module _ (tables : CharTables) where
  open tables use {is_alpha}

  -- Whether a word begins at a place of the text; `after` tells it of the character before.
  abbrev pub begins_word : Bool → List Char → ℕ → Bool
  begins_word after [] k = false
  begins_word after (c ∷ rest) zero = (is_alpha c || is_char b'_' c) && not after
  begins_word after (c ∷ rest) (suc k) = begins_word (identifier_char tables c) rest k

  code_step-begins :
      (st : ScanState) (c : Char) (next : Option Char)
      → (code_step tables st c next).1 ≡ true
      → ((is_alpha c || is_char b'_' c) && not st.after_identifier) ≡ true
  code_step-begins st c next h = ground arith

  mode_step-begins :
      (mode : Mode) (st : ScanState) (c : Char) (next : Option Char)
      → (mode_step tables mode st c next).1 ≡ true
      → ((is_alpha c || is_char b'_' c) && not st.after_identifier) ≡ true
  mode_step-begins line_comment st c next h = cc
  mode_step-begins block_comment st c next h = ground arith
  mode_step-begins bracketed st c next h = cc
  mode_step-begins (quoted q) st c next h = ground arith
  mode_step-begins in_word st c next h = ground (arith, code_step-begins st c next)
  mode_step-begins plain st c next h = code_step-begins st c next h

  pub step-read :
      (st : ScanState) (c : Char) (next : Option Char)
      → st.skips ≡ false
      → step tables st c next ≡ mode_step tables st.mode st c next
  unfolding step
  step-read st c next h = rw h refl

  pub step-skipped :
      (st : ScanState) (c : Char) (next : Option Char)
      → st.skips ≡ true
      → step tables st c next ≡ stay tables st c st.mode false
  unfolding step
  step-skipped st c next h = rw h refl

  step-begins :
      (st : ScanState) (c : Char) (next : Option Char)
      → (step tables st c next).1 ≡ true
      → ((is_alpha c || is_char b'_' c) && not st.after_identifier) ≡ true
  step-begins st c next h = elim (Bool-cases st.skips) [
    | inl s ↦ cc (step-skipped st c next s)
    | inr s ↦ mode_step-begins st.mode st c next (ap (λ x. x.1) (sym (step-read st c next s)) ∙ h)
  ]

  mode_step-after :
      (mode : Mode) (st : ScanState) (c : Char) (next : Option Char)
      → (mode_step tables mode st c next).0.after_identifier ≡ identifier_char tables c
  mode_step-after line_comment st c next = refl
  mode_step-after block_comment st c next = ground arith
  mode_step-after bracketed st c next = refl
  mode_step-after (quoted q) st c next = ground arith
  mode_step-after in_word st c next = ground arith
  mode_step-after plain st c next = refl

  pub step-after :
      (st : ScanState) (c : Char) (next : Option Char)
      → (step tables st c next).0.after_identifier ≡ identifier_char tables c
  step-after st c next = elim (Bool-cases st.skips) [
    | inl s ↦ ap (λ x. x.0.after_identifier) (step-skipped st c next s)
    | inr s ↦
        ap (λ x. x.0.after_identifier) (step-read st c next s) ∙ mode_step-after st.mode st c next
  ]

  -- The place of `j` in a text that begins at index `i`, where a word begins.
  abbrev pub WordAt : Bool → List Char → ℕ → ℕ → Type 0
  WordAt after text i j = (k : ℕ) × (j ≡ i + k) × (begins_word after text k ≡ true)

  shifted :
      (after : Bool) (c : Char) (rest : List Char) (i j : ℕ)
      → WordAt (identifier_char tables c) rest (suc i) j
      → WordAt after (c ∷ rest) i j
  shifted after c rest i j (k, e, h) = (suc k, omega arith, h)

  indexes_from-WordAt :
      (text : List Char) (st : ScanState) (i j : ℕ)
      → contains (indexes_from tables st i text) j ≡ true
      → WordAt st.after_identifier text i j
  unfolding indexes_from
  indexes_from-WordAt [] st i j h = cc
  indexes_from-WordAt (c ∷ rest) st i j h =
      let next = head_of rest in
      let later =
        λ (g : contains (indexes_from tables (step tables st c next).0 (suc i) rest) j ≡ true).
          shifted st.after_identifier c rest i j (
            rw (← step-after st c next)
              (indexes_from-WordAt rest (step tables st c next).0 (suc i) j g)) in
      elim (Bool-cases (step tables st c next).1) [
        | inl y ↦ (elim (Bool-cases (i == j)) [
          | inl same ↦ (0, omega (arith, (nat_beq_iff i j).0 same), step-begins st c next y)
          | inr other ↦ later (rw other at (rw y at h))
        ])
        | inr n ↦ later (rw n at h)
      ]

  begins_word-lt :
      (after : Bool) (text : List Char) (k : ℕ) → begins_word after text k ≡ true → k < length text
  begins_word-lt after [] k h = cc
  begins_word-lt after (c ∷ rest) zero h = omega arith
  begins_word-lt after (c ∷ rest) (suc k) h =
      omega (arith, begins_word-lt (identifier_char tables c) rest k h)

  -- Every index at which the walk over a statement stops lies in the text, a letter or an
  -- underscore stands there, and the character before, if there is one, belongs to no identifier.
  pub top_level_keyword_indexes-bounds :
      (sql : List Char) (j : ℕ)
      → contains (top_level_keyword_indexes tables sql) j ≡ true
      → (j < length sql) × (begins_word false sql j ≡ true)
  unfolding top_level_keyword_indexes
  top_level_keyword_indexes-bounds sql j h =
      let (k, e, begins) = indexes_from-WordAt sql initial 0 j h in
      let same : j ≡ k = omega arith in rw same (begins_word-lt false sql k begins, begins)
