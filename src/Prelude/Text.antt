-- ===== src/Prelude/Text.antt =====
-- Formatted text, and signed integers as far as labels need them.
use Prim.Native.Nat.{ℕ, zero, suc, ◌-◌, ◌/◌, ◌%◌}
use Prim.Native.String.{String, ◌++◌ as append}
use mathlib.Core.Path.{◌≡◌, refl}
use mathlib.Core.Bool.{Bool, true, false}
use mathlib.Core.List.{List, [], ◌∷◌}
use text.Mathlib.Text.{starts_with, find?}
use mathlib.Core.Option.{some, none}
use sqlite_reconcile.Prelude.Tests.{ltb, nat_beq, if◌then◌else◌}

-- `negsuc n` is -(n + 1).
pub data ℤ : Type 0 where
  pos : ℕ → ℤ
  negsuc : ℕ → ℤ

abbrev pub is_negative : ℤ → Bool
is_negative (pos n) = false
is_negative (negsuc n) = true

-- `abs(n)`
abbrev pub abs : ℤ → ℕ
abs (pos n) = n
abs (negsuc n) = suc n

-- An f-string: its parts, one behind the other.
abbrev pub concat : List String → String
concat [] = ""
concat (s ∷ parts) = append s (concat parts)

-- `sep.join(parts)`
abbrev pub join : String → List String → String
join sep [] = ""
join sep (s ∷ []) = s
join sep (s ∷ t ∷ parts) = append s (append sep (join sep (t ∷ parts)))

-- `part in text`
abbrev pub is_substring : String → String → Bool
is_substring part text = elim (find? text part) [ some place ↦ true | none ↦ false ]

abbrev pub text_length : String → ℕ
text_length String.[] = 0
text_length (String.◌∷◌ c rest) = suc (text_length rest)

-- `text.replace(old, new)` for a nonempty `old`: the walk past a match skips its other characters.
replace_from : String → String → ℕ → String → String
replace_from old new skip String.[] = ""
replace_from old new skip (String.◌∷◌ c rest) =
    let here = nat_beq skip 0 in
    let hit = starts_with (String.◌∷◌ c rest) old in
    let next = if here then (if hit then text_length old - 1 else 0) else skip - 1 in
    let written = if here then (if hit then new else String.◌∷◌ c String.[]) else "" in
    append written (replace_from old new next rest)

unfoldable pub replace_text : String → String → String → String
unfolding replace_from
replace_text old new text = replace_from old new 0 text

digit : ℕ → String
digit d =
    if nat_beq d 0
    then "0"
    else if nat_beq d 1
    then "1"
    else if nat_beq d 2
    then "2"
    else if nat_beq d 3
    then "3"
    else if nat_beq d 4
    then "4"
    else if nat_beq d 5
    then "5"
    else if nat_beq d 6
    then "6"
    else if nat_beq d 7
    then "7"
    else if nat_beq d 8
    then "8"
    else "9"

-- `str(n)`; the fuel passes the number of digits.
show_fuel : ℕ → ℕ → String
show_fuel zero n = ""
show_fuel (suc fuel) n =
    let front = show_fuel fuel (n / 10) in
    if ltb n 10 then digit n else append front (digit (n % 10))

unfoldable pub show : ℕ → String
unfolding show_fuel digit
show n = show_fuel (suc n) n

unfoldable pub show_int : ℤ → String
unfolding show
show_int (pos n) = show n
show_int (negsuc n) = append "-" (show (suc n))

show_example : show 1207 ≡ "1207"
unfolding show
show_example = refl

replace_text_example : replace_text "aa" "b" "caaaad" ≡ "cbbd"
unfolding replace_text
replace_text_example = refl
