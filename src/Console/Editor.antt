-- ===== src/Console/Editor.antt =====
-- What a line is, as a function of the keys: the editor that `readLine` of
-- src/ungula/hal/console/console.cpp is meant to be.
use ungula_hal.Base.{
  ℕ, ◌≤◌, Option, none, some, List, [], ◌∷◌, ◌++◌, arith, ltb, if◌then◌else◌, length, length-append,
}
use ungula_hal.Console.{is_enter, is_erase, new_line, rub_out, default_line_max}

abbrev pub drop_last : List ℕ → List ℕ
drop_last [] = []
drop_last (x ∷ []) = []
drop_last (x ∷ y ∷ xs) = x ∷ drop_last (y ∷ xs)

-- The text after a key that is not Enter, and what the terminal is sent for it: an erasing key takes
-- back the last character, if there is one; another is appended, if there is room.
abbrev erase : List ℕ → List ℕ × List ℕ
erase [] = ([], [])
erase (x ∷ xs) = (drop_last (x ∷ xs), rub_out)

unfoldable pub press : ℕ → List ℕ → List ℕ × List ℕ
press c text =
    if is_erase c
    then erase text
    else if ltb (length text) default_line_max
    then (text ++ (c ∷ []), c ∷ [])
    else (text, [])

pub record Edited : Type 0 where
  pub line : Option (List ℕ)  -- the line that was ended
  pub text : List ℕ  -- what is typed of the next one
  pub rest : List ℕ  -- the keys that are left
  pub sent : List ℕ

-- The keys up to the first Enter.
unfoldable pub edit : List ℕ → List ℕ → Edited
edit text [] = record { line = none; text = text; rest = []; sent = [] }
edit text (c ∷ cs) =
    let (t, e) = press c text in
    let r = edit t cs in
    if is_enter c
    then record { line = some text; text = []; rest = cs; sent = new_line }
    else record r { sent = e ++ r.sent }

length-drop_last : (xs : List ℕ) → length (drop_last xs) ≤ length xs
length-drop_last [] = omega arith
length-drop_last (x ∷ []) = omega arith
length-drop_last (x ∷ y ∷ xs) = omega (arith, length-drop_last (y ∷ xs))

-- A text stays within its limit.
pub length-press :
    (c : ℕ) (text : List ℕ)
    → length text ≤ default_line_max
    → length (press c text).0 ≤ default_line_max
unfolding press
length-press c [] h = ground arith
length-press c (x ∷ xs) h =
    ground (arith, length-drop_last (x ∷ xs), length-append (x ∷ xs) (c ∷ []))
