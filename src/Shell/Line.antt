-- ===== src/Shell/Line.antt =====
-- The input line of src/shell.c as a user sees it: a text with a cursor. The functions are an
-- independent description of what the keys do.
use tabla_rusa_os.Base.{
  ℕ, suc, ◌+◌, ◌-◌, ◌∷◌, ◌++◌, Text, ◌==◌, if◌then◌else◌, ltb, take, drop, length,
}

pub record Line : Type 0 where
  pub text : Text
  pub cursor : ℕ

-- A line holds 127 characters at most.
abbrev pub line_max : ℕ
line_max = 127

unfoldable pub insert : ℕ → Line → Line
insert c l =
    if ltb (length l.text) line_max
    then record { text = take l.cursor l.text ++ (c ∷ drop l.cursor l.text); cursor = suc l.cursor }
    else l

-- The line without the character of that index.
abbrev pub without : ℕ → Text → Text
without i t = take i t ++ drop (suc i) t

unfoldable pub backspace : Line → Line
backspace l =
    if l.cursor == 0
    then l
    else record { text = without (l.cursor - 1) l.text; cursor = l.cursor - 1 }

unfoldable pub delete : Line → Line
delete l =
    if ltb l.cursor (length l.text)
    then record { text = without l.cursor l.text; cursor = l.cursor }
    else l

unfoldable pub move_left : Line → Line
move_left l = record l { cursor = l.cursor - 1 }

unfoldable pub move_right : Line → Line
move_right l = record l { cursor = if ltb l.cursor (length l.text) then l.cursor + 1 else l.cursor }

unfoldable pub move_home : Line → Line
move_home l = record l { cursor = 0 }

unfoldable pub move_end : Line → Line
move_end l = record l { cursor = length l.text }
