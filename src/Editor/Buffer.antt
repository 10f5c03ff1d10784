-- ===== src/Editor/Buffer.antt =====
-- The lines of src/editor.c, what it loads and saves, and the edits of a line. What it draws, and
-- the input line that follows the cursor, are left out. A row of the array is its string.
use tabla_rusa_os.Base.{
  ℕ, suc, ◌+◌, ◌-◌, List, [], ◌∷◌, ◌++◌, Text, Bool, false, not, ◌==◌, ◌&&◌, ◌||◌, if◌then◌else◌,
  ltb, set, replicate, take, length, is_empty, str_copy,
}
use tabla_rusa_os.Fs.Node.{Fs}
use tabla_rusa_os.Fs.Ops.{write}

-- The static variables without the mark for an error.
pub record Editor : Type 0 where
  pub active : Bool
  pub path_current : Text
  pub lines : List Text
  pub line_count : ℕ
  pub current_line : ℕ

abbrev pub max_lines : ℕ
max_lines = 20

abbrev pub line_max : ℕ
line_max = 72

abbrev pub save_max : ℕ
save_max = 1024

unfoldable pub editor_init : Editor → Editor
editor_init e = record e { active = false; path_current = []; line_count = 0; current_line = 0 }

-- The text of `editor_save` with one row more, in the order in which it is filled.
abbrev pub save_row : Text → Text → Text
save_row text row =
    let filled = text ++ take (save_max - 2 - length text) row in
    if ltb (length filled + 1) save_max then filled ++ (b'\n' ∷ []) else filled

-- The loop over the rows.
unfoldable pub save_loop : Text → List Text → Text
save_loop text [] = text
save_loop text (row ∷ rows) = save_loop (save_row text row) rows

unfoldable pub saved_text : Editor → Text
unfolding save_loop
saved_text e = save_loop [] (take e.line_count e.lines)

unfoldable pub editor_save : Editor → Fs → Fs
unfolding saved_text
editor_save e fs = (write e.path_current (saved_text e) fs).1

-- The variables of the loop of `editor_load`; `row` is what it has put into the row of `line`.
pub record Load : Type 0 where
  pub rows : List Text
  pub line : ℕ
  pub row : Text

-- The row is ended and the next one begins.
abbrev pub end_row : Load → Load
end_row s = record { rows = set s.rows s.line s.row; line = suc s.line; row = [] }

-- The row with a character that fits.
abbrev pub add_char : ℕ → Load → Load
add_char c s = if ltb (length s.row + 1) line_max then record s { row = s.row ++ (c ∷ []) } else s

-- A round of the loop.
unfoldable pub load_char : ℕ → Load → Load
load_char c s = if c == b'\r' then s else if c == b'\n' then end_row s else add_char c s

unfoldable pub load_loop : Text → Load → Load
unfolding load_char
load_loop [] s = s
load_loop (c ∷ cs) s =
    let rest = load_loop cs (load_char c s) in if ltb s.line max_lines then rest else s

abbrev pub starts_with_break : Text → Bool
starts_with_break [] = false
starts_with_break (c ∷ cs) = c == b'\n'

-- The lines behind the loop.
unfoldable pub load_end : Text → Load → Load
load_end text s =
    if ltb s.line max_lines && (not (is_empty s.row) || starts_with_break text)
    then end_row s
    else s

unfoldable pub editor_load : Text → Editor → Editor
unfolding load_loop load_end
editor_load text e =
    let s =
      load_end text
        (load_loop text (record { rows = replicate max_lines []; line = 0; row = [] })) in
    if is_empty text
    then record e { lines = replicate max_lines []; line_count = 0; current_line = 0 }
    else record e { lines = s.rows; line_count = s.line; current_line = s.line }

-- The edit of `editor_commit_line`.
unfoldable pub commit_row : Text → Editor → Editor
commit_row line e =
    if ltb e.current_line e.line_count
    then record e {
      lines = set e.lines e.current_line (str_copy line line_max);
      current_line =
          if ltb (e.current_line + 1) e.line_count then suc e.current_line else e.line_count;
    }
    else if ltb e.line_count max_lines
    then record e {
      lines = set e.lines e.line_count (str_copy line line_max);
      line_count = suc e.line_count;
      current_line = suc e.line_count;
    }
    else e

unfoldable pub editor_commit_line : Text → Editor → Fs → Editor × Fs
unfolding commit_row editor_save
editor_commit_line line e fs = (commit_row line e, editor_save (commit_row line e) fs)

-- `.clear`
unfoldable pub editor_clear : Editor → Fs → Editor × Fs
unfolding editor_save
editor_clear e fs =
    let e' = record e { line_count = 0; current_line = 0 } in (e', editor_save e' fs)

-- The line that `editor_move` goes to, up or down.
unfoldable pub move_line : Bool → Editor → Editor
move_line up e = record e {
  current_line =
      if up
      then e.current_line - 1
      else if ltb e.current_line e.line_count
      then suc e.current_line
      else e.current_line;
}
