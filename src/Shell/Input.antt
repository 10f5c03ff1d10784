-- ===== src/Shell/Input.antt =====
-- The operations of src/shell.c on the input line and the history, and the cursor keys of the main
-- loop of src/kmain.c. What they print is left out. `len` is the variable of the main loop that the
-- operations get a pointer to.
use tabla_rusa_os.Base.{
  ℕ, zero, suc, ◌+◌, ◌-◌, List, [], Text, Bool, true, false, Option, none, some, ◌==◌, ◌||◌,
  if◌then◌else◌, ltb, leb, get_or, set, is_empty, str_copy,
}
use tabla_rusa_os.Shell.Buffer.{str_len, copy_into, shift_right, shift_left}

-- The static variables. `history_view` is `none` for -1.
pub record Shell : Type 0 where
  pub inbuf : List ℕ
  pub input_cursor : ℕ
  pub len : ℕ
  pub history : List Text
  pub history_count : ℕ
  pub history_view : Option ℕ
  pub editor_mode : Bool

abbrev pub inbuf_max : ℕ
inbuf_max = 128

abbrev pub history_max : ℕ
history_max = 8

unfoldable pub shell_session_init : Shell → Shell
shell_session_init s = record s {
  inbuf = set s.inbuf 0 0;
  input_cursor = 0;
  history_count = 0;
  history_view = none;
  editor_mode = false;
}

abbrev pub shell_set_cursor : ℕ → Shell → Shell
shell_set_cursor cursor s = record s { input_cursor = cursor }

unfoldable pub shell_redraw : Shell → Shell
shell_redraw s = record s {
  len = str_len s.inbuf;
  input_cursor = if ltb (str_len s.inbuf) s.input_cursor then str_len s.inbuf else s.input_cursor;
}

unfoldable pub shell_set_input_text : Text → Shell → Shell
shell_set_input_text text s =
    let xs = copy_into text inbuf_max s.inbuf in
    shell_redraw (record s { inbuf = xs; len = str_len xs; input_cursor = str_len xs })

unfoldable pub shell_set_input_text_cursor : Text → ℕ → Shell → Shell
shell_set_input_text_cursor text cursor s =
    let xs = copy_into text inbuf_max s.inbuf in
    shell_redraw (record s {
      inbuf = xs;
      len = str_len xs;
      input_cursor = if ltb (str_len xs) cursor then str_len xs else cursor;
    })

unfoldable pub shell_insert_char : ℕ → Shell → Shell
unfolding shift_right shell_redraw
shell_insert_char c s =
    let cur = if ltb s.len s.input_cursor then s.len else s.input_cursor in
    if leb (inbuf_max - 1) s.len
    then s
    else shell_redraw (record s {
      inbuf = set (set (shift_right (suc s.len - cur) (suc s.len) s.inbuf) cur c) (suc s.len) 0;
      input_cursor = suc cur;
      len = suc s.len;
    })

unfoldable pub shell_backspace : Shell → Shell
unfolding shift_left shell_redraw
shell_backspace s =
    let cur = if ltb s.len s.input_cursor then s.len else s.input_cursor in
    if (s.len == 0) || (s.input_cursor == 0)
    then s
    else shell_redraw (record s {
      inbuf = set (shift_left (s.len - (cur - 1)) (cur - 1) s.inbuf) (s.len - 1) 0;
      input_cursor = cur - 1;
      len = s.len - 1;
    })

-- The keys left, right, home, end and delete, while the editor is not active.
unfoldable pub key_left : Shell → Shell
unfolding shell_redraw
key_left s =
    shell_redraw (if ltb 0 s.input_cursor then shell_set_cursor (s.input_cursor - 1) s else s)

unfoldable pub key_right : Shell → Shell
unfolding shell_redraw
key_right s =
    shell_redraw (if ltb s.input_cursor s.len then shell_set_cursor (s.input_cursor + 1) s else s)

unfoldable pub key_home : Shell → Shell
unfolding shell_redraw
key_home s = shell_redraw (shell_set_cursor 0 s)

unfoldable pub key_end : Shell → Shell
unfolding shell_redraw
key_end s = shell_redraw (shell_set_cursor s.len s)

unfoldable pub key_delete : Shell → Shell
unfolding shift_left shell_redraw
key_delete s =
    if ltb s.input_cursor s.len
    then shell_redraw (record s {
      inbuf = shift_left (s.len - s.input_cursor) s.input_cursor s.inbuf;
      len = s.len - 1;
    })
    else s

-- `for(i = 1; i < SHELL_HISTORY_MAX; i++) str_copy(history[i-1], history[i], ...)`, from `i` on.
unfoldable pub history_loop : ℕ → ℕ → List Text → List Text
history_loop zero i hs = hs
history_loop (suc rounds) i hs =
    history_loop rounds (suc i) (set hs (i - 1) (str_copy (get_or hs i []) inbuf_max))

unfoldable pub shell_history_add : Text → Shell → Shell
unfolding history_loop
shell_history_add line s =
    if is_empty line
    then s
    else if ltb s.history_count history_max
    then record s {
      history = set s.history s.history_count (str_copy line inbuf_max);
      history_count = suc s.history_count;
    }
    else record s {
      history =
          set (history_loop (history_max - 1) 1 s.history) (history_max - 1)
            (str_copy line inbuf_max);
    }

-- The line of the history that is shown next.
abbrev pub view_prev : Shell → ℕ
view_prev s = elim s.history_view [ none ↦ s.history_count - 1 | some v ↦ v - 1 ]

-- The Boolean is the function's result.
unfoldable pub shell_history_prev : Shell → Bool × Shell
unfolding shell_redraw
shell_history_prev s =
    let xs = copy_into (get_or s.history (view_prev s) []) inbuf_max s.inbuf in
    if s.history_count == 0 then (false, s) else (
      true,
      shell_redraw (record s {
        history_view = some (view_prev s);
        inbuf = xs;
        len = str_len xs;
        input_cursor = str_len xs;
      }),
    )

abbrev pub view_next : Shell → Option ℕ
view_next s = elim s.history_view [
  | none ↦ none
  | some v ↦ if ltb (suc v) s.history_count then some (suc v) else none
]

unfoldable pub shell_history_next : Shell → Bool × Shell
unfolding shell_redraw
shell_history_next s =
    let xs : List ℕ = elim (view_next s) [
      | some v ↦ copy_into (get_or s.history v []) inbuf_max s.inbuf
      | none ↦ set s.inbuf 0 0
    ] in
    (
      true,
      shell_redraw (record s {
        history_view = view_next s;
        inbuf = xs;
        len = str_len xs;
        input_cursor = str_len xs;
      }),
    )

unfoldable pub shell_reset_input : Shell → Shell
shell_reset_input s = record s {
  len = 0;
  inbuf = set s.inbuf 0 0;
  input_cursor = 0;
  history_view = none;
}
