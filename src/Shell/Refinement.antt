-- ===== src/Shell/Refinement.antt =====
-- The array operations of src/shell.c do what the functions on a line say.
use tabla_rusa_os.Base.{
  ℕ, ◌≡◌, ◌<◌, refl, ◌∙◌, Bool, true, not, ◌==◌, ◌&&◌, List, [], ◌∷◌, length, length-set,
  get_or-set_self, arith,
}
use tabla_rusa_os.Shell.Buffer.{c_string}
use tabla_rusa_os.Shell.Input.{
  Shell, inbuf_max, shell_insert_char, shell_backspace, key_left, key_right, key_home, key_end,
  key_delete, shell_reset_input, shell_set_cursor,
}
use tabla_rusa_os.Shell.Line.{
  Line, insert, backspace, delete, move_left, move_right, move_home, move_end,
}
use tabla_rusa_os.Shell.Strings.{Holds-c_string}
use tabla_rusa_os.Shell.Edits.{
  Represents, redraw-Represents, insert-Represents, backspace-Represents, delete-Represents,
  left-Represents, right-Represents,
}

-- The keys that change the line.
pub data Key : Type 0 where
  char : ℕ → Key
  backspace_key left right home end_key delete_key : Key

unfoldable pub press : Key → Shell → Shell
press (char c) s = shell_insert_char c s
press backspace_key s = shell_backspace s
press left s = key_left s
press right s = key_right s
press home s = key_home s
press end_key s = key_end s
press delete_key s = key_delete s

unfoldable pub edit : Key → Line → Line
edit (char c) l = insert c l
edit backspace_key l = backspace l
edit left l = move_left l
edit right l = move_right l
edit home l = move_home l
edit end_key l = move_end l
edit delete_key l = delete l

-- No key is the character 0.
unfoldable pub all_typed : List Key → Bool
all_typed [] = true
all_typed (char c ∷ ks) = not (c == 0) && all_typed ks
all_typed (k ∷ ks) = all_typed ks

unfoldable pub press_all : List Key → Shell → Shell
unfolding press
press_all [] s = s
press_all (k ∷ ks) s = press_all ks (press k s)

unfoldable pub edit_all : List Key → Line → Line
unfolding edit
edit_all [] l = l
edit_all (k ∷ ks) l = edit_all ks (edit k l)

press-Represents :
    (k : Key) (ks : List Key) (s : Shell) (l : Line)
    → all_typed (k ∷ ks) ≡ true
    → Represents s l
    → Represents (press k s) (edit k l)
unfolding press edit all_typed key_home key_end move_home move_end
press-Represents (char c) ks s l typed r = insert-Represents c s l (λ e. ground arith) r
press-Represents backspace_key ks s l typed r = backspace-Represents s l r
press-Represents left ks s l typed r = left-Represents s l r
press-Represents right ks s l typed r = right-Represents s l r
press-Represents home ks s l typed r =
    redraw-Represents (shell_set_cursor 0 s) (record { text = l.text; cursor = 0 }) r.size r.holds
      refl (omega arith)
press-Represents end_key ks s l typed r =
    redraw-Represents (shell_set_cursor s.len s) (record { text = l.text; cursor = length l.text })
      r.size r.holds r.same_len (omega arith)
press-Represents delete_key ks s l typed r = delete-Represents s l r

typed_rest : (k : Key) (ks : List Key) → all_typed (k ∷ ks) ≡ true → all_typed ks ≡ true
unfolding all_typed
typed_rest (char c) ks typed = ground arith
typed_rest backspace_key ks typed = typed
typed_rest left ks typed = typed
typed_rest right ks typed = typed
typed_rest home ks typed = typed
typed_rest end_key ks typed = typed
typed_rest delete_key ks typed = typed

keys-Represents :
    (ks : List Key) (s : Shell) (l : Line)
    → all_typed ks ≡ true
    → Represents s l
    → Represents (press_all ks s) (edit_all ks l)
unfolding press_all edit_all
keys-Represents [] s l typed r = r
keys-Represents (k ∷ ks) s l typed r =
    keys-Represents ks (press k s) (edit k l) (typed_rest k ks typed)
      (press-Represents k ks s l typed r)

reset-Represents :
    (s : Shell)
    → length s.inbuf ≡ inbuf_max
    → Represents (shell_reset_input s) (record { text = []; cursor = 0 })
unfolding shell_reset_input
reset-Represents s size = record {
  size = length-set s.inbuf 0 0 ∙ size;
  holds = record {
    room = rw (length-set s.inbuf 0 0, size) (omega arith);
    cells = λ j k. absurd (omega arith);
    nonzero = λ j k. absurd (omega arith);
    ends = get_or-set_self s.inbuf 0 0 0 (omega arith);
  };
  same_len = refl;
  same_cursor = refl;
  inside = omega arith;
}

-- After a reset of the input, whatever keys but the character 0 are pressed, the string in the input
-- array and the cursor are those of the line that the keys edit, starting with the empty line; the length the
-- main loop keeps is the line's, and is below the array's size.
pub press_all-refines :
    (ks : List Key) (s : Shell)
    → all_typed ks ≡ true
    → length s.inbuf ≡ inbuf_max
    → (c_string (press_all ks (shell_reset_input s)).inbuf
        ≡ (edit_all ks (record { text = []; cursor = 0 })).text)
      × ((press_all ks (shell_reset_input s)).input_cursor
          ≡ (edit_all ks (record { text = []; cursor = 0 })).cursor)
      × ((press_all ks (shell_reset_input s)).len
          ≡ length (edit_all ks (record { text = []; cursor = 0 })).text)
      × ((press_all ks (shell_reset_input s)).len < inbuf_max)
press_all-refines ks s typed size =
    let r =
      keys-Represents ks (shell_reset_input s) (record { text = []; cursor = 0 }) typed
        (reset-Represents s size) in
    let room = r.holds.room in
    let all = r.size in
    let same = r.same_len in
    (
      Holds-c_string (press_all ks (shell_reset_input s)).inbuf
          (edit_all ks (record { text = []; cursor = 0 })).text (r.holds),
      r.same_cursor,
      same,
      omega arith,
    )
