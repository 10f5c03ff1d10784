-- ===== src/Tests/Shell.antt =====
-- Witnesses for the input line of src/shell.c.
use tabla_rusa_os.Base.{
  ℕ, zero, suc, ◌≡◌, ◌≢◌, ◌<◌, refl, [], ◌∷◌, List, true, false, none, codes, length, replicate,
  arith,
}
use tabla_rusa_os.Shell.Buffer.{cell, c_string}
use tabla_rusa_os.Shell.Input.{
  Shell, inbuf_max, history_max, shell_reset_input, shell_history_add, shell_history_prev,
}
use tabla_rusa_os.Shell.Refinement.{
  Key, char, backspace_key, left, all_typed, press_all, edit_all, press_all-refines,
}
use tabla_rusa_os.Shell.History.{add-prev}

abbrev shell : Shell
shell = record {
  inbuf = replicate inbuf_max 0;
  input_cursor = 0;
  len = 0;
  history = replicate history_max [];
  history_count = 0;
  history_view = none;
  editor_mode = false;
}

-- "l", "s", left, "x", backspace
abbrev keys : List Key
keys = char b'l' ∷ char b's' ∷ left ∷ char b'x' ∷ backspace_key ∷ []

press_all-refines_example :
    (c_string (press_all keys (shell_reset_input shell)).inbuf
      ≡ (edit_all keys (record { text = []; cursor = 0 })).text)
    × ((press_all keys (shell_reset_input shell)).input_cursor
        ≡ (edit_all keys (record { text = []; cursor = 0 })).cursor)
    × ((press_all keys (shell_reset_input shell)).len
        ≡ length (edit_all keys (record { text = []; cursor = 0 })).text)
    × ((press_all keys (shell_reset_input shell)).len < inbuf_max)
unfolding all_typed
press_all-refines_example = press_all-refines keys shell refl refl

ls_nonzero : (j : ℕ) → j < length (codes "ls") → cell (codes "ls") j ≢ 0
ls_nonzero zero h e = omega arith
ls_nonzero (suc zero) h e = omega arith
ls_nonzero (suc (suc j)) h e = omega arith

add-prev_example :
    ((shell_history_prev (shell_reset_input (shell_history_add (codes "ls") shell))).0 ≡ true)
    × (c_string
          (shell_history_prev (shell_reset_input (shell_history_add (codes "ls") shell))).1.inbuf
        ≡ codes "ls")
add-prev_example = add-prev (codes "ls") shell refl (omega arith) ls_nonzero refl (omega arith) refl
