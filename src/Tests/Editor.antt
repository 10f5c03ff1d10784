-- ===== src/Tests/Editor.antt =====
-- A witness for the lines of src/editor.c.
use tabla_rusa_os.Base.{
  ℕ, zero, suc, ◌≡◌, ◌≢◌, ◌<◌, refl, [], ◌∷◌, true, codes, replicate, take, get_or, arith,
}
use tabla_rusa_os.Editor.Buffer.{Editor, editor_load, saved_text, load_loop, load_char, load_end}
use tabla_rusa_os.Editor.RoundTrip.{IsRow, joined, saved-loaded}

abbrev two_lines : Editor
two_lines = record {
  active = true;
  path_current = codes "notes.txt";
  lines = codes "ab" ∷ codes "c" ∷ replicate 18 [];
  line_count = 2;
  current_line = 0;
}

plain_ab : (j : ℕ) → j < 2 → (get_or (codes "ab") j 0 ≢ b'\n') × (get_or (codes "ab") j 0 ≢ b'\r')
plain_ab zero h = (λ e. omega arith, λ e. omega arith)
plain_ab (suc zero) h = (λ e. omega arith, λ e. omega arith)
plain_ab (suc (suc j)) h = absurd (omega arith)

plain_c : (j : ℕ) → j < 1 → (get_or (codes "c") j 0 ≢ b'\n') × (get_or (codes "c") j 0 ≢ b'\r')
plain_c zero h = (λ e. omega arith, λ e. omega arith)
plain_c (suc j) h = absurd (omega arith)

two_rows : (i : ℕ) → i < 2 → IsRow (get_or (take 2 two_lines.lines) i [])
two_rows zero h = record { fits = omega arith; plain = plain_ab }
two_rows (suc zero) h = record { fits = omega arith; plain = plain_c }
two_rows (suc (suc i)) h = absurd (omega arith)

saved-loaded_example :
    take
      (editor_load (saved_text two_lines) two_lines).line_count
      (editor_load (saved_text two_lines) two_lines).lines
    ≡ take two_lines.line_count two_lines.lines
unfolding joined
saved-loaded_example = saved-loaded two_lines two_lines (omega arith) refl two_rows (omega arith)

-- A text that begins with a break gets one empty line more when it is loaded.
leading_break : (editor_load (codes "\na\n") two_lines).line_count ≡ 3
unfolding editor_load load_loop load_end load_char
leading_break = refl
