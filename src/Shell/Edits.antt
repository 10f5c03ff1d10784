-- ===== src/Shell/Edits.antt =====
-- Each operation of src/shell.c on the array does what the function on a line says.
use tabla_rusa_os.Base.{
  ℕ, suc, ◌+◌, ◌-◌, ◌≡◌, ◌≢◌, ◌<◌, ◌≤◌, ap, ◌∙◌, inl, inr, List, ◌∷◌, ◌++◌, Text, true, false, ◌==◌,
  ◌||◌, ltb, leb, Bool-cases, set, take, drop, length, length-set, get_or-set_self, arith,
  get_or-set_ne,
}
use tabla_rusa_os.Shell.Buffer.{str_len, shift_right, shift_left}
use tabla_rusa_os.Shell.Input.{
  Shell, inbuf_max, shell_redraw, shell_insert_char, shell_backspace, key_left, key_right,
  key_delete, shell_set_cursor,
}
use tabla_rusa_os.Shell.Line.{
  Line, line_max, insert, without, backspace, delete, move_left, move_right,
}
use tabla_rusa_os.Shell.Shifts.{length-shift_right, length-shift_left}
use tabla_rusa_os.Shell.Strings.{
  Holds, Holds-str_len, insert-Holds, remove-Holds, length-without, length-inserted,
}

-- The array, the length and the cursor stand for the line.
pub record Represents (s : Shell) (l : Line) : Type 0 where
  pub size : length s.inbuf ≡ inbuf_max
  pub holds : Holds s.inbuf l.text
  pub same_len : s.len ≡ length l.text
  pub same_cursor : s.input_cursor ≡ l.cursor
  pub inside : l.cursor ≤ length l.text

-- A redraw counts the length again, and keeps a cursor that stands in the line.
pub redraw-Represents :
    (s : Shell) (l : Line)
    → length s.inbuf ≡ inbuf_max
    → Holds s.inbuf l.text
    → s.input_cursor ≡ l.cursor
    → l.cursor ≤ length l.text
    → Represents (shell_redraw s) l
unfolding shell_redraw
redraw-Represents s l size holds at inside =
    let n = Holds-str_len s.inbuf l.text holds in
    let q : ltb (str_len s.inbuf) s.input_cursor ≡ false = ground arith in
    record { size = size; holds = holds; same_len = n; same_cursor = rw q at; inside = inside }

pub insert-Represents :
    (c : ℕ) (s : Shell) (l : Line)
    → c ≢ 0
    → Represents s l
    → Represents (shell_insert_char c s) (insert c l)
unfolding shell_insert_char insert
insert-Represents c s l nonzero r =
    let size = r.size in
    let same_len = r.same_len in
    let at = r.same_cursor in
    let inside = r.inside in
    elim (Bool-cases (leb (inbuf_max - 1) s.len)) [
      | inl q ↦ let full : ltb (length l.text) line_max ≡ false = ground arith in rw (q, full) r
      | inr q ↦
          let fits : ltb (length l.text) line_max ≡ true = ground arith in
          let cur : ltb s.len s.input_cursor ≡ false = ground arith in
          let n = length-inserted l.cursor c l.text inside in
          let a : List ℕ = shift_right (suc s.len - s.input_cursor) (suc s.len) s.inbuf in
          let z : Shell = record s {
            inbuf = set (set a s.input_cursor c) (suc s.len) 0;
            input_cursor = suc s.input_cursor;
            len = suc s.len;
          } in
          rw (q, fits, cur)
            (redraw-Represents z
              (record {
                text = take l.cursor l.text ++ (c ∷ drop l.cursor l.text);
                cursor = suc l.cursor;
              })
              (length-set (set a s.input_cursor c) (suc s.len) 0
                ∙ length-set a s.input_cursor c
                ∙ length-shift_right (suc s.len - s.input_cursor) (suc s.len) s.inbuf
                ∙ size)
              (rw (same_len, at)
                (insert-Holds l.cursor c s.inbuf l.text r.holds inside (ground arith) nonzero))
              (ap suc at) (omega arith))
    ]

-- A zero byte behind the string changes nothing.
zero-Holds : (xs : List ℕ) (t : Text) → Holds xs t → Holds (set xs (length t) 0) t
zero-Holds xs t h = record {
  room = rw (length-set xs (length t) 0) (h.room);
  cells = λ j k. get_or-set_ne xs (length t) j 0 0 (λ e. omega arith) ∙ h.cells j k;
  nonzero = h.nonzero;
  ends = get_or-set_self xs (length t) 0 0 (h.room);
}

pub backspace-Represents :
    (s : Shell) (l : Line) → Represents s l → Represents (shell_backspace s) (backspace l)
unfolding shell_backspace backspace
backspace-Represents s l r =
    let size = r.size in
    let same_len = r.same_len in
    let at = r.same_cursor in
    let inside = r.inside in
    elim (Bool-cases (l.cursor == 0)) [
      | inl q ↦ let p : ((s.len == 0) || (s.input_cursor == 0)) ≡ true = ground arith in rw (q, p) r
      | inr q ↦
          let p : ((s.len == 0) || (s.input_cursor == 0)) ≡ false = ground arith in
          let cur : ltb s.len s.input_cursor ≡ false = ground arith in
          let lt : l.cursor - 1 < length l.text = ground arith in
          let n = length-without (l.cursor - 1) l.text lt in
          let a : List ℕ = shift_left (s.len - (s.input_cursor - 1)) (s.input_cursor - 1) s.inbuf in
          let z : Shell = record s {
            inbuf = set a (s.len - 1) 0;
            input_cursor = s.input_cursor - 1;
            len = s.len - 1;
          } in
          let holds = zero-Holds _ _ (remove-Holds (l.cursor - 1) s.inbuf l.text r.holds lt) in
          rw (q, p, cur)
            (redraw-Represents z
              (record { text = without (l.cursor - 1) l.text; cursor = l.cursor - 1 })
              (length-set a (s.len - 1) 0
                ∙ length-shift_left (s.len - (s.input_cursor - 1)) (s.input_cursor - 1) s.inbuf
                ∙ size)
              (rw (same_len, at, ← n) holds) (ap (λ k. k - 1) at) (omega arith))
    ]

pub delete-Represents :
    (s : Shell) (l : Line) → Represents s l → Represents (key_delete s) (delete l)
unfolding key_delete delete
delete-Represents s l r =
    let size = r.size in
    let same_len = r.same_len in
    let at = r.same_cursor in
    elim (Bool-cases (ltb l.cursor (length l.text))) [
      | inr q ↦ let p : ltb s.input_cursor s.len ≡ false = rw (same_len, at) q in rw (q, p) r
      | inl q ↦
          let p : ltb s.input_cursor s.len ≡ true = rw (same_len, at) q in
          let lt : l.cursor < length l.text = ground arith in
          let n = length-without l.cursor l.text lt in
          let z : Shell = record s {
            inbuf = shift_left (s.len - s.input_cursor) s.input_cursor s.inbuf;
            len = s.len - 1;
          } in
          rw (q, p)
            (redraw-Represents z (record { text = without l.cursor l.text; cursor = l.cursor })
              (length-shift_left (s.len - s.input_cursor) s.input_cursor s.inbuf ∙ size)
              (rw (same_len, at) (remove-Holds l.cursor s.inbuf l.text r.holds lt)) at
              (omega arith))
    ]

pub left-Represents :
    (s : Shell) (l : Line) → Represents s l → Represents (key_left s) (move_left l)
unfolding key_left move_left
left-Represents s l r =
    let at = r.same_cursor in
    let inside = r.inside in
    let l' : Line = record { text = l.text; cursor = l.cursor - 1 } in
    elim (Bool-cases (ltb 0 s.input_cursor)) [
      | inl q ↦ rw q (
          redraw-Represents (shell_set_cursor (s.input_cursor - 1) s) l' r.size r.holds
            (ap (λ k. k - 1) at) (omega arith))
      | inr q ↦ rw q (redraw-Represents s l' r.size r.holds (ground arith) (omega arith))
    ]

pub right-Represents :
    (s : Shell) (l : Line) → Represents s l → Represents (key_right s) (move_right l)
unfolding key_right move_right
right-Represents s l r =
    let at = r.same_cursor in
    let same_len = r.same_len in
    let inside = r.inside in
    elim (Bool-cases (ltb s.input_cursor s.len)) [
      | inl q ↦
          let p : ltb l.cursor (length l.text) ≡ true = rw (← same_len, ← at) q in
          rw (q, p)
            (redraw-Represents (shell_set_cursor (s.input_cursor + 1) s)
              (record { text = l.text; cursor = l.cursor + 1 }) r.size r.holds (ap (λ k. k + 1) at)
              (ground arith))
      | inr q ↦
          let p : ltb l.cursor (length l.text) ≡ false = rw (← same_len, ← at) q in
          rw (q, p) (redraw-Represents s l r.size r.holds at inside)
    ]
