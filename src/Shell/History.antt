-- ===== src/Shell/History.antt =====
-- The history of src/shell.c.
use tabla_rusa_os.Base.{
  ℕ, zero, suc, ◌-◌, ◌≡◌, ◌≢◌, ◌<◌, ◌≤◌, refl, ap, ◌∙◌, inl, inr, List, [], ◌∷◌, Text, true, false,
  ◌==◌, ltb, Bool-cases, get_or, set, drop, length, is_empty, str_copy, str_copy_fits, length-set,
  length-append, get_or-set_self, arith,
}
use tabla_rusa_os.Shell.Buffer.{cell, c_string, copy_into}
use tabla_rusa_os.Shell.Input.{
  Shell, inbuf_max, history_max, shell_redraw, shell_history_add, history_loop, shell_history_prev,
  shell_reset_input,
}
use tabla_rusa_os.Shell.Shifts.{cell-append_left, cell-append_right}
use tabla_rusa_os.Shell.Strings.{Holds, Holds-c_string, length-drop}

-- The array holds a text of at most 127 characters that is copied into it.
copy_into-Holds :
    (t : Text) (xs : List ℕ)
    → length xs ≡ inbuf_max
    → length t < inbuf_max
    → ((j : ℕ) → j < length t → cell t j ≢ 0)
    → Holds (copy_into t inbuf_max xs) t
copy_into-Holds t xs size fits nonzero =
    let e = str_copy_fits t inbuf_max fits in
    let a = length-append t (0 ∷ drop (suc (length t)) xs) in
    let d = length-drop (suc (length t)) xs in
    let z : length t - length t ≡ 0 = omega arith in
    rw e (record {
      room = omega arith;
      cells = λ j k. cell-append_left t (0 ∷ drop (suc (length t)) xs) j k;
      nonzero = nonzero;
      ends =
          cell-append_right t (0 ∷ drop (suc (length t)) xs) (length t) (omega arith)
          ∙ ap (λ i. cell (0 ∷ drop (suc (length t)) xs) i) z;
    })

length-history_loop : (r i : ℕ) (hs : List Text) → length (history_loop r i hs) ≡ length hs
unfolding history_loop
length-history_loop zero i hs = refl
length-history_loop (suc r) i hs =
    length-history_loop r (suc i) _ ∙ length-set hs (i - 1) (str_copy (get_or hs i []) inbuf_max)

suc_pred : (n : ℕ) → suc n - 1 ≡ n
suc_pred n = omega arith

-- The line just added is the last one that counts.
add-last :
    (line : Text) (s : Shell)
    → is_empty line ≡ false
    → length line < inbuf_max
    → length s.history ≡ history_max
    → s.history_count ≤ history_max
    → (get_or (shell_history_add line s).history ((shell_history_add line s).history_count - 1) []
        ≡ line)
      × (0 < (shell_history_add line s).history_count)
      × ((shell_history_add line s).history_count ≤ history_max)
      × ((shell_history_add line s).inbuf ≡ s.inbuf)
unfolding shell_history_add
add-last line s some_text fits size count =
    let e = str_copy_fits line inbuf_max fits in
    elim (Bool-cases (ltb s.history_count history_max)) [
      | inl q ↦
          rw (some_text, q, e)
            (
              ap (λ k. get_or (set s.history s.history_count line) k []) (suc_pred s.history_count)
                  ∙ get_or-set_self s.history s.history_count line [] (ground arith),
              omega arith,
              ground arith,
              refl,
            )
      | inr q ↦
          let full : s.history_count ≡ history_max = ground arith in
          let n = length-history_loop (history_max - 1) 1 s.history in
          rw (some_text, q, e, full)
            (
              get_or-set_self (history_loop (history_max - 1) 1 s.history) (history_max - 1) line []
                  (omega arith),
              omega arith,
              omega arith,
              refl,
            )
    ]

-- A line of 1 to 127 characters that is entered is what the key up shows next, whether the
-- history was full or not.
pub add-prev :
    (line : Text) (s : Shell)
    → is_empty line ≡ false
    → length line < inbuf_max
    → ((j : ℕ) → j < length line → cell line j ≢ 0)
    → length s.history ≡ history_max
    → s.history_count ≤ history_max
    → length s.inbuf ≡ inbuf_max
    → ((shell_history_prev (shell_reset_input (shell_history_add line s))).0 ≡ true)
      × (c_string (shell_history_prev (shell_reset_input (shell_history_add line s))).1.inbuf
          ≡ line)
unfolding shell_history_prev shell_reset_input shell_redraw
add-prev line s some_text fits nonzero size count cells =
    let (last, positive, bound, same) = add-last line s some_text fits size count in
    let q : ((shell_history_add line s).history_count == 0) ≡ false = ground arith in
    let n = length-set s.inbuf 0 0 in
    rw (q, last, same)
      (
        refl,
        Holds-c_string (copy_into line inbuf_max (set s.inbuf 0 0)) line
            (copy_into-Holds line (set s.inbuf 0 0) (n ∙ cells) fits nonzero),
      )
