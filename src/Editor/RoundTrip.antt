-- ===== src/Editor/RoundTrip.antt =====
-- A text that src/editor.c saves is loaded again line by line.
use tabla_rusa_os.Base.{
  ℕ, suc, ◌+◌, ◌-◌, ◌≡◌, ◌≢◌, ◌<◌, ◌≤◌, refl, sym, ap, ◌∙◌, inl, inr, List, [], ◌∷◌, ◌++◌, Text,
  true, false, ◌==◌, ltb, Bool-cases, get_or, set, replicate, take, length, is_empty, length-append,
  take_all, arith,
}
use tabla_rusa_os.Editor.Buffer.{
  Editor, Load, max_lines, line_max, save_max, save_loop, saved_text, load_char, load_loop,
  load_end, editor_load,
}

-- The rows with a break behind each.
unfoldable pub joined : List Text → Text
joined [] = []
joined (row ∷ rows) = row ++ (b'\n' ∷ joined rows)

append_assoc : (a b c : Text) → (a ++ b) ++ c ≡ a ++ (b ++ c)
append_assoc [] b c = refl
append_assoc (x ∷ a) b c = ap (λ t. x ∷ t) (append_assoc a b c)

append_nil : (a : Text) → a ++ [] ≡ a
append_nil [] = refl
append_nil (x ∷ a) = ap (λ t. x ∷ t) (append_nil a)

-- What fits in the buffer is saved whole.
save_loop-joined :
    (text : Text) (rows : List Text)
    → length text + length (joined rows) < save_max
    → save_loop text rows ≡ text ++ joined rows
unfolding save_loop joined
save_loop-joined text [] h = sym (append_nil text)
save_loop-joined text (row ∷ rows) h =
    let a = length-append row (b'\n' ∷ joined rows) in
    let b = length-append text row in
    let whole : take (save_max - 2 - length text) row ≡ row =
      take_all (save_max - 2 - length text) row (omega arith) in
    let room : ltb (length (text ++ row) + 1) save_max ≡ true = ground arith in
    let c = length-append (text ++ row) (b'\n' ∷ []) in
    rw (whole, room)
      (save_loop-joined ((text ++ row) ++ (b'\n' ∷ [])) rows (omega arith)
        ∙ append_assoc (text ++ row) (b'\n' ∷ []) (joined rows)
        ∙ append_assoc text row (b'\n' ∷ joined rows))

-- A row that a save keeps: it fits, and has no break.
pub record IsRow (row : Text) : Type 0 where
  pub fits : length row < line_max
  pub plain : (j : ℕ) → j < length row → (get_or row j 0 ≢ b'\n') × (get_or row j 0 ≢ b'\r')

-- The characters of a row are put one behind the other.
load-row :
    (row acc rest : Text) (rows : List Text) (line : ℕ)
    → line < max_lines
    → length acc + length row < line_max
    → ((j : ℕ) → j < length row → (get_or row j 0 ≢ b'\n') × (get_or row j 0 ≢ b'\r'))
    → load_loop (row ++ rest) (record { rows = rows; line = line; row = acc })
      ≡ load_loop rest (record { rows = rows; line = line; row = acc ++ row })
unfolding load_loop load_char
load-row [] acc rest rows line h fits plain = rw (append_nil acc) refl
load-row (c ∷ cs) acc rest rows line h fits plain =
    let at = plain 0 (omega arith) in
    let other_break : (c == b'\n') ≡ false = ground (arith, at.0) in
    let other_return : (c == b'\r') ≡ false = ground (arith, at.1) in
    let room : ltb (length acc + 1) line_max ≡ true = ground arith in
    let more : ltb line max_lines ≡ true = ground arith in
    let n = length-append acc (c ∷ []) in
    rw (more, other_return, other_break, room)
      (load-row cs (acc ++ (c ∷ [])) rest rows line h (omega arith)
          (λ j k. plain (suc j) (omega arith))
        ∙ ap (λ t. load_loop rest (record { rows = rows; line = line; row = t }))
            (append_assoc acc (c ∷ []) cs))

-- Writing behind the rows that are there.
set-append :
    (done : List Text) (row : Text) (k : ℕ)
    → set (done ++ replicate (suc k) []) (length done) row ≡ (done ++ (row ∷ [])) ++ replicate k []
set-append [] row k = refl
set-append (x ∷ done) row k = ap (λ t. x ∷ t) (set-append done row k)

append_rows : (a b c : List Text) → (a ++ b) ++ c ≡ a ++ (b ++ c)
append_rows [] b c = refl
append_rows (x ∷ a) b c = ap (λ t. x ∷ t) (append_rows a b c)

rows_nil : (a : List Text) → a ++ [] ≡ a
rows_nil [] = refl
rows_nil (x ∷ a) = ap (λ t. x ∷ t) (rows_nil a)

-- The state of the loop behind some rows, with room for `k` more.
abbrev loaded : List Text → ℕ → Load
loaded done k = record { rows = done ++ replicate k []; line = length done; row = [] }

load-rows :
    (rows done : List Text) (k : ℕ)
    → length done + length rows ≤ max_lines
    → ((i : ℕ) → i < length rows → IsRow (get_or rows i []))
    → load_loop (joined rows) (loaded done (length rows + k)) ≡ loaded (done ++ rows) k
unfolding load_loop joined load_char
load-rows [] done k h plain = let e : 0 + k ≡ k = omega arith in rw (e, rows_nil done) refl
load-rows (row ∷ rows) done k h plain =
    let first = plain 0 (omega arith) in
    let fits = first.fits in
    let more : ltb (length done) max_lines ≡ true = ground arith in
    let e : suc (length rows) + k ≡ suc (length rows + k) = omega arith in
    let n = length-append done (row ∷ []) in
    let m : length (done ++ (row ∷ [])) ≡ suc (length done) = omega arith in
    rw e (
      load-row row [] (b'\n' ∷ joined rows) (done ++ replicate (suc (length rows + k)) [])
        (length done) (omega arith) (omega arith) (first.plain)
      ∙ rw (more, set-append done row (length rows + k), ← m)
          (load-rows rows (done ++ (row ∷ [])) k (omega arith) (λ i l. plain (suc i) (omega arith))
            ∙ ap (λ t. loaded t k) (append_rows done (row ∷ []) rows)))

take-append : (rows more : List Text) → take (length rows) (rows ++ more) ≡ rows
take-append [] more = refl
take-append (row ∷ rows) more = ap (λ t. row ∷ t) (take-append rows more)

load_end-rows :
    (rows : List Text) (k : ℕ)
    → is_empty (get_or rows 0 []) ≡ false
    → ((i : ℕ) → i < length rows → IsRow (get_or rows i []))
    → (load_end (joined rows) (loaded rows k) ≡ loaded rows k) × (is_empty (joined rows) ≡ false)
unfolding load_end joined
load_end-rows [] k some_text plain = absurd cc
load_end-rows ([] ∷ rows) k some_text plain = absurd cc
load_end-rows ((c ∷ cs) ∷ rows) k some_text plain =
    let first = plain 0 (omega arith) in
    let at = first.plain 0 (omega arith) in
    let other : (c == b'\n') ≡ false = ground (arith, at.0) in
    elim (Bool-cases (ltb (length ((c ∷ cs) ∷ rows)) max_lines)) [
      | inl q ↦ (rw (q, other) refl, refl)
      | inr q ↦ (rw q refl, refl)
    ]

-- At most 20 lines, of which the first is not empty and each has at most 71 characters, none a
-- line feed or a carriage return, and which are together shorter than the buffer, are loaded from
-- the saved text as they were.
pub saved-loaded :
    (e e' : Editor)
    → length (take e.line_count e.lines) ≤ max_lines
    → is_empty (get_or (take e.line_count e.lines) 0 []) ≡ false
    → ((i : ℕ)
        → i < length (take e.line_count e.lines)
        → IsRow (get_or (take e.line_count e.lines) i []))
    → length (joined (take e.line_count e.lines)) < save_max
    → take (editor_load (saved_text e) e').line_count (editor_load (saved_text e) e').lines
      ≡ take e.line_count e.lines
unfolding saved_text editor_load
saved-loaded e e' few first plain small =
    let rows = take e.line_count e.lines in
    let k = max_lines - length rows in
    let text : save_loop [] rows ≡ joined rows = save_loop-joined [] rows (omega arith) in
    let (ends, some_text) = load_end-rows rows k first plain in
    let room : length rows + k ≡ max_lines = omega arith in
    let start : load_loop (joined rows)
          (record { rows = replicate max_lines []; line = 0; row = [] })
        ≡ loaded rows k =
      ap (λ m. load_loop (joined rows) (record { rows = replicate m []; line = 0; row = [] }))
        (sym room)
      ∙ load-rows rows [] k (omega arith) plain in
    rw (text, some_text, start, ends) (take-append rows (replicate k []))
