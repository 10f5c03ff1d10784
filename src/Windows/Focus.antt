-- ===== src/Windows/Focus.antt =====
-- Which window of src/window.c has the focus.
use tabla_rusa_os.Base.{
  ℕ, zero, suc, ◌+◌, ◌%◌, ◌≡◌, ◌<◌, refl, sym, ap, ◌∙◌, inl, inr, List, [], ◌∷◌, Text, true, false,
  modify, map, find_index-lt, find_index-some, length, length-modify, modify-cases, modify-field,
  get_or-modify_self, Option-cases, Bool-cases, arith,
}
use tabla_rusa_os.Windows.Table.{
  Window, window, window_max, window_at, unfocus, focus_at, window_init, window_find, window_focus,
  current_loop, window_focus_next, window_move, clamp, window_resize, window_focused,
}

-- Window `i` has the focus and no other; the table has its four windows.
pub record Focused (i : ℕ) (ws : List Window) : Type 0 where
  pub size : length ws ≡ window_max
  pub inside : i < window_max
  pub has : (window_at ws i).focused ≡ true
  pub alone : (j : ℕ) → (window_at ws j).focused ≡ true → j ≡ i

length-map : (ws : List Window) → length (map unfocus ws) ≡ length ws
length-map [] = refl
length-map (v ∷ vs) = ap suc (length-map vs)

unfocused : (j : ℕ) (ws : List Window) → (window_at (map unfocus ws) j).focused ≡ false
unfocused j [] = refl
unfocused zero (v ∷ vs) = refl
unfocused (suc j) (v ∷ vs) = unfocused j vs

focus_at-Focused :
    (i : ℕ) (ws : List Window) → length ws ≡ window_max → i < window_max → Focused i (focus_at i ws)
focus_at-Focused i ws size lt =
    let f : Window → Window = λ v. record v { focused = true } in
    let n = length-map ws in
    let self = get_or-modify_self f i (map unfocus ws) (window [] false []) (omega arith) in
    record {
      size = length-modify f i (map unfocus ws) ∙ n ∙ size;
      inside = lt;
      has = ap (λ v. v.focused) self;
      alone = λ j h. elim (modify-cases f i j (map unfocus ws) (window [] false [])) [
        | inr (e, g) ↦ sym e
        | inl e ↦ let t : true ≡ false = sym h ∙ ap (λ v. v.focused) e ∙ unfocused j ws in absurd cc
      ];
    }

-- A change that leaves the focus where it is.
modify-Focused :
    (f : Window → Window) (k i : ℕ) (ws : List Window)
    → ((v : Window) → (f v).focused ≡ v.focused)
    → Focused i ws
    → Focused i (modify f k ws)
modify-Focused f k i ws keeps r =
    let same : (j : ℕ) → (window_at (modify f k ws) j).focused ≡ (window_at ws j).focused =
      λ j. modify-field (λ (v : Window). v.focused) f k j ws (window [] false []) keeps in
    record {
      size = length-modify f k ws ∙ r.size;
      inside = r.inside;
      has = same i ∙ r.has;
      alone = λ j h. r.alone j (sym (same j) ∙ h);
    }

-- The calls of src/window.c that change the table.
pub data Call : Type 0 where
  init focus_next : Call
  focus : Text → Call
  move resize : Text → ℕ → ℕ → Call

unfoldable pub perform : Call → List Window → List Window
perform init ws = window_init ws
perform focus_next ws = window_focus_next ws
perform (focus name) ws = window_focus name ws
perform (move name x y) ws = window_move name x y ws
perform (resize name w h) ws = window_resize name w h ws

unfoldable pub run : List Call → List Window → List Window
unfolding perform
run [] ws = ws
run (c ∷ cs) ws = run cs (perform c ws)

focus-Focused :
    (name : Text) (i : ℕ) (ws : List Window)
    → Focused i ws
    → (k : ℕ) × Focused k (window_focus name ws)
unfolding window_focus window_find
focus-Focused name i ws r = elim (Option-cases (window_find name ws)) [
  | inl q ↦ (i, rw (q, window_focus) r)
  | inr (k, q) ↦
      let lt = find_index-lt _ ws k q in
      let size = r.size in (k, rw (q, window_focus) (focus_at-Focused k ws size (omega arith)))
]

perform-Focused :
    (c : Call) (i : ℕ) (ws : List Window) → Focused i ws → (k : ℕ) × Focused k (perform c ws)
unfolding perform window_init window_focus_next window_move window_resize
perform-Focused init i ws r = (0, focus_at-Focused 0 ws (r.size) (omega arith))
perform-Focused focus_next i ws r =
    (_, focus_at-Focused ((current_loop 0 0 ws + 1) % window_max) ws (r.size) (omega arith))
perform-Focused (focus name) i ws r = focus-Focused name i ws r
perform-Focused (move name x y) i ws r = elim (Option-cases (window_find name ws)) [
  | inl q ↦ (i, rw (q, window_move) r)
  | inr (k, q) ↦ (
    i,
    rw (q, window_move)
        (modify-Focused (λ (v : Window). record v { x = x; y = y }) k i ws (λ v. refl) r),
  )
]
perform-Focused (resize name w h) i ws r = elim (Option-cases (window_find name ws)) [
  | inl q ↦ (i, rw (q, window_resize) r)
  | inr (k, q) ↦ (
    i,
    rw (q, window_resize)
        (modify-Focused (λ (v : Window). record v { w = clamp 360 900 w; h = clamp 260 640 h }) k i
          ws (λ v. refl) r),
  )
]

run-Focused :
    (cs : List Call) (i : ℕ) (ws : List Window) → Focused i ws → (k : ℕ) × Focused k (run cs ws)
unfolding run
run-Focused [] i ws r = (i, r)
run-Focused (c ∷ cs) i ws r =
    let (k, s) = perform-Focused c i ws r in run-Focused cs k (perform c ws) s

window_focused-Focused : (k : ℕ) (ws : List Window) → Focused k ws → window_focused ws ≡ k
unfolding window_focused
window_focused-Focused k ws r =
    let size = r.size in
    let inside = r.inside in
    let before : (j : ℕ) → j < k → (window_at ws j).focused ≡ false = λ j h.
      elim (Bool-cases (window_at ws j).focused) [
        | inr q ↦ q
        | inl q ↦ let e = r.alone j q in absurd (omega arith)
      ] in
    let found =
      find_index-some (λ (v : Window). v.focused) ws k (window [] false []) (omega arith) (r.has)
        before in
    rw (found, window_focused) refl

-- After the initialisation of a table of four windows and any calls, exactly one window has the
-- focus, and it is the one that `window_focused` gives.
pub run-focused :
    (cs : List Call) (ws : List Window)
    → length ws ≡ window_max
    → ((window_at (run cs (window_init ws)) (window_focused (run cs (window_init ws)))).focused
        ≡ true)
      × ((j : ℕ)
          → (window_at (run cs (window_init ws)) j).focused ≡ true
          → j ≡ window_focused (run cs (window_init ws)))
unfolding window_init
run-focused cs ws size =
    let (k, r) = run-Focused cs 0 (window_init ws) (focus_at-Focused 0 ws size (omega arith)) in
    rw (window_focused-Focused k (run cs (window_init ws)) r) (r.has, r.alone)
