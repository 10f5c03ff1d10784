-- ===== src/Windows/Table.antt =====
-- The window table of src/window.c. An `int` is its bit pattern, a number below 2^32.
use tabla_rusa_os.Base.{
  ℕ, suc, ◌+◌, ◌%◌, List, [], ◌∷◌, Text, Bool, true, false, Option, none, some, ◌||◌, if◌then◌else◌,
  ltb, leb, modify, get_or, map, find_index, str_eq, codes,
}

-- `struct window_info`
pub record Window : Type 0 where
  pub name : Text
  pub focused : Bool
  pub x : ℕ
  pub y : ℕ
  pub w : ℕ
  pub h : ℕ
  pub surface : Text

abbrev pub window_max : ℕ
window_max = 4

abbrev pub window : Text → Bool → Text → Window
window name focused surface = record {
  name = name;
  focused = focused;
  x = 174;
  y = 72;
  w = 820;
  h = 594;
  surface = surface;
}

abbrev pub boot_windows : List Window
boot_windows =
    window (codes "shell") true (codes "vga-text")
    ∷ window (codes "editor") false (codes "vga-text")
    ∷ window (codes "network") false (codes "planned")
    ∷ window (codes "inspector") false (codes "planned")
    ∷ []

abbrev pub window_at : List Window → ℕ → Window
window_at ws i = get_or ws i (window [] false [])

abbrev pub unfocus : Window → Window
unfocus v = record v { focused = false }

-- The loop that takes the focus from every window, and the assignment that gives it to one.
abbrev pub focus_at : ℕ → List Window → List Window
focus_at i ws = modify (λ (v : Window). record v { focused = true }) i (map unfocus ws)

unfoldable pub window_init : List Window → List Window
window_init ws = focus_at 0 ws

unfoldable pub window_find : Text → List Window → Option ℕ
window_find name ws = find_index (λ (v : Window). str_eq v.name name) ws

unfoldable pub window_focus : Text → List Window → List Window
window_focus name ws = elim (window_find name ws) [ none ↦ ws | some i ↦ focus_at i ws ]

-- The loop that looks for the focus, from window `i` on: the last one counts.
unfoldable pub current_loop : ℕ → ℕ → List Window → ℕ
current_loop i current [] = current
current_loop i current (v ∷ vs) = current_loop (suc i) (if v.focused then i else current) vs

unfoldable pub window_focus_next : List Window → List Window
unfolding current_loop
window_focus_next ws = focus_at ((current_loop 0 0 ws + 1) % window_max) ws

unfoldable pub window_move : Text → ℕ → ℕ → List Window → List Window
window_move name x y ws = elim (window_find name ws) [
  | none ↦ ws
  | some i ↦ modify (λ (v : Window). record v { x = x; y = y }) i ws
]

-- `if(a < low) a = low; if(a > high) a = high;` of a signed number.
abbrev pub clamp : ℕ → ℕ → ℕ → ℕ
clamp low high a = if ltb a low || leb 0x8000_0000 a then low else if ltb high a then high else a

unfoldable pub window_resize : Text → ℕ → ℕ → List Window → List Window
window_resize name w h ws = elim (window_find name ws) [
  | none ↦ ws
  | some i ↦ modify (λ (v : Window). record v { w = clamp 360 900 w; h = clamp 260 640 h }) i ws
]

unfoldable pub window_focused : List Window → ℕ
window_focused ws = elim (find_index (λ (v : Window). v.focused) ws) [ none ↦ 0 | some i ↦ i ]
