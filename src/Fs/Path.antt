-- ===== src/Fs/Path.antt =====
-- Path resolution of src/fs.c. A path is a text that the calls read part by part. Each round of a
-- loop that goes on takes at least one byte, so fuel above the length of the path never runs out.
use tabla_rusa_os.Base.{
  ℕ, zero, suc, ◌+◌, Text, Bool, true, false, Option, none, some, [], ◌∷◌, ◌==◌, ◌||◌,
  if◌then◌else◌, ltb, length, streq, str_copy, is_empty,
}
use tabla_rusa_os.Fs.Node.{Fs, node, is_dir, find_child, name_max}

abbrev pub slash : ℕ
slash = b'/'

abbrev pub dot : Text
dot = b'.' ∷ []

abbrev pub dotdot : Text
dotdot = b'.' ∷ b'.' ∷ []

abbrev pub is_absolute : Text → Bool
is_absolute [] = false
is_absolute (c ∷ cs) = c == slash

unfoldable pub skip_slashes : Text → Text
skip_slashes [] = []
skip_slashes (c ∷ cs) = if c == slash then skip_slashes cs else c ∷ cs

-- The bytes that the loop of `read_part` stores when `i` are stored already.
unfoldable pub part_bytes : ℕ → Text → Text
part_bytes i [] = []
part_bytes i (c ∷ cs) =
    let rest = part_bytes (if ltb (i + 1) name_max then i + 1 else i) cs in
    if c == slash then [] else if ltb (i + 1) name_max then c ∷ rest else rest

-- Where that loop leaves the pointer.
unfoldable pub after_part : Text → Text
after_part [] = []
after_part (c ∷ cs) = if c == slash then c ∷ cs else after_part cs

-- The part and the path behind it; the C function returns whether the part has a byte.
unfoldable pub read_part : Text → Text × Text
unfolding skip_slashes part_bytes after_part
read_part path = let p = skip_slashes path in (part_bytes 0 p, after_part p)

-- One step to `..`: the root stays where it is.
unfoldable pub up : Fs → ℕ → ℕ
up fs cur = if cur == 0 then cur else (node fs cur).parent

-- The loop of `resolve`. `none` is the return value -1.
unfoldable pub walk : Fs → ℕ → Text → ℕ → Option ℕ
walk fs zero path cur = none
walk fs (suc fuel) path cur =
    let part = (read_part path).0 in
    let rest = (read_part path).1 in
    elim (is_empty part) [
      | true ↦ some cur
      | false ↦ elim (streq part dot) [
        | true ↦ walk fs fuel rest cur
        | false ↦ elim (streq part dotdot) [
          | true ↦ walk fs fuel rest (up fs cur)
          | false ↦ elim (find_child fs cur part) [
            | none ↦ none
            | some child ↦ walk fs fuel rest child
          ]
        ]
      ]
    ]

abbrev pub start : Fs → Text → ℕ
start fs path = if is_absolute path then 0 else fs.cwd

unfoldable pub resolve : Fs → Text → Option ℕ
unfolding walk
resolve fs path =
    if is_empty path then some (start fs path) else walk fs (length path + 2) path (start fs path)

-- The loop of `resolve_parent`: the directory reached and the last part read.
unfoldable pub walk_parent : Fs → ℕ → Text → ℕ → Text → Option (ℕ × Text)
walk_parent fs zero path cur last = none
walk_parent fs (suc fuel) path cur last =
    let part = (read_part path).0 in
    let rest = (read_part path).1 in
    let last' = str_copy part name_max in
    elim (is_empty part) [
      | true ↦ some (cur, last)
      | false ↦ elim (is_empty (skip_slashes rest)) [
        | true ↦ some (cur, last')
        | false ↦ elim (streq part dot) [
          | true ↦ walk_parent fs fuel rest cur last'
          | false ↦ elim (streq part dotdot) [
            | true ↦ walk_parent fs fuel rest (up fs cur) last'
            | false ↦ elim (find_child fs cur part) [
              | none ↦ none
              | some child ↦
                  if is_dir (node fs child) then walk_parent fs fuel rest child last' else none
            ]
          ]
        ]
      ]
    ]

-- The checks of `resolve_parent` on what its loop found.
unfoldable pub check_last : ℕ → Text → Option (ℕ × Text)
check_last cur last =
    if is_empty last || streq last dot || streq last dotdot
    then none
    else some (cur, str_copy last name_max)

-- The directory and the name that a path to be created names. `none` is the return value -1.
unfoldable pub resolve_parent : Fs → Text → Option (ℕ × Text)
unfolding walk_parent check_last
resolve_parent fs path =
    if is_empty path
    then none
    else elim (walk_parent fs (length path + 2) path (start fs path) []) [
      | none ↦ none
      | some (cur, last) ↦ check_last cur last
    ]
