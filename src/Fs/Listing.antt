-- ===== src/Fs/Listing.antt =====
-- The queries of src/fs.c over a directory's children, the working directory's name, and the
-- joining of paths.
use tabla_rusa_os.Base.{
  ℕ, zero, suc, ◌+◌, ◌-◌, Text, Option, none, some, List, [], ◌∷◌, ◌++◌, ◌==◌, ◌&&◌, not,
  if◌then◌else◌, ltb, length, str_copy, is_empty, Result, ok, err, count_if, codes, take,
}
use tabla_rusa_os.Fs.Node.{Fs, Node, node, is_dir, is_file, child_of}
use tabla_rusa_os.Fs.Path.{resolve, slash}

-- `(path && path[0]) ? resolve(path) : cwd`
unfoldable pub target : Fs → Text → Option ℕ
target fs path = if is_empty path then some fs.cwd else resolve fs path

unfoldable pub child_count : Fs → Text → ℕ
child_count fs path = elim (target fs path) [
  | none ↦ 0
  | some id ↦ if is_dir (node fs id) then count_if (child_of id) fs.nodes else 0
]

-- The loop of `fs_child_name`, with the children counted so far in `n`.
unfoldable pub nth_child : ℕ → ℕ → ℕ → List Node → Option Node
nth_child id index n [] = none
nth_child id index n (x ∷ xs) =
    let rest = nth_child id index (if child_of id x then n + 1 else n) xs in
    if child_of id x && (n == index) then some x else rest

-- The name and the type that go through the pointers.
unfoldable pub child_name : Fs → Text → ℕ → ℕ → Result (Text × ℕ)
child_name fs path index max = elim (target fs path) [
  | none ↦ err 1
  | some id ↦ if not (is_dir (node fs id)) then err 1 else elim (nth_child id index 0 fs.nodes) [
    | none ↦ err 1
    | some n ↦ ok (str_copy n.name max, if is_dir n then 1 else 2)
  ]
]

-- The line that `fs_ls` prints for a node.
abbrev pub ls_line : Node → Text
ls_line n = (if is_dir n then codes "[d] " else codes "[f] ") ++ (n.name ++ (b'\n' ∷ []))

-- The loop of `fs_ls` from index `i` on: every child but the directory itself.
unfoldable pub ls_lines : ℕ → ℕ → List Node → List Text
ls_lines id i [] = []
ls_lines id i (x ∷ xs) =
    let rest = ls_lines id (i + 1) xs in
    if child_of id x && not (i == id) then ls_line x ∷ rest else rest

-- What `fs_ls` prints, line by line.
unfoldable pub ls : Fs → Text → List Text
ls fs path = elim (target fs path) [
  | none ↦ codes "ls: not found\n" ∷ []
  | some id ↦
      if is_file (node fs id)
      then ((node fs id).name ++ (b'\n' ∷ [])) ∷ []
      else ls_lines id 0 fs.nodes
]

-- `for(j = 0; src[j] && len + 1 < max; j++) out[len++] = src[j];`
unfoldable pub push_bytes : ℕ → Text → Text → Text
push_bytes max out [] = out
push_bytes max out (c ∷ cs) =
    if ltb (length out + 1) max then push_bytes max (out ++ (c ∷ [])) cs else out

-- The stack of `fs_pwd`: at most `n` nodes from `cur` up, the root left out. The nearest to the
-- root comes first, as the second loop visits them.
unfoldable pub ancestors : Fs → ℕ → ℕ → List ℕ → List ℕ
ancestors fs zero cur stack = stack
ancestors fs (suc n) cur stack =
    let rest = ancestors fs n (node fs cur).parent (cur ∷ stack) in if cur == 0 then stack else rest

abbrev pub pwd_max : ℕ
pwd_max = 96

-- The second loop of `fs_pwd`.
unfoldable pub spell : Fs → Text → List ℕ → Text
spell fs out [] = out
spell fs out (i ∷ []) = push_bytes pwd_max out (node fs i).name
spell fs out (i ∷ j ∷ is) =
    spell fs (push_bytes pwd_max (push_bytes pwd_max out (node fs i).name) (slash ∷ [])) (j ∷ is)

unfoldable pub pwd : Fs → ℕ → Text
pwd fs max = str_copy (spell fs (slash ∷ []) (ancestors fs 16 fs.cwd [])) max

abbrev pub last_byte : Text → ℕ
last_byte [] = 0
last_byte (c ∷ []) = c
last_byte (c ∷ d ∷ cs) = last_byte (d ∷ cs)

-- The separator that `fs_join_path` puts behind the directory.
unfoldable pub separator : ℕ → Text → Text
separator max out =
    if ltb 1 (length out) && not (last_byte out == slash) && ltb (length out + 1) max
    then slash ∷ []
    else if (length out == 0) && ltb (length out + 1) max
    then slash ∷ []
    else []

-- What `out` holds afterwards; `none` if it is left alone.
unfoldable pub join_path : Text → Text → ℕ → Option Text
join_path path name max =
    let from = if is_empty path then slash ∷ [] else path in
    let out = take (max - 1) from in
    if max == 0 then none else some (push_bytes max (out ++ separator max out) name)
