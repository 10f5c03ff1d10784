-- ===== src/Fs/Ops.antt =====
-- The operations of src/fs.c that change the table, and the reads of one node. Each returns the
-- new state beside what the C function returns.
use tabla_rusa_os.Base.{
  ℕ, ◌+◌, ◌%◌, Text, Bool, Option, none, some, [], ◌∷◌, ◌++◌, ◌==◌, ◌||◌, not, if◌then◌else◌, ltb,
  length, str_copy, is_empty, Result, ok, err, forget, find_index, take,
}
use tabla_rusa_os.Fs.Node.{
  Fs, Node, Kind, unused, dir, file, node, put, is_dir, is_file, has_perm, find_child, alloc_node,
  child_of, name_max, content_max, perm_read, perm_write, perm_exec,
}
use tabla_rusa_os.Fs.Path.{resolve, resolve_parent}

-- What `create_node` writes into the slot that it takes; the other slots keep their values.
abbrev pub new_node : Kind → ℕ → Text → Node
new_node kind parent name = record {
  kind = kind;
  parent = parent;
  name = str_copy name name_max;
  content = [];
  size = 0;
  permissions = 3;
}

unfoldable pub create_in : Kind → ℕ → Text → Fs → Result ℕ × Fs
create_in kind parent name fs =
    if not (is_dir (node fs parent)) then (err 1, fs) else elim (find_child fs parent name) [
      | some i ↦ (err 2, fs)
      | none ↦ elim (alloc_node fs) [
        | none ↦ (err 3, fs)
        | some id ↦ (ok id, put id (new_node kind parent name) fs)
      ]
    ]

unfoldable pub create_node : Kind → Text → Fs → Result ℕ × Fs
create_node kind path fs = elim (resolve_parent fs path) [
  | none ↦ (err 1, fs)
  | some (parent, name) ↦ create_in kind parent name fs
]

unfoldable pub mkdir : Text → Fs → Result (Unit {0}) × Fs
mkdir path fs = let (r, fs') = create_node dir path fs in (forget r, fs')

unfoldable pub touch : Text → Fs → Result (Unit {0}) × Fs
touch path fs = elim (resolve fs path) [
  | some id ↦ (if is_file (node fs id) then ok tt else err 2, fs)
  | none ↦ let (r, fs') = create_node file path fs in (forget r, fs')
]

-- The node that `fs_write` and `fs_append_line` work on: the one found, or a new file.
unfoldable pub open_file : Text → Fs → Result ℕ × Fs
open_file path fs = elim (resolve fs path) [
  | some id ↦ (ok id, fs)
  | none ↦ create_node file path fs
]

-- The checks of both on that node.
unfoldable pub check_writable : Node → Result (Unit {0})
check_writable n =
    if not (is_file n)
    then err 2
    else if not (has_perm n.permissions perm_write)
    then err 4
    else ok tt

-- `str_copy(content, text, FS_CONTENT_MAX); size = str_len(content);`
abbrev pub with_text : Text → Node → Node
with_text text n = record n {
  content = str_copy text content_max;
  size = length (str_copy text content_max);
}

unfoldable pub write_node : Text → ℕ → Fs → Result (Unit {0}) × Fs
write_node text id fs = elim (check_writable (node fs id)) [
  | err k ↦ (err k, fs)
  | ok u ↦ (ok tt, put id (with_text text (node fs id)) fs)
]

unfoldable pub write : Text → Text → Fs → Result (Unit {0}) × Fs
write path text fs =
    let opened = open_file path fs in
    elim opened.0 [ err k ↦ (err k, opened.1) | ok id ↦ write_node text id opened.1 ]

-- The bytes that the loop of `fs_append_line` stores from position `pos` on.
unfoldable pub appended : ℕ → Text → Text
appended pos [] = []
appended pos (c ∷ cs) =
    let rest = appended (pos + 1) cs in if ltb (pos + 2) content_max then c ∷ rest else []

-- The line break behind them, if there is room.
unfoldable pub line_end : ℕ → Text
line_end pos = if ltb (pos + 1) content_max then b'\n' ∷ [] else []

abbrev pub with_line : Text → Node → Node
with_line text n =
    let line = appended n.size text ++ line_end (n.size + length (appended n.size text)) in
    record n { content = take n.size n.content ++ line; size = n.size + length line }

unfoldable pub append_node : Text → ℕ → Fs → Result (Unit {0}) × Fs
append_node text id fs = elim (check_writable (node fs id)) [
  | err k ↦ (err k, fs)
  | ok u ↦ (ok tt, put id (with_line text (node fs id)) fs)
]

unfoldable pub append_line : Text → Text → Fs → Result (Unit {0}) × Fs
append_line path text fs =
    let opened = open_file path fs in
    elim opened.0 [ err k ↦ (err k, opened.1) | ok id ↦ append_node text id opened.1 ]

-- The content goes through `out`.
unfoldable pub read : Fs → Text → Result Text
read fs path = elim (resolve fs path) [
  | none ↦ err 1
  | some id ↦
      if not (is_file (node fs id))
      then err 1
      else if not (has_perm (node fs id).permissions perm_read)
      then err 2
      else ok (node fs id).content
]

unfoldable pub rm : Text → Fs → Result (Unit {0}) × Fs
rm path fs = elim (resolve fs path) [
  | none ↦ (err 1, fs)
  | some id ↦ if id == 0 then (err 1, fs) else elim (find_index (child_of id) fs.nodes) [
    | some i ↦ (err 2, fs)
    | none ↦ (ok tt, put id (record (node fs id) { kind = unused }) fs)
  ]
]

unfoldable pub cd : Text → Fs → Result (Unit {0}) × Fs
cd path fs = elim (resolve fs path) [
  | none ↦ (err 1, fs)
  | some id ↦ if is_dir (node fs id) then (ok tt, record fs { cwd = id }) else (err 1, fs)
]

-- The type (1 for a directory, else 2) and the size that go through the pointers.
unfoldable pub stat : Fs → Text → Result (ℕ × ℕ)
stat fs path = elim (resolve fs path) [
  | none ↦ err 1
  | some id ↦
      ok (
        if is_dir (node fs id) then 1 else 2,
        if is_file (node fs id) then (node fs id).size else 0,
      )
]

-- `permissions & 7`
unfoldable pub chmod : Text → ℕ → Fs → Result (Unit {0}) × Fs
chmod path permissions fs = elim (resolve fs path) [
  | none ↦ (err 1, fs)
  | some id ↦ (ok tt, put id (record (node fs id) { permissions = permissions % 8 }) fs)
]

unfoldable pub permissions_of : Fs → Text → ℕ
permissions_of fs path = elim (resolve fs path) [ none ↦ 0 | some id ↦ (node fs id).permissions ]

unfoldable pub can_read : Fs → Text → Bool
unfolding permissions_of
can_read fs path = has_perm (permissions_of fs path) perm_read

unfoldable pub can_write : Fs → Text → Bool
unfolding permissions_of
can_write fs path = has_perm (permissions_of fs path) perm_write

-- What `out` holds afterwards; `none` if it is left alone.
unfoldable pub permission_string : Fs → Text → ℕ → Option Text
permission_string fs path max =
    let p = permissions_of fs path in
    if max == 0
    then none
    else if ltb max 4
    then some []
    else some (
        (if has_perm p perm_read then b'r' else b'-')
        ∷ (if has_perm p perm_write then b'w' else b'-')
        ∷ (if has_perm p perm_exec then b'x' else b'-')
        ∷ [])

unfoldable pub copy : Text → Text → Fs → Result (Unit {0}) × Fs
copy src dst fs = elim (resolve fs src) [
  | none ↦ (err 1, fs)
  | some id ↦ if is_file (node fs id) then write dst (node fs id).content fs else (err 1, fs)
]

unfoldable pub move : Text → Text → Fs → Result (Unit {0}) × Fs
move src dst fs =
    let (r, fs') = copy src dst fs in elim r [ err k ↦ (err k, fs') | ok u ↦ rm src fs' ]

unfoldable pub rename : Text → Text → Fs → Result (Unit {0}) × Fs
rename path new_name fs = elim (resolve fs path) [
  | none ↦ (err 1, fs)
  | some id ↦
      if (id == 0) || is_empty new_name
      then (err 1, fs)
      else elim (find_child fs (node fs id).parent new_name) [
        | some i ↦ (err 2, fs)
        | none ↦ (ok tt, put id (record (node fs id) { name = str_copy new_name name_max }) fs)
      ]
]
