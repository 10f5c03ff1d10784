-- ===== src/Fs/RoundTrip.antt =====
-- What the operations of src/fs.c promise of one another: a file written is read back, a directory
-- made is there, and a line appended stands behind the old content.
use native.Mathlib.Decide.{ℕ_discrete}
use tabla_rusa_os.Base.{
  ℕ, zero, suc, ◌+◌, ◌<◌, ◌≡◌, refl, ◌∙◌, Text, true, false, some, [], ◌∷◌, ◌++◌, if◌then◌else◌,
  length, arith, Option-cases, Result-cases, str_copy, take_all, inl, inr, find_index-set, subst,
  ok, err, is_ok,
}
use tabla_rusa_os.Fs.Node.{
  Fs, Node, dir, file, node, put, in_use, is_file, is_child, find_child, blank, max_nodes,
  content_max,
}
use tabla_rusa_os.Fs.Path.{read_part, up, walk, start, resolve}
use tabla_rusa_os.Fs.Ops.{
  create_node, mkdir, touch, open_file, check_writable, with_text, write_node, write, appended,
  line_end, with_line, append_node, append_line, read, stat, can_read,
}
use tabla_rusa_os.Fs.Tree.{IsTree, node-put_ne, node-put_self}
use tabla_rusa_os.Fs.Bounds.{resolve-lt}
use tabla_rusa_os.Fs.Keeps.{open_file-lt, open_file-IsTree}
use tabla_rusa_os.Fs.Create.{create_node-Created, Created-resolve, Created-node}

-- A node written again under its name, kind and parent moves no path.
module _ (fs : Fs) (id : ℕ) (n : Node) (id_in : id < length fs.nodes)
    (same_kind : n.kind ≡ (node fs id).kind) (same_parent : n.parent ≡ (node fs id).parent)
    (same_name : n.name ≡ (node fs id).name) where
  find_child-put_same :
      (p : ℕ) (part : Text) → find_child (put id n fs) p part ≡ find_child fs p part
  unfolding find_child
  find_child-put_same p part =
      find_index-set (is_child p part) fs.nodes id n blank
        (rw (same_kind, same_parent, same_name) refl)

  up-put_same : (cur : ℕ) → up (put id n fs) cur ≡ up fs cur
  unfolding up
  up-put_same cur = elim (ℕ_discrete id cur) [
    | yes e ↦
        subst (λ k. up (put id n fs) k ≡ up fs k) e (ground (arith, node-put_self fs id n id_in))
    | no ne ↦ ground (arith, node-put_ne fs id cur n ne)
  ]

  walk-put_same :
      (fuel : ℕ) (path : Text) (cur : ℕ) → walk (put id n fs) fuel path cur ≡ walk fs fuel path cur
  unfolding walk
  walk-put_same zero path cur = refl
  walk-put_same (suc fuel) path cur =
      let rest = (read_part path).1 in
      elim (Option-cases (find_child fs cur (read_part path).0)) [
        | inl q ↦ ground (
          arith,
          find_child-put_same cur (read_part path).0,
          up-put_same cur,
          walk-put_same fuel rest cur,
          walk-put_same fuel rest (up fs cur),
        )
        | inr (child, q) ↦ ground (
          arith,
          find_child-put_same cur (read_part path).0,
          up-put_same cur,
          walk-put_same fuel rest cur,
          walk-put_same fuel rest (up fs cur),
          walk-put_same fuel rest child,
        )
      ]

  pub resolve-put_same : (path : Text) → resolve (put id n fs) path ≡ resolve fs path
  unfolding resolve
  resolve-put_same path = ground (arith, walk-put_same (length path + 2) path (start fs path))

-- `open_file` that succeeds leaves a table in which the path resolves to the node it returns.
pub open_file-resolve :
    (path : Text) (fs : Fs) (id : ℕ)
    → IsTree fs
    → in_use (node fs fs.cwd) ≡ true
    → (open_file path fs).0 ≡ ok id
    → resolve (open_file path fs).1 path ≡ some id
unfolding open_file
open_file-resolve path fs id tree live e = elim (Option-cases (resolve fs path)) [
  | inl q ↦ ground (
    arith,
    create_node-Created file path fs id,
    Created-resolve file path fs (create_node file path fs).1 id (λ h. cc) tree live,
  )
  | inr (k, q) ↦ ground arith
]

-- `read` through a resolved path.
read-resolved :
    (fs : Fs) (path : Text) (id : ℕ)
    → resolve fs path ≡ some id
    → is_file (node fs id) ≡ true
    → read fs path ≡ (if can_read fs path then ok (node fs id).content else err 2)
unfolding read can_read
read-resolved fs path id e f = ground arith

check_writable-file : (n : Node) → check_writable n ≡ ok tt → is_file n ≡ true
unfolding check_writable
check_writable-file n e = ground arith

module _ (path text : Text) (fs : Fs) (id : ℕ) (tree : IsTree fs) (id_in : id < max_nodes)
    (found : resolve fs path ≡ some id) where
  write_node-read :
      (write_node text id fs).0 ≡ ok tt
      → let fs' = (write_node text id fs).1 in
        read fs' path ≡ (if can_read fs' path then ok (str_copy text content_max) else err 2)
  unfolding write_node
  write_node-read e = elim (Result-cases (check_writable (node fs id))) [
    | inr (k, q) ↦ ground arith
    | inl (u, q) ↦
        let n = with_text text (node fs id) in
        let in_range : id < length fs.nodes = omega (arith, tree.slots) in
        let self = node-put_self fs id n in_range in
        let at_id = resolve-put_same fs id n in_range refl refl refl path ∙ found in
        rw (q, write_node)
          (read-resolved (put id n fs) path id at_id (rw self (check_writable-file (node fs id) q))
            ∙ rw self)
  ]

-- In a well-formed tree with a working directory in use, a file that `fs_write` wrote with
-- success is read back through the same path: the text cut to the 1023 bytes that fit the buffer,
-- or the permission error if its read permission is missing.
pub write-read :
    (path text : Text) (fs : Fs)
    → IsTree fs
    → in_use (node fs fs.cwd) ≡ true
    → (write path text fs).0 ≡ ok tt
    → let fs' = (write path text fs).1 in
      read fs' path ≡ (if can_read fs' path then ok (str_copy text content_max) else err 2)
unfolding write
write-read path text fs tree live e = elim (Result-cases (open_file path fs).0) [
  | inr (k, q) ↦ ground arith
  | inl (id, q) ↦
      rw (q, write)
        (write_node-read path text (open_file path fs).1 id (open_file-IsTree path fs tree)
          (open_file-lt path fs id tree q) (open_file-resolve path fs id tree live q)
          (rw (q, write) at e))
]

-- Where there is room, all of the text is appended.
appended-all :
    (pos : ℕ) (text : Text) → pos + length text + 1 < content_max → appended pos text ≡ text
unfolding appended
appended-all pos [] h = refl
appended-all pos (c ∷ cs) h = ground (arith, appended-all (pos + 1) cs)

with_line-fits :
    (text : Text) (n : Node)
    → n.size ≡ length n.content
    → n.size + length text + 1 < content_max
    → (with_line text n).content ≡ n.content ++ (text ++ (b'\n' ∷ []))
unfolding line_end
with_line-fits text n e h = ground (arith, appended-all n.size text, take_all n.size n.content)

-- In a well-formed tree, a line that `fs_append_line` appended with success to a readable file
-- stands behind the old content, closed by a line break, if the buffer of 1024 bytes has room for
-- all of it.
pub append_line-read :
    (path text : Text) (fs : Fs) (old : Text)
    → IsTree fs
    → read fs path ≡ ok old
    → length old + length text + 1 < content_max
    → (append_line path text fs).0 ≡ ok tt
    → read (append_line path text fs).1 path ≡ ok (old ++ (text ++ (b'\n' ∷ [])))
unfolding append_line open_file read append_node
append_line-read path text fs old tree r h e = elim (Option-cases (resolve fs path)) [
  | inl q ↦ ground arith
  | inr (id, q) ↦ elim (Result-cases (check_writable (node fs id))) [
    | inr (k, w) ↦ ground arith
    | inl (u, w) ↦
        let n = with_line text (node fs id) in
        let id_lt = resolve-lt fs tree path id q in
        let in_range : id < length fs.nodes = omega (arith, tree.slots) in
        let is : is_file (node fs id) ≡ true = check_writable-file (node fs id) w in
        ground (
          arith,
          tree.fits id,
          resolve-put_same fs id n in_range refl refl refl path,
          node-put_self fs id n in_range,
          with_line-fits text (node fs id),
        )
  ]
]

-- In a well-formed tree with a working directory in use, after `fs_mkdir` succeeded `fs_stat`
-- finds an empty directory at the path.
pub mkdir-stat :
    (path : Text) (fs : Fs)
    → IsTree fs
    → in_use (node fs fs.cwd) ≡ true
    → (mkdir path fs).0 ≡ ok tt
    → stat (mkdir path fs).1 path ≡ ok (1, 0)
unfolding mkdir stat
mkdir-stat path fs tree live e = elim (Result-cases (create_node dir path fs).0) [
  | inr (k, q) ↦ ground arith
  | inl (id, q) ↦
      let c = create_node-Created dir path fs id q in
      let at_id =
        Created-resolve dir path fs (create_node dir path fs).1 id (λ h. cc) tree live c in
      let is = Created-node dir path fs (create_node dir path fs).1 id c in
      ground (arith, at_id, is)
]

-- In a well-formed tree with a working directory in use, after `fs_touch` succeeded `fs_stat`
-- finds a file at the path, an empty one if nothing was found there before.
pub touch-stat :
    (path : Text) (fs : Fs)
    → IsTree fs
    → in_use (node fs fs.cwd) ≡ true
    → (touch path fs).0 ≡ ok tt
    → (size : ℕ) × (stat (touch path fs).1 path ≡ ok (2, size))
      × (is_ok (stat fs path) ≡ false → size ≡ 0)
unfolding touch stat
touch-stat path fs tree live e = elim (Option-cases (resolve fs path)) [
  | inr (id, q) ↦ ((node fs id).size, ground arith, ground arith)
  | inl q ↦ elim (Result-cases (create_node file path fs).0) [
    | inr (k, r) ↦ absurd (ground arith)
    | inl (id, r) ↦
        let c = create_node-Created file path fs id r in
        let at_id =
          Created-resolve file path fs (create_node file path fs).1 id (λ h. cc) tree live c in
        let is = Created-node file path fs (create_node file path fs).1 id c in
        (0, ground (arith, at_id, is), λ _. refl)
  ]
]
