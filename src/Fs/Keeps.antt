-- ===== src/Fs/Keeps.antt =====
-- Every operation of src/fs.c keeps the tree of nodes.
use tabla_rusa_os.Base.{
  ℕ, ◌+◌, ◌%◌, ◌<◌, ◌≡◌, refl, ◌≢◌, inl, inr, Text, true, [], ◌∷◌, ◌++◌, ◌==◌, length,
  length-str_copy, arith, Bool-cases, Option-cases, str_copy, Result-cases, ok, ◌||◌, find_index,
  find_index-none, take, length-append, length-take, is_empty,
}
use tabla_rusa_os.Fs.Node.{
  Fs, Node, Kind, unused, dir, file, node, in_use, is_dir, is_file, max_nodes, blank, child_of,
  find_child, alloc_node, name_max, content_max,
}
use tabla_rusa_os.Fs.Path.{resolve, resolve_parent}
use tabla_rusa_os.Fs.Ops.{
  new_node, create_in, create_node, mkdir, touch, open_file, check_writable, with_text, write_node,
  write, appended, line_end, with_line, append_node, append_line, rm, cd, chmod, copy, move, rename,
}
use tabla_rusa_os.Fs.Tree.{
  IsTree, FitsNode, UnderRoot-keeps, used-lt, put_same-IsTree, put_new-IsTree, put_free-IsTree,
}
use tabla_rusa_os.Fs.Bounds.{alloc_node-lt, alloc_node-free, resolve-lt, resolve_parent-lt}

pub create_in-IsTree :
    (kind : Kind) (parent : ℕ) (name : Text) (fs : Fs)
    → kind ≢ unused
    → parent < max_nodes
    → IsTree fs
    → IsTree (create_in kind parent name fs).1
unfolding create_in
create_in-IsTree kind parent name fs used h tree = elim (Bool-cases (is_dir (node fs parent))) [
  | inl d ↦ elim (Option-cases (find_child fs parent name)) [
    | inl q ↦ elim (Option-cases (alloc_node fs)) [
      | inl a ↦ rw (d, q, a) tree
      | inr (id, a) ↦
          rw (d, q, a)
            (put_new-IsTree fs id (new_node kind parent name) tree
              (omega (arith, alloc_node-lt fs id a, tree.slots)) (alloc_node-free fs id a) d h fits)
    ]
    | inr (i, q) ↦ rw (d, q) tree
  ]
  | inr d ↦ rw d tree
]
  where
    fits : FitsNode (new_node kind parent name)
    fits = omega (arith, length-str_copy name name_max)

pub create_node-IsTree :
    (kind : Kind) (path : Text) (fs : Fs)
    → kind ≢ unused
    → IsTree fs
    → IsTree (create_node kind path fs).1
unfolding create_node
create_node-IsTree kind path fs used tree = elim (Option-cases (resolve_parent fs path)) [
  | inl q ↦ rw (q, create_node) tree
  | inr ((parent, name), q) ↦
      rw (q, create_node)
        (create_in-IsTree kind parent name fs used (resolve_parent-lt fs tree path parent name q)
          tree)
]

-- `fs_mkdir` keeps the tree.
pub mkdir-IsTree : (path : Text) (fs : Fs) → IsTree fs → IsTree (mkdir path fs).1
unfolding mkdir
mkdir-IsTree path fs tree = create_node-IsTree dir path fs (λ e. cc) tree

pub touch-IsTree : (path : Text) (fs : Fs) → IsTree fs → IsTree (touch path fs).1
unfolding touch
touch-IsTree path fs tree = elim (Option-cases (resolve fs path)) [
  | inl q ↦ rw (q, touch) (create_node-IsTree file path fs (λ e. cc) tree)
  | inr (id, q) ↦ rw (q, touch) tree
]

pub open_file-IsTree : (path : Text) (fs : Fs) → IsTree fs → IsTree (open_file path fs).1
unfolding open_file
open_file-IsTree path fs tree = elim (Option-cases (resolve fs path)) [
  | inl q ↦ rw (q, open_file) (create_node-IsTree file path fs (λ e. cc) tree)
  | inr (id, q) ↦ rw (q, open_file) tree
]

pub open_file-lt :
    (path : Text) (fs : Fs) (id : ℕ) → IsTree fs → (open_file path fs).0 ≡ ok id → id < max_nodes
unfolding open_file create_node create_in
open_file-lt path fs id tree e = elim (Option-cases (resolve fs path)) [
  | inl q ↦ elim (Option-cases (resolve_parent fs path)) [
    | inl q' ↦ ground arith
    | inr ((parent, name), q') ↦ elim (Option-cases (alloc_node fs)) [
      | inl a ↦ ground arith
      | inr (k, a) ↦ ground (arith, alloc_node-lt fs k a, tree.slots)
    ]
  ]
  | inr (k, q) ↦ ground (arith, resolve-lt fs tree path k q)
]

-- The bytes appended stay below the last byte of the array, which is the terminator's.
pub appended-fits :
    (pos : ℕ) (text : Text) → pos < content_max → pos + length (appended pos text) < content_max
unfolding appended
appended-fits pos [] h = omega arith
appended-fits pos (c ∷ cs) h = ground (arith, appended-fits (pos + 1) cs)

with_line-FitsNode : (text : Text) (n : Node) → FitsNode n → FitsNode (with_line text n)
unfolding line_end
with_line-FitsNode text n f =
    let add = appended n.size text in
    let stop = line_end (n.size + length add) in
    ground (
      arith,
      appended-fits n.size text,
      length-append (take n.size n.content) (add ++ stop),
      length-append add stop,
      length-take n.size n.content,
    )

cwd-IsTree : (fs : Fs) (id : ℕ) → IsTree fs → id < max_nodes → IsTree (record fs { cwd = id })
cwd-IsTree fs id tree h = record {
  slots = tree.slots;
  root = tree.root;
  root_parent = tree.root_parent;
  cwd_in = h;
  parent_in = tree.parent_in;
  parents = tree.parents;
  rooted = λ i u. UnderRoot-keeps fs (record fs { cwd = id }) (λ j v. (v, refl)) (tree.rooted i u);
  fits = tree.fits;
}

-- A write of text and size keeps a node's place in the tree.
module _ (fs : Fs) (id : ℕ) (text : Text) (tree : IsTree fs) (id_in : id < max_nodes) where
  pub write_node-IsTree : IsTree (write_node text id fs).1
  unfolding write_node
  write_node-IsTree = elim (Result-cases (check_writable (node fs id))) [
    | inl (u, e) ↦
        rw (e, write_node)
          (put_same-IsTree fs id (with_text text (node fs id)) tree id_in refl refl (λ u. fits u))
    | inr (k, e) ↦ rw (e, write_node) tree
  ]
    where
      fits : in_use (node fs id) ≡ true → FitsNode (with_text text (node fs id))
      fits u = record {
        name_fits = (tree.fits id u).name_fits;
        size_eq = refl;
        content_fits = omega (arith, length-str_copy text content_max);
      }

  pub append_node-IsTree : IsTree (append_node text id fs).1
  unfolding append_node
  append_node-IsTree = elim (Result-cases (check_writable (node fs id))) [
    | inl (u, e) ↦
        rw (e, append_node)
          (put_same-IsTree fs id (with_line text (node fs id)) tree id_in refl refl
            (λ u. with_line-FitsNode text (node fs id) (tree.fits id u)))
    | inr (k, e) ↦ rw (e, append_node) tree
  ]

pub write-IsTree : (path text : Text) (fs : Fs) → IsTree fs → IsTree (write path text fs).1
unfolding write
write-IsTree path text fs tree = elim (Result-cases (open_file path fs).0) [
  | inl (id, e) ↦
      rw (e, write)
        (write_node-IsTree (open_file path fs).1 id text (open_file-IsTree path fs tree)
          (open_file-lt path fs id tree e))
  | inr (k, e) ↦ rw (e, write) (open_file-IsTree path fs tree)
]

pub append_line-IsTree :
    (path text : Text) (fs : Fs) → IsTree fs → IsTree (append_line path text fs).1
unfolding append_line
append_line-IsTree path text fs tree = elim (Result-cases (open_file path fs).0) [
  | inl (id, e) ↦
      rw (e, append_line)
        (append_node-IsTree (open_file path fs).1 id text (open_file-IsTree path fs tree)
          (open_file-lt path fs id tree e))
  | inr (k, e) ↦ rw (e, append_line) (open_file-IsTree path fs tree)
]

pub rm-IsTree : (path : Text) (fs : Fs) → IsTree fs → IsTree (rm path fs).1
unfolding rm
rm-IsTree path fs tree = elim (Option-cases (resolve fs path)) [
  | inl q ↦ rw (q, rm) tree
  | inr (id, q) ↦ elim (Bool-cases (id == 0)) [
    | inl z ↦ rw (q, rm, z) tree
    | inr z ↦ elim (Option-cases (find_index (child_of id) fs.nodes)) [
      | inl c ↦
          rw (q, rm, z, c)
            (put_free-IsTree fs id (record (node fs id) { kind = unused }) tree
              (resolve-lt fs tree path id q) (λ e. ground arith) refl (tree.parent_in id)
              (λ i u e.
                ground (arith, find_index-none (child_of id) fs.nodes i blank c (used-lt fs i u))))
      | inr (i, c) ↦ rw (q, rm, z, c) tree
    ]
  ]
]

pub cd-IsTree : (path : Text) (fs : Fs) → IsTree fs → IsTree (cd path fs).1
unfolding cd
cd-IsTree path fs tree = elim (Option-cases (resolve fs path)) [
  | inl q ↦ rw (q, cd) tree
  | inr (id, q) ↦ elim (Bool-cases (is_dir (node fs id))) [
    | inl d ↦ rw (q, cd, d) (cwd-IsTree fs id tree (resolve-lt fs tree path id q))
    | inr d ↦ rw (q, cd, d) tree
  ]
]

pub chmod-IsTree :
    (path : Text) (permissions : ℕ) (fs : Fs) → IsTree fs → IsTree (chmod path permissions fs).1
unfolding chmod
chmod-IsTree path permissions fs tree = elim (Option-cases (resolve fs path)) [
  | inl q ↦ rw (q, chmod) tree
  | inr (id, q) ↦
      rw (q, chmod)
        (put_same-IsTree fs id (record (node fs id) { permissions = permissions % 8 }) tree
          (resolve-lt fs tree path id q) refl refl
          (λ u.
            let f = tree.fits id u in
            record { name_fits = f.name_fits; size_eq = f.size_eq; content_fits = f.content_fits }))
]

pub copy-IsTree : (src dst : Text) (fs : Fs) → IsTree fs → IsTree (copy src dst fs).1
unfolding copy
copy-IsTree src dst fs tree = elim (Option-cases (resolve fs src)) [
  | inl q ↦ rw (q, copy) tree
  | inr (id, q) ↦ elim (Bool-cases (is_file (node fs id))) [
    | inl f ↦ rw (q, copy, f) (write-IsTree dst (node fs id).content fs tree)
    | inr f ↦ rw (q, copy, f) tree
  ]
]

pub move-IsTree : (src dst : Text) (fs : Fs) → IsTree fs → IsTree (move src dst fs).1
unfolding move
move-IsTree src dst fs tree = elim (Result-cases (copy src dst fs).0) [
  | inl (u, e) ↦ rw (e, move) (rm-IsTree src (copy src dst fs).1 (copy-IsTree src dst fs tree))
  | inr (k, e) ↦ rw (e, move) (copy-IsTree src dst fs tree)
]

pub rename-IsTree : (path name : Text) (fs : Fs) → IsTree fs → IsTree (rename path name fs).1
unfolding rename
rename-IsTree path name fs tree = elim (Option-cases (resolve fs path)) [
  | inl q ↦ rw (q, rename) tree
  | inr (id, q) ↦ elim (Bool-cases ((id == 0) || is_empty name)) [
    | inl z ↦ rw (q, rename, z) tree
    | inr z ↦ elim (Option-cases (find_child fs (node fs id).parent name)) [
      | inr (i, c) ↦ rw (q, rename, z, c) tree
      | inl c ↦
          rw (q, rename, z, c)
            (put_same-IsTree fs id (record (node fs id) { name = str_copy name name_max }) tree
              (resolve-lt fs tree path id q) refl refl
              (λ u.
                let f = tree.fits id u in
                record {
                  name_fits = omega (arith, length-str_copy name name_max);
                  size_eq = f.size_eq;
                  content_fits = f.content_fits;
                }))
    ]
  ]
]
