-- ===== src/Fs/Moves.antt =====
-- `fs_move` of src/fs.c with its target the same node as its source.
use tabla_rusa_os.Base.{
  ℕ, ◌<◌, ◌≡◌, refl, ◌∙◌, Text, true, false, none, some, length, length-set, arith, Option-cases,
  inl, inr, find_index, find_index-holds, ok,
}
use tabla_rusa_os.Fs.Node.{
  Fs, node, put, in_use, is_file, has_perm, child_of, blank, perm_write, unused,
}
use tabla_rusa_os.Fs.Path.{resolve}
use tabla_rusa_os.Fs.Ops.{open_file, check_writable, with_text, write_node, write, copy, rm, move}
use tabla_rusa_os.Fs.Tree.{IsTree, node-put_self}
use tabla_rusa_os.Fs.Bounds.{resolve-lt}
use tabla_rusa_os.Fs.Keeps.{copy-IsTree}
use tabla_rusa_os.Fs.RoundTrip.{resolve-put_same}

-- A file has no children.
no_children :
    (fs : Fs) (id : ℕ)
    → IsTree fs
    → is_file (node fs id) ≡ true
    → find_index (child_of id) fs.nodes ≡ none
no_children fs id tree f = elim (Option-cases (find_index (child_of id) fs.nodes)) [
  | inl q ↦ q
  | inr (k, q) ↦
      absurd (ground (arith, find_index-holds (child_of id) fs.nodes k blank q, tree.parents k))
]

-- `fs_rm` of a path that resolves to a file frees the file's node.
rm-file :
    (path : Text) (fs : Fs) (id : ℕ)
    → IsTree fs
    → resolve fs path ≡ some id
    → is_file (node fs id) ≡ true
    → rm path fs ≡ (ok tt, put id (record (node fs id) { kind = unused }) fs)
unfolding rm
rm-file path fs id tree e f = ground (arith, no_children fs id tree f, tree.root)

copy_same :
    (src dst : Text) (fs : Fs) (id : ℕ)
    → resolve fs src ≡ some id
    → resolve fs dst ≡ some id
    → is_file (node fs id) ≡ true
    → has_perm (node fs id).permissions perm_write ≡ true
    → copy src dst fs ≡ (ok tt, put id (with_text (node fs id).content (node fs id)) fs)
unfolding copy write open_file write_node check_writable
copy_same src dst fs id e e' f w = ground arith

-- In a well-formed tree, a writable file that `fs_move` moves onto its own path, or onto another
-- path of the same node, is lost: the move succeeds, and the node is free afterwards.
pub move_self :
    (src dst : Text) (fs : Fs) (id : ℕ)
    → IsTree fs
    → resolve fs src ≡ some id
    → resolve fs dst ≡ some id
    → is_file (node fs id) ≡ true
    → has_perm (node fs id).permissions perm_write ≡ true
    → ((move src dst fs).0 ≡ ok tt) × (in_use (node (move src dst fs).1 id) ≡ false)
unfolding move
move_self src dst fs id tree e e' f w =
    let n = with_text (node fs id).content (node fs id) in
    let fs' = put id n fs in
    let copied = copy_same src dst fs id e e' f w in
    let tree' : IsTree fs' = rw copied at (copy-IsTree src dst fs tree) in
    let in_range : id < length fs.nodes = omega (arith, tree.slots, resolve-lt fs tree src id e) in
    let in_range' : id < length fs'.nodes = omega (arith, length-set fs.nodes id n) in
    let self = node-put_self fs id n in_range in
    let found = resolve-put_same fs id n in_range refl refl refl src ∙ e in
    let removed = rm-file src fs' id tree' found (rw self f) in
    let gone = node-put_self fs' id (record (node fs' id) { kind = unused }) in_range' in
    ground (arith, copied, removed, gone)
