-- ===== src/Fs/Bounds.antt =====
-- Memory safety of the path walks of src/fs.c: every index that they read or return is a slot.
use tabla_rusa_os.Base.{
  ℕ, zero, suc, ◌+◌, ◌<◌, ◌≡◌, inl, inr, Text, true, false, some, [], length, find_index-lt,
  find_index-holds, arith, Option-cases, eq_of_streq, str_copy,
}
use tabla_rusa_os.Fs.Node.{
  Fs, node, in_use, is_free, is_child, max_nodes, blank, name_max, find_child, alloc_node,
}
use tabla_rusa_os.Fs.Path.{
  read_part, up, walk, start, resolve, walk_parent, check_last, resolve_parent,
}
use tabla_rusa_os.Fs.Tree.{IsTree}

pub find_child-lt :
    (fs : Fs) (p : ℕ) (name : Text) (i : ℕ) → find_child fs p name ≡ some i → i < length fs.nodes
unfolding find_child
find_child-lt fs p name i e = find_index-lt (is_child p name) fs.nodes i e

-- What a search finds is in use, in that directory, under that name.
pub find_child-holds :
    (fs : Fs) (p : ℕ) (name : Text) (i : ℕ)
    → find_child fs p name ≡ some i
    → (in_use (node fs i) ≡ true) × ((node fs i).parent ≡ p) × ((node fs i).name ≡ name)
unfolding find_child
find_child-holds fs p name i e = ground (
  arith,
  find_index-holds (is_child p name) fs.nodes i blank e,
  eq_of_streq (node fs i).name name,
)

pub alloc_node-lt : (fs : Fs) (i : ℕ) → alloc_node fs ≡ some i → i < length fs.nodes
unfolding alloc_node
alloc_node-lt fs i e = find_index-lt is_free fs.nodes i e

pub alloc_node-free : (fs : Fs) (i : ℕ) → alloc_node fs ≡ some i → in_use (node fs i) ≡ false
unfolding alloc_node
alloc_node-free fs i e = ground (arith, find_index-holds is_free fs.nodes i blank e)

check_last-eq :
    (cur : ℕ) (last : Text) (id : ℕ) (name : Text)
    → check_last cur last ≡ some (id, name)
    → cur ≡ id
unfolding check_last
check_last-eq cur last id name e = ground arith

module _ (fs : Fs) (tree : IsTree fs) where
  pub up-lt : (cur : ℕ) → cur < max_nodes → up fs cur < max_nodes
  unfolding up
  up-lt cur h = ground (arith, tree.parent_in cur)

  walk-lt :
      (fuel : ℕ) (path : Text) (cur id : ℕ)
      → cur < max_nodes
      → walk fs fuel path cur ≡ some id
      → id < max_nodes
  unfolding walk
  walk-lt zero path cur id h e = cc
  walk-lt (suc fuel) path cur id h e =
      let rest = (read_part path).1 in
      let same = walk-lt fuel rest cur id h in
      let above = walk-lt fuel rest (up fs cur) id (up-lt cur h) in
      elim (Option-cases (find_child fs cur (read_part path).0)) [
        | inl q ↦ ground (arith, same, above)
        | inr (child, q) ↦
            let found = find_child-lt fs cur (read_part path).0 child q in
            ground (arith, same, above, walk-lt fuel rest child id, found, tree.slots)
      ]

  pub start-lt : (path : Text) → start fs path < max_nodes
  start-lt path = ground (arith, tree.cwd_in)

  -- In a well-formed tree, `resolve` returns an index of the table, if it returns one.
  pub resolve-lt : (path : Text) (id : ℕ) → resolve fs path ≡ some id → id < max_nodes
  unfolding resolve
  resolve-lt path id e =
      ground (arith, start-lt path, walk-lt (length path + 2) path (start fs path) id)

  walk_parent-lt :
      (fuel : ℕ) (path : Text) (cur : ℕ) (last : Text) (id : ℕ) (name : Text)
      → cur < max_nodes
      → walk_parent fs fuel path cur last ≡ some (id, name)
      → id < max_nodes
  unfolding walk_parent
  walk_parent-lt zero path cur last id name h e = cc
  walk_parent-lt (suc fuel) path cur last id name h e =
      let rest = (read_part path).1 in
      let last' = str_copy (read_part path).0 name_max in
      let same = walk_parent-lt fuel rest cur last' id name h in
      let above = walk_parent-lt fuel rest (up fs cur) last' id name (up-lt cur h) in
      elim (Option-cases (find_child fs cur (read_part path).0)) [
        | inl q ↦ ground (arith, same, above)
        | inr (child, q) ↦
            let found = find_child-lt fs cur (read_part path).0 child q in
            ground
              (arith, same, above, walk_parent-lt fuel rest child last' id name, found, tree.slots)
      ]

  -- `resolve_parent` returns an index of the table.
  pub resolve_parent-lt :
      (path : Text) (id : ℕ) (name : Text)
      → resolve_parent fs path ≡ some (id, name)
      → id < max_nodes
  unfolding resolve_parent
  resolve_parent-lt path id name e =
      elim (Option-cases (walk_parent fs (length path + 2) path (start fs path) [])) [
        | inl q ↦ ground (arith, q)
        | inr ((cur, last), q) ↦ ground (
          arith,
          start-lt path,
          walk_parent-lt (length path + 2) path (start fs path) [] cur last,
          check_last-eq cur last id name,
        )
      ]
