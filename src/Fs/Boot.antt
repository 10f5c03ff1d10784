-- ===== src/Fs/Boot.antt =====
-- `fs_init` of src/fs.c sets a well-formed tree up, whatever the static memory held.
use tabla_rusa_os.Base.{
  ℕ, zero, suc, ◌<◌, ◌≡◌, refl, ap, ◌∙◌, Text, false, List, [], ◌∷◌, length, arith, get_or, codes,
}
use tabla_rusa_os.Fs.Node.{Fs, Node, node, in_use, blank, max_nodes}
use tabla_rusa_os.Fs.Ops.{mkdir, write}
use tabla_rusa_os.Fs.Init.{
  free_all, with_root, reset, make_dirs, write_files, boot_dirs, boot_files, init,
}
use tabla_rusa_os.Fs.Tree.{IsTree, top, FitsNode}
use tabla_rusa_os.Fs.Keeps.{mkdir-IsTree, write-IsTree, cd-IsTree}

length-free_all : (ns : List Node) → length (free_all ns) ≡ length ns
length-free_all [] = refl
length-free_all (n ∷ ns) = ap suc (length-free_all ns)

get_or-free_all :
    (ns : List Node) (i : ℕ) (P : ℕ → Type 0)
    → P 0
    → ((j : ℕ) → P (get_or ns j blank).parent)
    → (in_use (get_or (free_all ns) i blank) ≡ false) × P (get_or (free_all ns) i blank).parent
get_or-free_all [] i P z h = (refl, z)
get_or-free_all (n ∷ ns) zero P z h = (refl, h 0)
get_or-free_all (n ∷ ns) (suc i) P z h = get_or-free_all ns i P z (λ j. h (suc j))

-- The table that `fs_init` begins with is a tree of the root alone, if the table has its 192
-- slots, the stale parents lie in it, and the stale root holds a text, as they do in zeroed memory.
pub reset-IsTree :
    (fs : Fs)
    → length fs.nodes ≡ max_nodes
    → ((i : ℕ) → (node fs i).parent < max_nodes)
    → FitsNode (node fs 0)
    → IsTree (reset fs)
unfolding reset
reset-IsTree fs size old fits = go fs.nodes size old fits
  where
    go :
        (ns : List Node)
        → length ns ≡ max_nodes
        → ((i : ℕ) → (get_or ns i blank).parent < max_nodes)
        → FitsNode (get_or ns 0 blank)
        → IsTree (record { nodes = with_root (free_all ns); cwd = 0 })
    go [] e h f = absurd (omega arith)
    go (n ∷ ns) e h f =
        let free =
          λ (i : ℕ). get_or-free_all ns i (λ p. p < max_nodes) (omega arith) (λ j. h (suc j)) in
        record {
          slots = ap suc (length-free_all ns) ∙ e;
          root = refl;
          root_parent = refl;
          cwd_in = omega arith;
          parent_in = elim [ zero ↦ omega arith | suc i ↦ (free i).1 ];
          parents = elim [ zero ↦ λ u. refl | suc i ↦ λ u. absurd (ground (arith, free i)) ];
          rooted = elim [ zero ↦ λ u. top | suc i ↦ λ u. absurd (ground (arith, free i)) ];
          fits = elim [ zero ↦ λ u. omega arith | suc i ↦ λ u. absurd (ground (arith, free i)) ];
        }

make_dirs-IsTree : (ps : List Text) (fs : Fs) → IsTree fs → IsTree (make_dirs ps fs)
unfolding make_dirs
make_dirs-IsTree [] fs tree = tree
make_dirs-IsTree (p ∷ ps) fs tree = make_dirs-IsTree ps (mkdir p fs).1 (mkdir-IsTree p fs tree)

write_files-IsTree :
    (rows : List (Text × Text)) (fs : Fs) → IsTree fs → IsTree (write_files rows fs)
unfolding write_files
write_files-IsTree [] fs tree = tree
write_files-IsTree ((p, t) ∷ rows) fs tree =
    write_files-IsTree rows (write p t fs).1 (write-IsTree p t fs tree)

-- `fs_init` leaves a well-formed tree, from any table of 192 slots whose stale parents lie in it
-- and whose first slot holds a text.
pub init-IsTree :
    (fs : Fs)
    → length fs.nodes ≡ max_nodes
    → ((i : ℕ) → (node fs i).parent < max_nodes)
    → FitsNode (node fs 0)
    → IsTree (init fs)
unfolding init
init-IsTree fs size old fits =
    let start = reset-IsTree fs size old fits in
    let dirs = make_dirs-IsTree boot_dirs (reset fs) start in
    cd-IsTree (codes "/home") (write_files boot_files (make_dirs boot_dirs (reset fs)))
      (write_files-IsTree boot_files (make_dirs boot_dirs (reset fs)) dirs)
