-- ===== src/Fs/Children.antt =====
-- The listings of src/fs.c against one another: how many children are counted, named and printed.
use tabla_rusa_os.Base.{
  ℕ, zero, suc, ◌+◌, ◌≤◌, ◌<◌, ◌≡◌, refl, sym, ap, ◌∙◌, Text, Bool, true, false, Option, none, some,
  List, [], ◌∷◌, ◌==◌, if◌then◌else◌, length, arith, get_or, count_if, ltb, is_ok, Option-cases,
  Bool-cases, inl, inr,
}
use tabla_rusa_os.Fs.Node.{Fs, Node, node, is_dir, child_of, blank}
use tabla_rusa_os.Fs.Listing.{target, child_count, nth_child, child_name, ls_lines, ls}
use tabla_rusa_os.Fs.Tree.{IsTree, UnderRoot, top, under}

abbrev is_some {ℓ} : {A : Type ℓ} → Option A → Bool
is_some none = false
is_some (some a) = true

nth_child-passed :
    (id index n : ℕ) (xs : List Node) → index < n → is_some (nth_child id index n xs) ≡ false
unfolding nth_child
nth_child-passed id index n [] h = refl
nth_child-passed id index n (x ∷ xs) h =
    ground (arith, nth_child-passed id index (if child_of id x then n + 1 else n) xs)

nth_child-some :
    (id index n : ℕ) (xs : List Node)
    → n ≤ index
    → is_some (nth_child id index n xs) ≡ ltb index (n + count_if (child_of id) xs)
unfolding nth_child count_if
nth_child-some id index n [] h = ground arith
nth_child-some id index n (x ∷ xs) h =
    ground (arith, nth_child-some id index (n + 1) xs, nth_child-some id index n xs)

-- `fs_child_name` answers for exactly the indices below `fs_child_count`.
pub child_name-child_count :
    (fs : Fs) (path : Text) (index max : ℕ)
    → is_ok (child_name fs path index max) ≡ ltb index (child_count fs path)
unfolding child_name child_count
child_name-child_count fs path index max = elim (Option-cases (target fs path)) [
  | inl q ↦ ground arith
  | inr (id, q) ↦ ground (arith, nth_child-some id index 0 fs.nodes)
]

ls_lines-past :
    (id i : ℕ) (xs : List Node) → id < i → length (ls_lines id i xs) ≡ count_if (child_of id) xs
unfolding ls_lines count_if
ls_lines-past id i [] h = refl
ls_lines-past id i (x ∷ xs) h = ground (arith, ls_lines-past id (i + 1) xs)

ls_lines-count :
    (id i k : ℕ) (xs : List Node)
    → id ≡ i + k
    → count_if (child_of id) xs
      ≡ length (ls_lines id i xs) + (if child_of id (get_or xs k blank) then 1 else 0)
unfolding ls_lines count_if
ls_lines-count id i k [] e = omega arith
ls_lines-count id i zero (x ∷ xs) e = ground (arith, ls_lines-past id (i + 1) xs)
ls_lines-count id i (suc k) (x ∷ xs) e = ground (arith, ls_lines-count id (i + 1) k xs)

-- Only the root is its own parent.
pub own_parent : (fs : Fs) {i : ℕ} → UnderRoot fs i → (node fs i).parent ≡ i → i ≡ 0
own_parent fs top e = refl
own_parent fs (under {i} u r) e =
    let above = own_parent fs r (ap (λ k. (node fs k).parent) e) in sym e ∙ above

-- In a well-formed tree, `fs_child_count` is the number of entries that `fs_ls` prints for a
-- directory, but at the root, which is its own parent and counts itself, it is one more.
pub child_count-ls :
    (fs : Fs) (path : Text) (id : ℕ)
    → IsTree fs
    → target fs path ≡ some id
    → is_dir (node fs id) ≡ true
    → child_count fs path ≡ length (ls fs path) + (if id == 0 then 1 else 0)
unfolding child_count ls
child_count-ls fs path id tree e d = elim (Bool-cases (id == 0)) [
  | inl z ↦ ground (arith, ls_lines-count id 0 id fs.nodes, tree.root_parent)
  | inr z ↦
      ground (arith, ls_lines-count id 0 id fs.nodes, own_parent fs (tree.rooted id (ground arith)))
]
