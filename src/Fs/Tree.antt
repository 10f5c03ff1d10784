-- ===== src/Fs/Tree.antt =====
-- The well-formedness of the node table of src/fs.c: the used nodes form one tree below node 0.
use mathlib.Core.Logic.{◌≢◌}
use native.Mathlib.Decide.{ℕ_discrete}
use tabla_rusa_os.Base.{
  ℕ, ◌<◌, ◌≡◌, sym, ap, ◌⊎◌, inl, inr, true, false, length, length-set, get_or-set_self,
  get_or-set_ne, get_or-past, arith, subst, ◌∙◌,
}
use tabla_rusa_os.Fs.Node.{
  Fs, Node, unused, dir, node, put, in_use, is_dir, max_nodes, name_max, content_max, blank,
}

-- A chain of parents that ends at the root.
pub data UnderRoot (fs : Fs) : ℕ → Type 0 where
  top : UnderRoot fs 0
  under : {i : ℕ} → in_use (node fs i) ≡ true → UnderRoot fs (node fs i).parent → UnderRoot fs i

-- What a used slot holds: bounded strings, and a size that is the content's length.
pub record FitsNode (n : Node) : Type 0 where
  pub name_fits : length n.name < name_max
  pub size_eq : n.size ≡ length n.content
  pub content_fits : length n.content < content_max

pub record IsTree (fs : Fs) : Type 0 where
  pub slots : length fs.nodes ≡ max_nodes
  pub root : (node fs 0).kind ≡ dir
  pub root_parent : (node fs 0).parent ≡ 0
  pub cwd_in : fs.cwd < max_nodes
  -- Of the freed slots too: a removed working directory may still be left by `..`.
  pub parent_in : (i : ℕ) → (node fs i).parent < max_nodes
  pub parents : (i : ℕ) → in_use (node fs i) ≡ true → is_dir (node fs (node fs i).parent) ≡ true
  pub rooted : (i : ℕ) → in_use (node fs i) ≡ true → UnderRoot fs i
  pub fits : (i : ℕ) → in_use (node fs i) ≡ true → FitsNode (node fs i)

pub node-put_self : (fs : Fs) (i : ℕ) (n : Node) → i < length fs.nodes → node (put i n fs) i ≡ n
node-put_self fs i n h = get_or-set_self fs.nodes i n blank h

pub node-put_ne : (fs : Fs) (i j : ℕ) (n : Node) → i ≢ j → node (put i n fs) j ≡ node fs j
node-put_ne fs i j n h = get_or-set_ne fs.nodes i j n blank h

-- A used slot lies in the table.
pub used-lt : (fs : Fs) (i : ℕ) → in_use (node fs i) ≡ true → i < length fs.nodes
used-lt fs i h = ground (arith, get_or-past fs.nodes i blank)

-- Chains survive a change that keeps every used node in use under the same parent.
pub UnderRoot-keeps :
    (fs fs' : Fs)
    → ((i : ℕ)
        → in_use (node fs i) ≡ true
        → (in_use (node fs' i) ≡ true) × ((node fs' i).parent ≡ (node fs i).parent))
    → {i : ℕ} → UnderRoot fs i
    → UnderRoot fs' i
UnderRoot-keeps fs fs' keep top = top
UnderRoot-keeps fs fs' keep (under {i} u r) =
    under (keep i u).0 (subst (UnderRoot fs') (sym (keep i u).1) (UnderRoot-keeps fs fs' keep r))

-- Chains of the other nodes survive the removal of a node without children.
pub UnderRoot-remove :
    (fs : Fs) (id : ℕ) (n : Node)
    → ((i : ℕ) → in_use (node fs i) ≡ true → (node fs i).parent ≢ id)
    → {i : ℕ} → UnderRoot fs i
    → i ≢ id
    → UnderRoot (put id n fs) i
UnderRoot-remove fs id n leaf top h = top
UnderRoot-remove fs id n leaf (under {i} u r) h =
    let e = node-put_ne fs id i n (λ p. h (sym p)) in
    under (rw e u) (
      subst (UnderRoot (put id n fs)) (ap (λ (m : Node). m.parent) (sym e))
        (UnderRoot-remove fs id n leaf r (leaf i u)))

module _ (fs : Fs) (id : ℕ) (n : Node) (tree : IsTree fs) (id_in : id < max_nodes) where
  -- One slot of the table at every index after a write.
  pub put-cases :
      (j : ℕ)
      → ((j ≡ id) × (node (put id n fs) j ≡ n)) ⊎ ((j ≢ id) × (node (put id n fs) j ≡ node fs j))
  put-cases j = elim (ℕ_discrete j id) [
    | yes e ↦ inl (
      e,
      subst (λ k. node (put id n fs) k ≡ n) (sym e)
          (node-put_self fs id n (omega (arith, tree.slots))),
    )
    | no ne ↦ inr (ne, node-put_ne fs id j n (λ p. ne (sym p)))
  ]

  -- A write of one slot keeps the tree, if the new node fits in and its children still may hang
  -- below it.
  pub put-IsTree :
      (id ≡ 0 → (n.kind ≡ dir) × (n.parent ≡ 0))
      → (in_use n ≡ true → is_dir (node (put id n fs) n.parent) ≡ true)
      → ((i : ℕ) → in_use (node fs i) ≡ true → i ≢ id → (node fs i).parent ≡ id → is_dir n ≡ true)
      → ((i : ℕ) → in_use (node (put id n fs) i) ≡ true → UnderRoot (put id n fs) i)
      → (in_use n ≡ true → FitsNode n)
      → n.parent < max_nodes
      → IsTree (put id n fs)
  put-IsTree top_dir new_parent children rooted new_fits in_table = record {
    slots = length-set fs.nodes id n ∙ tree.slots;
    root = elim (put-cases 0) [
      | inl (e, p) ↦ ap (λ (m : Node). m.kind) p ∙ (top_dir (sym e)).0
      | inr (ne, p) ↦ ap (λ (m : Node). m.kind) p ∙ tree.root
    ];
    root_parent = elim (put-cases 0) [
      | inl (e, p) ↦ ap (λ (m : Node). m.parent) p ∙ (top_dir (sym e)).1
      | inr (ne, p) ↦ ap (λ (m : Node). m.parent) p ∙ tree.root_parent
    ];
    cwd_in = tree.cwd_in;
    parent_in = λ i. elim (put-cases i) [
      | inl (e, p) ↦ rw p in_table
      | inr (ne, p) ↦ rw p (tree.parent_in i)
    ];
    parents = λ i u. elim (put-cases i) [
      | inl (e, p) ↦ rw p (new_parent (rw p at u))
      | inr (ne, p) ↦ rw p (kept i ne (rw p at u))
    ];
    rooted = rooted;
    fits = λ i u. elim (put-cases i) [
      | inl (e, p) ↦ rw p (new_fits (rw p at u))
      | inr (ne, p) ↦ rw p (tree.fits i (rw p at u))
    ];
  }
    where
      kept :
          (i : ℕ)
          → i ≢ id
          → in_use (node fs i) ≡ true
          → is_dir (node (put id n fs) (node fs i).parent) ≡ true
      kept i ne u = elim (put-cases (node fs i).parent) [
        | inl (e, p) ↦ rw p (children i u ne e)
        | inr (ne', p) ↦ rw p (tree.parents i u)
      ]

  -- The node is written again with its kind and its parent as they were.
  pub put_same-IsTree :
      n.kind ≡ (node fs id).kind
      → n.parent ≡ (node fs id).parent
      → (in_use n ≡ true → FitsNode n)
      → IsTree (put id n fs)
  put_same-IsTree k q f =
      put-IsTree
        (λ e. (
          k ∙ subst (λ j. (node fs j).kind ≡ dir) (sym e) tree.root,
          q ∙ subst (λ j. (node fs j).parent ≡ 0) (sym e) tree.root_parent,
        ))
        (λ u. dir_kept n.parent (rw q (tree.parents id (used u))))
        (λ i u ne e. rw k (subst (λ j. is_dir (node fs j) ≡ true) e (tree.parents i u)))
        (λ i u. UnderRoot-keeps fs (put id n fs) kept (tree.rooted i (was_used i u))) f
        (rw q (tree.parent_in id))
    where
      used : in_use n ≡ true → in_use (node fs id) ≡ true
      used u = rw k at u

      dir_kept : (j : ℕ) → is_dir (node fs j) ≡ true → is_dir (node (put id n fs) j) ≡ true
      dir_kept j d = elim (put-cases j) [
        | inl (e, p) ↦ rw (p, k) (subst (λ m. is_dir (node fs m) ≡ true) e d)
        | inr (ne, p) ↦ rw p d
      ]

      was_used : (i : ℕ) → in_use (node (put id n fs) i) ≡ true → in_use (node fs i) ≡ true
      was_used i u = elim (put-cases i) [
        | inl (e, p) ↦ subst (λ m. in_use (node fs m) ≡ true) (sym e) (used (rw p at u))
        | inr (ne, p) ↦ rw p at u
      ]

      kept :
          (i : ℕ)
          → in_use (node fs i) ≡ true
          → (in_use (node (put id n fs) i) ≡ true)
            × ((node (put id n fs) i).parent ≡ (node fs i).parent)
      kept i u = elim (put-cases i) [
        | inl (e, p) ↦ (
          rw (p, k) (subst (λ m. in_use (node fs m) ≡ true) e u),
          rw p (q ∙ ap (λ m. (node fs m).parent) (sym e)),
        )
        | inr (ne, p) ↦ (rw p u, ap (λ (m : Node). m.parent) p)
      ]

  -- A free slot is taken by a node below a directory.
  pub put_new-IsTree :
      in_use (node fs id) ≡ false
      → is_dir (node fs n.parent) ≡ true
      → n.parent < max_nodes
      → FitsNode n
      → IsTree (put id n fs)
  put_new-IsTree free d q f =
      put-IsTree (λ e. absurd (not_root e)) (λ u. dir_kept n.parent d)
        (λ i u ne e. absurd (no_child i u e)) rooted (λ u. f) q
    where
      not_root : id ≢ 0
      not_root e = ground (arith, tree.root, subst (λ j. in_use (node fs j) ≡ false) e free)

      no_child : (i : ℕ) → in_use (node fs i) ≡ true → (node fs i).parent ≢ id
      no_child i u e = ground (arith, subst (λ j. is_dir (node fs j) ≡ true) e (tree.parents i u))

      differs : (j : ℕ) → in_use (node fs j) ≡ true → j ≢ id
      differs j u e = cc (subst (λ m. in_use (node fs m) ≡ true) e u)

      dir_kept : (j : ℕ) → is_dir (node fs j) ≡ true → is_dir (node (put id n fs) j) ≡ true
      dir_kept j h = elim (put-cases j) [
        | inl (e, p) ↦ ground (arith, subst (λ m. is_dir (node fs m) ≡ true) e h)
        | inr (ne, p) ↦ rw p h
      ]

      kept :
          (i : ℕ)
          → in_use (node fs i) ≡ true
          → (in_use (node (put id n fs) i) ≡ true)
            × ((node (put id n fs) i).parent ≡ (node fs i).parent)
      kept i u = elim (put-cases i) [
        | inl (e, p) ↦ absurd (differs i u e)
        | inr (ne, p) ↦ (rw p u, ap (λ (m : Node). m.parent) p)
      ]

      rooted : (i : ℕ) → in_use (node (put id n fs) i) ≡ true → UnderRoot (put id n fs) i
      rooted i u = elim (put-cases i) [
        | inl (e, p) ↦
            under u
              (rw p (UnderRoot-keeps fs (put id n fs) kept (tree.rooted n.parent (ground arith))))
        | inr (ne, p) ↦ UnderRoot-keeps fs (put id n fs) kept (tree.rooted i (rw p at u))
      ]

  -- A node without children is freed.
  pub put_free-IsTree :
      id ≢ 0
      → n.kind ≡ unused
      → n.parent < max_nodes
      → ((i : ℕ) → in_use (node fs i) ≡ true → (node fs i).parent ≢ id)
      → IsTree (put id n fs)
  put_free-IsTree ne k q leaf =
      put-IsTree (λ e. absurd (ne e)) (λ u. cc (rw k at u)) (λ i u ne' e. absurd (leaf i u e))
        rooted (λ u. cc (rw k at u)) q
    where
      rooted : (i : ℕ) → in_use (node (put id n fs) i) ≡ true → UnderRoot (put id n fs) i
      rooted i u = elim (put-cases i) [
        | inl (e, p) ↦ cc (rw (p, k) at u)
        | inr (ne', p) ↦ UnderRoot-remove fs id n leaf (tree.rooted i (rw p at u)) ne'
      ]
