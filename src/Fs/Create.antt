-- ===== src/Fs/Create.antt =====
-- What `create_node` of src/fs.c leaves behind: the path now resolves to the new node.
use tabla_rusa_os.Base.{
  ℕ, zero, suc, ◌+◌, ◌<◌, ◌≡◌, ◌≢◌, refl, ◌∙◌, Text, true, false, none, some, [], length, arith,
  Bool-cases, Option-cases, is_empty, streq, streq_refl, str_copy, str_copy_fits, length-str_copy,
  inl, inr, find_index-set, find_index-set_new, eq_of_streq, subst, ok,
}
use tabla_rusa_os.Fs.Node.{
  Fs, Node, Kind, unused, node, put, in_use, is_dir, is_child, name_max, find_child, alloc_node,
  blank,
}
use tabla_rusa_os.Fs.Path.{
  skip_slashes, read_part, up, walk, start, resolve, walk_parent, check_last, resolve_parent, dot,
  dotdot,
}
use tabla_rusa_os.Fs.Ops.{new_node, create_in, create_node}
use tabla_rusa_os.Fs.Tree.{IsTree, node-put_ne, node-put_self}
use tabla_rusa_os.Fs.Bounds.{find_child-holds, alloc_node-lt, alloc_node-free}
use tabla_rusa_os.Fs.Walk.{part-empty, length-part, walk_fuel}

-- A node `n` of a new name goes into the free slot `id` below the directory `parent`.
module _ (fs : Fs) (tree : IsTree fs) (id parent : ℕ) (name : Text) (n : Node)
    (id_in : id < length fs.nodes) (free : in_use (node fs id) ≡ false) (used : in_use n ≡ true)
    (named : n.name ≡ name) (placed : n.parent ≡ parent)
    (fresh : find_child fs parent name ≡ none) where
  differs : (k : ℕ) → in_use (node fs k) ≡ true → id ≢ k
  differs k u e = cc (subst (λ m. in_use (node fs m) ≡ false) e free)

  find_child-new : find_child (put id n fs) parent name ≡ some id
  unfolding find_child
  find_child-new =
      find_index-set_new (is_child parent name) fs.nodes id n fresh id_in
        (ground (arith, streq_refl name))

  -- Searches that succeeded before find the same node.
  find_child-old :
      (p : ℕ) (part : Text) (k : ℕ)
      → find_child fs p part ≡ some k
      → find_child (put id n fs) p part ≡ some k
  unfolding find_child
  find_child-old p part k e = find_index-set (is_child p part) fs.nodes id n blank same ∙ e
    where
      same : is_child p part (node fs id) ≡ is_child p part n
      same = ground (arith, eq_of_streq name part)

  up-old : (cur : ℕ) → in_use (node fs cur) ≡ true → up (put id n fs) cur ≡ up fs cur
  unfolding up
  up-old cur u = rw (node-put_ne fs id cur n (differs cur u))

  up-used : (cur : ℕ) → in_use (node fs cur) ≡ true → in_use (node fs (up fs cur)) ≡ true
  unfolding up
  up-used cur u = ground (arith, tree.parents cur u)

  -- The walk of `resolve` through the new table ends at the new node wherever the walk of
  -- `resolve_parent` through the old one ended at its directory with its name.
  module _ (no_dot : streq name dot ≡ false) (no_dotdot : streq name dotdot ≡ false)
      (some_name : is_empty name ≡ false) where
    walk-new :
        (fuel : ℕ) (path : Text) (cur : ℕ) (last : Text)
        → in_use (node fs cur) ≡ true
        → (is_empty (skip_slashes path) ≡ true → is_empty last ≡ true)
        → walk_parent fs fuel path cur last ≡ some (parent, name)
        → walk (put id n fs) (suc fuel) path cur ≡ some id
    unfolding walk walk_parent
    walk-new zero path cur last u h e = cc
    walk-new (suc fuel) path cur last u h e =
        let part = (read_part path).0 in
        let rest = (read_part path).1 in
        let last' = str_copy part name_max in
        let fits = str_copy_fits part name_max (length-part path) in
        let same = walk-new fuel rest cur last' u in
        let above = walk-new fuel rest (up fs cur) last' (up-used cur u) in
        elim (Bool-cases (is_empty part)) [
          | inl p ↦ ground (arith, part-empty path, h)
          | inr p ↦ elim (Bool-cases (is_empty (skip_slashes rest))) [
            | inl z ↦ ground (arith, fits, find_child-new, part-empty rest)
            | inr z ↦ elim (Option-cases (find_child fs cur part)) [
              | inl q ↦ ground (arith, same, above, up-old cur u)
              | inr (child, q) ↦ ground (
                arith,
                same,
                above,
                up-old cur u,
                find_child-old cur part child q,
                find_child-holds fs cur part child q,
                walk-new fuel rest child last',
              )
            ]
          ]
        ]

-- What a successful creation did.
pub record Created (kind : Kind) (path : Text) (fs fs' : Fs) (id : ℕ) : Type 0 where
  pub parent : ℕ
  pub name : Text
  pub reached : resolve_parent fs path ≡ some (parent, name)
  pub below_dir : is_dir (node fs parent) ≡ true
  pub fresh : find_child fs parent name ≡ none
  pub slot : alloc_node fs ≡ some id
  pub table : fs' ≡ put id (new_node kind parent name) fs

pub create_node-Created :
    (kind : Kind) (path : Text) (fs : Fs) (id : ℕ)
    → (create_node kind path fs).0 ≡ ok id
    → Created kind path fs (create_node kind path fs).1 id
unfolding create_node create_in
create_node-Created kind path fs id e = elim (Option-cases (resolve_parent fs path)) [
  | inl q ↦ ground (arith, q)
  | inr ((parent, name), q) ↦ elim (Option-cases (find_child fs parent name)) [
    | inr (i, c) ↦ ground (arith, q, c)
    | inl c ↦ elim (Option-cases (alloc_node fs)) [
      | inl a ↦ ground (arith, q, c, a)
      | inr (k, a) ↦ record {
        parent = parent;
        name = name;
        reached = q;
        below_dir = ground (arith, q, c, a);
        fresh = c;
        slot = ground (arith, q, c, a);
        table = ground (arith, q, c, a);
      }
    ]
  ]
]

-- The name that `resolve_parent` hands out is a part: not empty, no dots, and short.
pub record IsName (name : Text) : Type 0 where
  pub no_dot : streq name dot ≡ false
  pub no_dotdot : streq name dotdot ≡ false
  pub some_name : is_empty name ≡ false
  pub short : length name < name_max

check_last-IsName :
    (cur : ℕ) (last : Text) (p : ℕ) (name : Text)
    → length last < name_max
    → check_last cur last ≡ some (p, name)
    → IsName name × (cur ≡ p) × (last ≡ name)
unfolding check_last
check_last-IsName cur last p name h e = ground (arith, str_copy_fits last name_max)

walk_parent-fits :
    (fs : Fs) (fuel : ℕ) (path : Text) (cur : ℕ) (last : Text) (p : ℕ) (name : Text)
    → length last < name_max
    → walk_parent fs fuel path cur last ≡ some (p, name)
    → length name < name_max
unfolding walk_parent
walk_parent-fits fs zero path cur last p name h e = cc
walk_parent-fits fs (suc fuel) path cur last p name h e =
    let rest = (read_part path).1 in
    let last' = str_copy (read_part path).0 name_max in
    let fits = length-str_copy (read_part path).0 name_max in
    let same = walk_parent-fits fs fuel rest cur last' p name in
    let above = walk_parent-fits fs fuel rest (up fs cur) last' p name in
    elim (Option-cases (find_child fs cur (read_part path).0)) [
      | inl q ↦ ground (arith, fits, same, above)
      | inr (child, q) ↦
          ground (arith, fits, same, above, walk_parent-fits fs fuel rest child last' p name)
    ]

pub resolve_parent-reached :
    (fs : Fs) (path : Text) (parent : ℕ) (name : Text)
    → resolve_parent fs path ≡ some (parent, name)
    → IsName name
      × (is_empty path ≡ false)
      × (walk_parent fs (length path + 2) path (start fs path) [] ≡ some (parent, name))
unfolding resolve_parent
resolve_parent-reached fs path parent name e =
    elim (Option-cases (walk_parent fs (length path + 2) path (start fs path) [])) [
      | inl q ↦ ground (arith, q)
      | inr ((cur, last), q) ↦
          let fits = walk_parent-fits fs (length path + 2) path (start fs path) [] cur last in
          let checked = check_last-IsName cur last parent name in ground (arith, q, fits, checked)
    ]

-- The directory that a walk starts at is in use, if the working directory was not removed.
pub start-used :
    (fs : Fs) (path : Text)
    → IsTree fs
    → in_use (node fs fs.cwd) ≡ true
    → in_use (node fs (start fs path)) ≡ true
start-used fs path tree u = ground (arith, tree.root)

pub Created-resolve :
    (kind : Kind) (path : Text) (fs fs' : Fs) (id : ℕ)
    → kind ≢ unused
    → IsTree fs
    → in_use (node fs fs.cwd) ≡ true
    → Created kind path fs fs' id
    → resolve fs' path ≡ some id
unfolding resolve
Created-resolve kind path fs fs' id used tree live c =
    let (named, nonempty, reached) = resolve_parent-reached fs path parent name c.reached in
    let fuel = length path + 2 in
    let n = new_node kind parent name in
    let ends =
      walk-new fs tree id parent name n (alloc_node-lt fs id c.slot) (alloc_node-free fs id c.slot)
        (in_use-kind used) (str_copy_fits name name_max named.short) refl c.fresh named.no_dot
        named.no_dotdot named.some_name fuel path (start fs path) [] (start-used fs path tree live)
        (λ _. refl) reached in
    let enough = walk_fuel (put id n fs) (suc fuel) fuel path (start fs path) in
    rw c.table (ground (arith, nonempty, ends, enough (omega arith) (omega arith)))
  where
    open c use {parent, name}

    in_use-kind : kind ≢ unused → in_use (new_node kind parent name) ≡ true
    in_use-kind h = ground (arith, h)

pub Created-node :
    (kind : Kind) (path : Text) (fs fs' : Fs) (id : ℕ) (c : Created kind path fs fs' id)
    → node fs' id ≡ new_node kind c.parent c.name
Created-node kind path fs fs' id c =
    rw c.table (node-put_self fs id (new_node kind c.parent c.name) (alloc_node-lt fs id c.slot))
