-- ===== src/Fs/Node.antt =====
-- The node table of src/fs.c, its scans, and the state that its operations share.
use tabla_rusa_os.Base.{
  ℕ, Text, Bool, true, false, List, Option, ◌==◌, ◌&&◌, ◌/◌, ◌%◌, get_or, set, find_index, streq,
  [],
}

-- `enum fs_type`
pub data Kind : Type 0 where
  unused dir file : Kind

-- `struct fs_node`. A character array is its bytes before the terminator.
pub record Node : Type 0 where
  pub kind : Kind
  pub parent : ℕ
  pub name : Text
  pub content : Text
  pub size : ℕ
  pub permissions : ℕ

-- The static state: `nodes` and `cwd`.
pub record Fs : Type 0 where
  pub nodes : List Node
  pub cwd : ℕ

abbrev pub max_nodes : ℕ
max_nodes = 192

abbrev pub name_max : ℕ
name_max = 32

abbrev pub content_max : ℕ
content_max = 1024

abbrev pub perm_read : ℕ
perm_read = 1

abbrev pub perm_write : ℕ
perm_write = 2

abbrev pub perm_exec : ℕ
perm_exec = 4

-- `p & bit` for a power of two, as a test.
abbrev pub has_perm : ℕ → ℕ → Bool
has_perm p bit = (p / bit) % 2 == 1

-- A node of the zeroed table.
abbrev pub blank : Node
blank = record { kind = unused; parent = 0; name = []; content = []; size = 0; permissions = 0 }

abbrev pub in_use : Node → Bool
in_use n = elim n.kind [ unused ↦ false | _ ↦ true ]

abbrev pub is_dir : Node → Bool
is_dir n = elim n.kind [ dir ↦ true | _ ↦ false ]

abbrev pub is_file : Node → Bool
is_file n = elim n.kind [ file ↦ true | _ ↦ false ]

-- `nodes[i]`
abbrev pub node : Fs → ℕ → Node
node fs i = get_or fs.nodes i blank

-- `nodes[i] = n`
abbrev pub put : ℕ → Node → Fs → Fs
put i n fs = record fs { nodes = set fs.nodes i n }

-- The test of `find_child`.
abbrev pub is_child : ℕ → Text → Node → Bool
is_child parent name n = in_use n && (n.parent == parent) && streq n.name name

-- The test of the scans over the children of a directory.
abbrev pub child_of : ℕ → Node → Bool
child_of parent n = in_use n && (n.parent == parent)

abbrev pub is_free : Node → Bool
is_free n = elim n.kind [ unused ↦ true | _ ↦ false ]

-- `none` is the return value -1.
unfoldable pub alloc_node : Fs → Option ℕ
alloc_node fs = find_index is_free fs.nodes

unfoldable pub find_child : Fs → ℕ → Text → Option ℕ
find_child fs parent name = find_index (is_child parent name) fs.nodes
