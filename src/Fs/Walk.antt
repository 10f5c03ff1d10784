-- ===== src/Fs/Walk.antt =====
-- The reading of path parts in src/fs.c, and the fuel of the walks.
use tabla_rusa_os.Base.{
  ℕ, zero, suc, ◌+◌, ◌≤◌, ◌<◌, ◌≡◌, refl, Text, false, [], ◌∷◌, length, arith, Option-cases,
  is_empty, str_copy, inl, inr,
}
use tabla_rusa_os.Fs.Node.{Fs, name_max, find_child}
use tabla_rusa_os.Fs.Path.{skip_slashes, part_bytes, after_part, read_part, up, walk, walk_parent}

-- A part is empty exactly when nothing but slashes is left.
pub part-empty : (path : Text) → is_empty (read_part path).0 ≡ is_empty (skip_slashes path)
unfolding read_part
part-empty [] = refl
part-empty (c ∷ cs) = ground (arith, part-empty cs)

-- A part fits the buffer of `FS_NAME_MAX` bytes.
part_bytes-fits : (i : ℕ) (s : Text) → i < name_max → i + length (part_bytes i s) < name_max
unfolding part_bytes
part_bytes-fits i [] h = omega arith
part_bytes-fits i (c ∷ cs) h = ground (arith, part_bytes-fits (i + 1) cs, part_bytes-fits i cs)

pub length-part : (path : Text) → length (read_part path).0 < name_max
unfolding read_part
length-part path = omega (arith, part_bytes-fits 0 (skip_slashes path))

length-skip : (path : Text) → length (skip_slashes path) ≤ length path
unfolding skip_slashes
length-skip [] = omega arith
length-skip (c ∷ cs) = ground (arith, length-skip cs)

length-after : (path : Text) → length (after_part path) ≤ length path
unfolding after_part
length-after [] = omega arith
length-after (c ∷ cs) = ground (arith, length-after cs)

-- A round that reads a part makes the path shorter.
pub length-rest :
    (path : Text) → is_empty (read_part path).0 ≡ false → length (read_part path).1 < length path
unfolding read_part
length-rest [] h = cc
length-rest (c ∷ cs) h = ground (arith, length-rest cs, length-after cs)

-- The loop of `resolve` gives the same result on any two amounts of fuel above the length of the
-- path.
pub walk_fuel :
    (fs : Fs) (f g : ℕ) (path : Text) (cur : ℕ)
    → length path < f
    → length path < g
    → walk fs f path cur ≡ walk fs g path cur
unfolding walk
walk_fuel fs zero g path cur h k = absurd (omega arith)
walk_fuel fs (suc f) zero path cur h k = absurd (omega arith)
walk_fuel fs (suc f) (suc g) path cur h k =
    let rest = (read_part path).1 in
    let shorter = length-rest path in
    elim (Option-cases (find_child fs cur (read_part path).0)) [
      | inl q ↦
          ground (arith, shorter, walk_fuel fs f g rest cur, walk_fuel fs f g rest (up fs cur))
      | inr (child, q) ↦ ground (
        arith,
        shorter,
        walk_fuel fs f g rest cur,
        walk_fuel fs f g rest (up fs cur),
        walk_fuel fs f g rest child,
      )
    ]

-- The same for the loop of `resolve_parent`.
pub walk_parent_fuel :
    (fs : Fs) (f g : ℕ) (path : Text) (cur : ℕ) (last : Text)
    → length path < f
    → length path < g
    → walk_parent fs f path cur last ≡ walk_parent fs g path cur last
unfolding walk_parent
walk_parent_fuel fs zero g path cur last h k = absurd (omega arith)
walk_parent_fuel fs (suc f) zero path cur last h k = absurd (omega arith)
walk_parent_fuel fs (suc f) (suc g) path cur last h k =
    let rest = (read_part path).1 in
    let last' = str_copy (read_part path).0 name_max in
    let shorter = length-rest path in
    elim (Option-cases (find_child fs cur (read_part path).0)) [
      | inl q ↦ ground (
        arith,
        shorter,
        walk_parent_fuel fs f g rest cur last',
        walk_parent_fuel fs f g rest (up fs cur) last',
      )
      | inr (child, q) ↦ ground (
        arith,
        shorter,
        walk_parent_fuel fs f g rest cur last',
        walk_parent_fuel fs f g rest (up fs cur) last',
        walk_parent_fuel fs f g rest child last',
      )
    ]
