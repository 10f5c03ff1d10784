-- ===== src/Vfs.antt =====
-- The write protection of src/vfs.c, which looks at the text of a path.
use tabla_rusa_os.Base.{
  ℕ, suc, ◌+◌, ◌≡◌, Text, Bool, true, false, [], ◌∷◌, ◌==◌, ◌&&◌, ◌||◌, if◌then◌else◌, codes,
  length, arith, streq,
}
use tabla_rusa_os.Fs.Node.{Fs}
use tabla_rusa_os.Fs.Path.{resolve, walk, read_part, slash, is_absolute}
use tabla_rusa_os.Fs.Walk.{walk_fuel}

-- `str_starts(s, prefix)`
unfoldable pub str_starts : Text → Text → Bool
str_starts s [] = true
str_starts [] (p ∷ ps) = false
str_starts (c ∷ cs) (p ∷ ps) = (c == p) && str_starts cs ps

-- The prefixes under which nothing is written, in src/vfs.c and src/security.c.
unfoldable pub is_protected : Text → Bool
unfolding str_starts
is_protected path =
    str_starts path (codes "/system")
    || (str_starts path (codes "/boot") || str_starts path (codes "/proc"))

unfoldable pub vfs_can_write : Text → Bool
unfolding is_protected
vfs_can_write path = if is_protected path then false else true

-- "/." before a path
abbrev pub dotted : Text → Text
dotted path = slash ∷ b'.' ∷ path

walk-dotted :
    (fs : Fs) (fuel c : ℕ) (cs : Text)
    → (c == slash) ≡ true
    → walk fs (suc fuel) (dotted (c ∷ cs)) 0 ≡ walk fs fuel (c ∷ cs) 0
unfolding walk read_part streq
walk-dotted fs fuel c cs h = ground arith

-- Every absolute path has a spelling that `vfs_can_write` allows: with "/." before it, it
-- resolves to the same node, and no protected prefix matches.
pub dotted-bypass :
    (path : Text) (fs : Fs)
    → is_absolute path ≡ true
    → (vfs_can_write (dotted path) ≡ true) × (resolve fs (dotted path) ≡ resolve fs path)
unfolding vfs_can_write resolve
dotted-bypass [] fs h = cc
dotted-bypass (c ∷ cs) fs h =
    let n = length cs in
    let same = walk_fuel fs (n + 4) (n + 3) (c ∷ cs) 0 (omega arith) (omega arith) in
    let more : suc (suc (suc n)) + 2 ≡ suc (n + 4) = omega arith in
    let less : suc n + 2 ≡ n + 3 = omega arith in
    (ground arith, rw (more, less) (ground (arith, same, walk-dotted fs (n + 4) c cs h)))
